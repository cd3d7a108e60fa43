-- ===== src/Node/Launch.antt =====
-- The mode that a saved custom mode is launched as (agent/state.go, `mode`).
