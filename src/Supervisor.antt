-- ===== src/Supervisor.antt =====
-- The supervisor (agent/supervisor.go): its state and actions in `World` and `Surface`, its
-- operations in `Switch`, `Recover` and `Kiosk`, and what holds of them in the other modules.
pub mod World
pub mod Surface
pub mod Switch
pub mod Recover
pub mod Kiosk
pub mod Ownership
pub mod Shown
pub mod Serious
pub mod Refused
pub mod Stranded
pub mod Restarted
pub mod RunLoop
pub mod RateLimit
pub mod LoopEnds
