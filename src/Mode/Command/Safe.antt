-- ===== src/Mode/Command/Safe.antt =====
-- What `modeCommand` (agent/main.go) builds for a mode that `validate` has accepted.
use sideshow.Base.{Bool, true, false}
use sideshow.Mode.{Mode}
use sideshow.Mode.Command.{
  CommandError, index_panic, no_source, unsupported, Command, built, failed,
}

-- The errors that no configuration explains, the panic among them.
abbrev is_defect : CommandError → Bool
is_defect index_panic = true
is_defect no_source = true
is_defect unsupported = true
is_defect _ = false

abbrev pub has_defect : Command → Bool
has_defect (built name args) = false
has_defect (failed e) = is_defect e
