-- ===== src/Supervisor/Ownership.antt =====
-- Who owns the children: the part of the supervisor's state that says which runners are installed
-- and which children run, and a program logic over it. `Logic` has the rules, `Invariant` what is
-- kept, `Screen`, `Launch` and `Slots` the steps, and the others the operations.
pub mod Logic
pub mod Invariant
pub mod Screen
pub mod Launch
pub mod Slots
pub mod Foreground
pub mod Compositor
pub mod Switching
pub mod Ended
pub mod Recovery
pub mod Steps
pub mod Closing
