-- ===== src/Tests.antt =====
-- Runs of the definitions on concrete inputs, and the theorems at inputs where they apply.
mod Open
mod Modes
mod Schedule
mod Node
mod Screen
mod Loop
mod Watchdog
mod Files
mod Playlist
mod Actions
mod Content
mod Display
mod Server
