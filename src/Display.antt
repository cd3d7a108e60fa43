-- ===== src/Display.antt =====
-- The outputs of the display (agent/display.go): what `xrandr` and `wlr-randr` print, and the
-- arguments they are called with.
pub mod Xrandr
pub mod Wayland
pub mod First
pub mod State
pub mod Ops
pub mod Valid
pub mod Reach
pub mod Stuck
