-- ===== src/Supervisor/Stranded.antt =====
-- The switch token, and what a failed switch to the compositor leaves behind.
use sideshow.Base.{◌≡◌, refl, ap, ◌∙◌, Bool, true, false, Option, none, some, if◌then◌else◌}
use sideshow.Mode.{Mode, off, is_kind, kind_of}
use sideshow.Mode.Command.{Command, mode_command, built, failed}
use sideshow.Supervisor.World.{
  Runner, World, Failure, preflight_failed, Try, pure, ◌>>=◌, ◌>>◌, gets, ask, set_fg,
}
use sideshow.Supervisor.Surface.{find_program, preflight, stop}
use sideshow.Supervisor.Switch.{
  clear_fg, start_primary, go_off, same_backend, reuse_base, switch_compositor,
}

if_failed :
    (b : Bool) (act : Try) (e : Option Failure) (w : World)
    → b ≡ false
    → (if b then act else pure e) w ≡ (e, w)
unfolding pure
if_failed b act e w h = rw h refl

find_program-vt : (c : Command) (w : World) → (find_program c w).1.vt ≡ w.vt
unfolding find_program ask pure
find_program-vt (failed e) w = refl
find_program-vt (built name args) w = refl

preflight-vt : (m : Mode) (w : World) → (preflight m w).1.vt ≡ w.vt
unfolding preflight ◌>>=◌ gets
preflight-vt m w = find_program-vt (mode_command w.cfg m) w

find_program-fg : (c : Command) (w : World) → (find_program c w).1.fg_runner ≡ w.fg_runner
unfolding find_program ask pure
find_program-fg (failed e) w = refl
find_program-fg (built name args) w = refl

preflight-fg : (m : Mode) (w : World) → (preflight m w).1.fg_runner ≡ w.fg_runner
unfolding preflight ◌>>=◌ gets
preflight-fg m w = find_program-fg (mode_command w.cfg m) w

start_primary-refused :
    (m : Mode) (prev : Option Runner) (w : World)
    → (preflight m w).0 ≡ false
    → start_primary m prev w ≡ (some preflight_failed, (preflight m w).1)
unfolding start_primary ◌>>=◌
start_primary-refused m prev w h =
    if_failed (preflight m w).0 _ (some preflight_failed) (preflight m w).1 h

reuse_base-other :
    (m : Mode) (b : Runner) (came : Bool)
    → same_backend b m ≡ false
    → reuse_base m (some b) came ≡ start_primary m (some b)
reuse_base-other m b came h = rw h refl

not_off : (b : Bool) (x y : Try) → b ≡ false → (if b then x else y) ≡ y
not_off b x y h = rw h refl

cleared-fg : (r : Runner) (w : World) → (clear_fg (some r) w).1.fg_runner ≡ none
unfolding clear_fg set_fg stop ◌>>◌ ◌>>=◌
cleared-fg r w = refl

cleared-vt : (r : Runner) (w : World) → (clear_fg (some r) w).1.vt ≡ w.vt
unfolding clear_fg set_fg stop ◌>>◌ ◌>>=◌
cleared-vt r w = refl

refused_late :
    (m : Mode) (b r : Runner) (w : World)
    → is_kind (kind_of m) off ≡ false
    → same_backend b m ≡ false
    → (preflight m (clear_fg (some r) w).1).0 ≡ false
    → switch_compositor m (some b) (some r) w
      ≡ (some preflight_failed, (preflight m (clear_fg (some r) w).1).1)
unfolding switch_compositor ◌>>◌ ◌>>=◌
refused_late m b r w ho hb hp =
    let v = (clear_fg (some r) w).1 in
    ap (λ act. act v)
      (not_off (is_kind (kind_of m) off) (go_off (some b)) (reuse_base m (some b) true) ho)
    ∙ ap (λ act. act v) (reuse_base-other m b true hb)
    ∙ start_primary-refused m (some b) v hp

-- A switch from a foreground mode to a mode of another backend whose program is missing is refused
-- only after the foreground mode was stopped: no foreground mode is left, and the VT on screen is
-- still the one of the mode that is gone.
pub switch_compositor_strands :
    (m : Mode) (b r : Runner) (w : World)
    → is_kind (kind_of m) off ≡ false
    → same_backend b m ≡ false
    → (preflight m (clear_fg (some r) w).1).0 ≡ false
    → ((switch_compositor m (some b) (some r) w).0 ≡ some preflight_failed)
      × (((switch_compositor m (some b) (some r) w).1.fg_runner ≡ none)
          × ((switch_compositor m (some b) (some r) w).1.vt ≡ w.vt))
switch_compositor_strands m b r w ho hb hp =
    let v = (clear_fg (some r) w).1 in
    let e = refused_late m b r w ho hb hp in
    (
      ap (λ x. x.0) e,
      (
        ap (λ x. x.1.fg_runner) e ∙ preflight-fg m v ∙ cleared-fg r w,
        ap (λ x. x.1.vt) e ∙ preflight-vt m v ∙ cleared-vt r w,
      ),
    )
