-- ===== src/Server/Sleeping.antt =====
-- A node whose display is taken for asleep (agent/server.go, agent/displaystate.go).
use sideshow.Base.{◌≡◌, refl, Bool, none, List, [], ◌∷◌, Text, text, text_eq_refl}
use sideshow.Display.State.{Display, Seat, primary_name}
use sideshow.Display.Ops.{screen}
use sideshow.Display.Stuck.{IsStuck, screen-IsStuck, IsStuck-asleep}
use sideshow.Server.{Server, fire_scheduled}

-- Any calls of `Screen`, one after the other.
unfoldable pub screens : List (Seat × Text × Bool) → Display → Display
screens [] d = d
screens ((seat, output, on) ∷ calls) d = screens calls (screen seat output on d).1.0

screens-IsStuck :
    (calls : List (Seat × Text × Bool)) (d : Display) → IsStuck d → IsStuck (screens calls d)
unfolding screens
screens-IsStuck [] d h = h
screens-IsStuck ((seat, output, on) ∷ calls) d h =
    screens-IsStuck calls (screen seat output on d).1.0 (screen-IsStuck seat output on d h)

-- Once the primary output is known and a sleep stands under the empty name, the scheduler puts the
-- display to sleep no more, whatever calls of Screen were made: it makes no call and changes nothing.
pub fire_scheduled_sleepless :
    (now : Text) (seat : Seat) (calls : List (Seat × Text × Bool)) (s : Server)
    → IsStuck s.display
    → let t = record s { display = screens calls s.display } in
      fire_scheduled now seat (text "@sleep") t ≡ ((none, t), [])
unfolding fire_scheduled primary_name
fire_scheduled_sleepless now seat calls s h =
    let k = screens-IsStuck calls s.display h in
    rw (text_eq_refl (text "@sleep"), k.1, IsStuck-asleep (screens calls s.display) k) refl
