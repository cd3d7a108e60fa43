-- ===== src/Supervisor/World.antt =====
-- The state that the supervisor's operations read and write (agent/supervisor.go): the two runner
-- slots and the switch token, the CDP controller, the active VT, and the children that run.
-- What the operating system and the browser answer is asked of the world: `answer q n` is the
-- answer to the n-th question, if that is `q`.
use sideshow.Base.{
  ℕ, ◌+◌, ◌==◌, Bool, false, not, ◌||◌, Option, none, some, List, [], ◌∷◌, Text, keep_if,
}
use sideshow.Mode.{Mode}
use sideshow.Mode.Command.{Config}
use sideshow.Mode.Validate.{ModeError}

pub data RunState : Type 0 where
  starting running crashed stopped : RunState

-- `onTerminal`: none, `recoverForeground` with the base's mode, or `recoverPrimary`.
pub data Hook : Type 0 where
  no_hook : Hook
  to_base : Mode → Hook
  to_x : Text → Bool → Hook

-- A `*modeRunner`; `id` is its address.
pub record Runner : Type 0 where
  pub id : ℕ
  pub mode : Mode
  pub state : RunState
  pub hook : Hook

pub data Query : Type 0 where
  chvt : ℕ → Query
  find_binary : Text → Query
  spawn : Mode → Query
  cdp_connect cdp_scroll cog_bus cog_reload : Query
  cdp_navigate cog_open : Text → Query

pub record World : Type 0 where
  pub cfg : Config
  pub runner : Option Runner
  pub fg_runner : Option Runner
  pub switching : Bool
  pub attached : Bool
  pub port : ℕ
  pub vt : ℕ
  pub live : List ℕ
  pub next_id : ℕ
  pub settles : ℕ
  pub answer : Query → ℕ → Bool
  pub asked : ℕ

pub data Failure : Type 0 where
  invalid_mode : ModeError → Failure
  preflight_failed busy vt_collision vt_failed start_failed navigate_failed cog_failed : Failure
  not_attached : Failure

-- The HTTP code of an `apiError`.
unfoldable pub code_of : Failure → ℕ
code_of (invalid_mode e) = 400
code_of preflight_failed = 400
code_of busy = 409
code_of vt_collision = 409
code_of vt_failed = 500
code_of start_failed = 500
code_of navigate_failed = 500
code_of cog_failed = 502
code_of not_attached = 500

abbrev pub Act {ℓ} : Type ℓ → Type ℓ
Act A = World → A × World

-- An action that may return an error; `none` is `nil`.
abbrev pub Try : Type 0
Try = Act (Option Failure)

unfoldable pub pure {ℓ} : {A : Type ℓ} → A → Act A
pure a w = (a, w)

infixl 10 ◌>>=◌ ◌>>◌
unfoldable pub ◌>>=◌ {ℓ κ} : {A : Type ℓ} {B : Type κ} → Act A → (A → Act B) → Act B
◌>>=◌ m f w = let (a, w') = m w in f a w'

unfoldable pub ◌>>◌ {ℓ κ} : {A : Type ℓ} {B : Type κ} → Act A → Act B → Act B
unfolding ◌>>=◌
m >> n = m >>= λ _. n

unfoldable pub gets {ℓ} : {A : Type ℓ} → (World → A) → Act A
gets f w = (f w, w)

unfoldable pub skip : Act (Unit {0})
skip w = (tt, w)

unfoldable pub ask : Query → Act Bool
ask q w = (w.answer q w.asked, record w { asked = w.asked + 1 })

-- `s.runner = r` and `s.fgRunner = r`
unfoldable pub set_runner : Option Runner → Act (Unit {0})
set_runner r w = (tt, record w { runner = r })

unfoldable pub set_fg : Option Runner → Act (Unit {0})
set_fg r w = (tt, record w { fg_runner = r })

unfoldable pub set_attached : Bool → Act (Unit {0})
set_attached b w = (tt, record w { attached = b })

unfoldable pub set_vt : ℕ → Act (Unit {0})
set_vt n w = (tt, record w { vt = n })

-- `s.chrome.Target(port)`
unfoldable pub target : ℕ → Act (Unit {0})
target p w = (tt, record w { port = p })

-- `s.settled()`
unfoldable pub settled : Act (Unit {0})
settled w = (tt, record w { settles = w.settles + 1 })

-- A pointer comparison, `slot == r`.
abbrev pub holds : ℕ → Option Runner → Bool
holds i none = false
holds i (some r) = r.id == i

abbrev pub member : ℕ → List ℕ → Bool
member i [] = false
member i (j ∷ js) = j == i || member i js

abbrev pub without : ℕ → List ℕ → List ℕ
without i = keep_if (λ j. not (j == i))
