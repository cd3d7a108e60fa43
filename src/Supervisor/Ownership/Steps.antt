-- ===== src/Supervisor/Ownership/Steps.antt =====
-- The other operations, and every sequence of operations and of events at the children.
use sideshow.Base.{
  ◌≡◌, refl, sym, subst, ℕ, inl, inr, Bool, true, false, not, ◌&&◌, ◌||◌, Option, none, some, Text,
  Bool-cases,
}
use sideshow.Mode.{Mode}
use sideshow.Supervisor.World.{Runner, World, Act, pure, ◌>>=◌, ask}
use sideshow.Supervisor.Ownership.Logic.{
  core, Holds, Neutral, Neutral-gets, Holds-neutral, Holds-then, Holds-if, Holds-pure, Holds-after,
}
use sideshow.Supervisor.Ownership.Invariant.{IsSettled}
use sideshow.Supervisor.Ownership.Screen.{Neutral-navigate, calm_rules}
use sideshow.Mode.{web, is_kind, kind_of, is_cog_kiosk}
use sideshow.Base.{is_empty}
use sideshow.Supervisor.World.{RunState, Try, cog_reload, cog_failed}
use sideshow.Supervisor.Surface.{is_alive}
use sideshow.Supervisor.Switch.{set_base_mode, set_mode_at, or_failed, switch, url_of}
use sideshow.Supervisor.Recover.{set_state, ended}
use sideshow.Supervisor.Kiosk.{
  restart_body, restart_mode, reattach_at, reattach_web, live_web, navigate_at, navigate_if_web,
  if_web, scroll_page, advance_document, reload_base, reload_at, reload_web, set_url,
}
use sideshow.Supervisor.Ownership.Slots.{
  IsSettled-without_fg, IsOwned-relabelled, holds-set_mode_at,
}
use sideshow.Supervisor.Ownership.Compositor.{Holds-start_primary}
use sideshow.Supervisor.Ownership.Foreground.{Holds-switch_foreground, Neutral-or_failed}
use sideshow.Supervisor.Ownership.Switching.{KeepsSettled, with_token-IsSettled, switch-IsSettled}
use sideshow.Supervisor.Ownership.Recovery.{set_state-IsSettled, ended-IsSettled}

restart_body-IsSettled :
    (f b : Option Runner) (w : World)
    → IsSettled (core w)
    → w.fg_runner ≡ f
    → w.runner ≡ b
    → IsSettled (core (restart_body f b w).1)
unfolding restart_body pure
restart_body-IsSettled (some r) b w s pf pb =
    (Holds-switch_foreground b (some r) r.mode).at w (s, pb, pf)
restart_body-IsSettled none (some r) w s pf pb =
    IsSettled-without_fg _ ((Holds-start_primary r.mode (some r)).at w (s.children, pb, pf))
restart_body-IsSettled none none w s pf pb = s

-- `RestartMode` keeps the children owned and a KMS mode alone.
pub restart_mode-IsSettled : KeepsSettled restart_mode
unfolding restart_mode
restart_mode-IsSettled =
    with_token-IsSettled (λ w. restart_body w.fg_runner w.runner w)
      (λ w s. restart_body-IsSettled w.fg_runner w.runner w s refl refl)

of_Neutral : (m : Try) → Neutral m → KeepsSettled m
of_Neutral m n w s = subst IsSettled (sym (n.same w)) s

Neutral-reattach_at : (b : Option Runner) → Neutral (reattach_at b)
unfolding reattach_at
Neutral-reattach_at none = search calm_rules
Neutral-reattach_at (some r) = search (calm_rules, Neutral-or_failed) depth 10

reattach_web-IsSettled : KeepsSettled reattach_web
unfolding reattach_web
reattach_web-IsSettled w s =
    elim (Bool-cases (not w.switching && (not (live_web w) || w.attached))) [
      | inl e ↦ rw e s
      | inr e ↦ rw e (
          with_token-IsSettled (λ w. reattach_at w.runner w)
            (λ w s. of_Neutral (reattach_at w.runner) (Neutral-reattach_at w.runner) w s) w s)
    ]

set_base_mode-IsSettled : (i : ℕ) (m : Mode) → Holds IsSettled (set_base_mode i m) (λ _. IsSettled)
unfolding set_base_mode set_mode_at
set_base_mode-IsSettled i m = record {
  at = λ w s. record {
    children =
        IsOwned-relabelled (core w) _ _ (λ j. holds-set_mode_at i j m w.runner) (λ j. refl)
          s.children;
    alone = λ r e k. rw (s.alone r e k);
  };
}

Holds-navigate_at :
    (url : Text) (b : Option Runner) → Holds IsSettled (navigate_at url b) (λ _. IsSettled)
unfolding navigate_at
Holds-navigate_at url none = Holds-pure false (λ c s. s)
Holds-navigate_at url (some r) = Holds-after _ _ (Neutral-navigate url) λ done.
    Holds-if done _ _
      (Holds-then _ _ (set_base_mode-IsSettled r.id (set_url url r.mode))
        (Holds-pure true (λ c s. s)))
      (Holds-pure false (λ c s. s))

if_web-IsSettled :
    (body : Act Bool)
    → ((w : World) → IsSettled (core w) → IsSettled (core (body w).1))
    → (w : World) → IsSettled (core w)
    → IsSettled (core (if_web body w).1)
unfolding if_web
if_web-IsSettled body keep w s = elim (Bool-cases (w.switching || not (live_web w))) [
  | inl e ↦ rw e s
  | inr e ↦ rw e (keep (record w { switching = true }) s)
]

navigate_if_web-IsSettled :
    (url : Text) (w : World) → IsSettled (core w) → IsSettled (core (navigate_if_web url w).1)
unfolding navigate_if_web
navigate_if_web-IsSettled url =
    if_web-IsSettled (λ w. navigate_at url w.runner w)
      (λ w s. (Holds-navigate_at url w.runner).at w s)

Neutral-scroll_page : Neutral scroll_page
unfolding scroll_page
Neutral-scroll_page = search calm_rules depth 8

advance_document-IsSettled :
    (w : World) → IsSettled (core w) → IsSettled (core (advance_document w).1)
unfolding advance_document
advance_document-IsSettled =
    if_web-IsSettled scroll_page (λ w s. subst IsSettled (sym (Neutral-scroll_page.same w)) s)

Holds-reload_base : (b : Option Runner) → Holds IsSettled (reload_base b) (λ _. IsSettled)
unfolding reload_base
Holds-reload_base none = Holds-pure none (λ c s. s)
Holds-reload_base (some r) =
    Holds-if (not (is_kind (kind_of r.mode) web) || is_empty (url_of r.mode)) _ _
      (Holds-pure none (λ c s. s))
      (Holds-after _ _ (Neutral-gets _) λ on.
        Holds-if on _ _ (Holds-neutral (search (calm_rules, Neutral-or_failed)) (λ e c s. s))
          (record { at = restart_mode-IsSettled }))

reload_at-IsSettled : (f : Option Runner) → KeepsSettled (reload_at f)
unfolding reload_at
reload_at-IsSettled none w s = (Holds-reload_base w.runner).at w s
reload_at-IsSettled (some r) w s = elim (Bool-cases (is_alive r && is_cog_kiosk r.mode)) [
  | inl e ↦ rw e (
      of_Neutral (ask cog_reload >>= λ done. or_failed cog_failed done)
        (search (calm_rules, Neutral-or_failed)) w s)
  | inr e ↦ rw e s
]

reload_web-IsSettled : KeepsSettled reload_web
unfolding reload_web
reload_web-IsSettled w s = reload_at-IsSettled w.fg_runner w s

-- One call of an operation, or one event at a run loop: it changes the state of its runner, or it
-- ends. The calls may come in any order, and the world answers as it likes.
pub data Step (w : World) : World → Type 0 where
  switched : (m : Mode) → Step w (switch m w).1
  restarted : Step w (restart_mode w).1
  reattached : Step w (reattach_web w).1
  navigated : (url : Text) → Step w (navigate_if_web url w).1
  advanced : Step w (advance_document w).1
  reloaded : Step w (reload_web w).1
  changed : (i : ℕ) (s : RunState) → Step w (set_state i s w).1
  finished : (r : Runner) (s : RunState) → Step w (ended r s w).1

pub data Reach (w : World) : World → Type 0 where
  here : Reach w w
  next : {u v : World} → Reach w u → Step u v → Reach w v

Step-IsSettled : {w u : World} → Step w u → IsSettled (core w) → IsSettled (core u)
Step-IsSettled {w = w} (switched m) s = switch-IsSettled m w s
Step-IsSettled {w = w} restarted s = restart_mode-IsSettled w s
Step-IsSettled {w = w} reattached s = reattach_web-IsSettled w s
Step-IsSettled {w = w} (navigated url) s = navigate_if_web-IsSettled url w s
Step-IsSettled {w = w} advanced s = advance_document-IsSettled w s
Step-IsSettled {w = w} reloaded s = reload_web-IsSettled w s
Step-IsSettled {w = w} (changed i st) s = set_state-IsSettled i st w s
Step-IsSettled {w = w} (finished r st) s = ended-IsSettled r st w s

-- Through every sequence of operations and run-loop events, whatever the system answers: each
-- child that runs belongs to an installed runner, no runner has two, and a mode on the KMS
-- framebuffer has no base behind it.
pub Reach-IsSettled : {w u : World} → IsSettled (core w) → Reach w u → IsSettled (core u)
Reach-IsSettled s here = s
Reach-IsSettled s (next r st) = Step-IsSettled st (Reach-IsSettled s r)
