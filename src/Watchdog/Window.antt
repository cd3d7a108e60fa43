-- ===== src/Watchdog/Window.antt =====
-- The ceiling on reboots (`allowReboot` of agent/watchdog.go) through a mode that stays given up,
-- across the reboots themselves.
use sideshow.Base.{
  ℕ, ◌+◌, ◌≤◌, ◌≡◌, refl, ap, sym, subst, ◌∙◌, arith, Bool, true, false, ◌&&◌, List, [], ◌∷◌, ◌++◌,
  length, keep_if, length-append, length-keep_if-le, leb, if◌then◌else◌, inl, inr, Bool-cases, none,
  some,
}
use mathlib.Core.List.{append_assoc, append-nil}
use sideshow.Supervisor.World.{crashed}
use sideshow.Watchdog.{
  Watch, Round, Call, reboot, note_network, try_reboot, is_wedged, count_down, check_down,
  watch_step, begin,
}
use sideshow.Watchdog.Reboots.{
  Ledger, is_kept, times_of, allow_reboot, save_ledger, max_reboots_per_window,
}
use sideshow.Watchdog.Calm.{
  reboots, reboots-append, reboots-round, note_network-reboots, check_wedge_off,
}

module _ (t u : ℕ) (l : t ≤ u) where
  keep_later : (xs : List ℕ) → keep_if (is_kept u) (keep_if (is_kept t) xs) ≡ keep_if (is_kept u) xs
  keep_later [] = refl
  keep_later (x ∷ xs) = ground (arith, keep_later xs)

  length-keep_later :
      (xs : List ℕ) → length (keep_if (is_kept u) xs) ≤ length (keep_if (is_kept t) xs)
  length-keep_later [] = omega arith
  length-keep_later (x ∷ xs) = ground (arith, length-keep_later xs)

keep_if-append {ℓ} :
    {A : Type ℓ} (p : A → Bool) (xs ys : List A)
    → keep_if p (xs ++ ys) ≡ keep_if p xs ++ keep_if p ys
keep_if-append p [] ys = refl
keep_if-append p (x ∷ xs) ys = ground (arith, keep_if-append p xs ys)

-- What happens to the loop: a round of it, or a boot that begins it again.
pub data Event : Type 0 where
  round : Round → Event
  boot : Bool → Event

-- The life of the loop across boots: a boot keeps only the ledger.
unfoldable pub watch_life : Bool → List Event → Watch → Watch × List Call
watch_life may_reboot [] w = (w, [])
watch_life may_reboot (boot up ∷ es) w = watch_life may_reboot es (begin up w.ledger)
watch_life may_reboot (round r ∷ es) w =
    let a = watch_step may_reboot r w in let b = watch_life may_reboot es a.0 in (b.0, a.1 ++ b.1)

-- In every round the mode is given up, and the clock does not go back, from `t` to `u`.
abbrev pub IsDownUntil : ℕ → List Event → ℕ → Type 0
IsDownUntil t [] u = t ≤ u
IsDownUntil t (boot up ∷ es) u = IsDownUntil t es u
IsDownUntil t (round r ∷ es) u =
    (r.state ≡ crashed) × (t ≤ r.now) × (r.now ≤ r.stamp) × IsDownUntil r.stamp es u

-- The ledger has of the reboots `log` all that still counts at `t`, and no window is too full.
abbrev IsKnown : ℕ → List ℕ → Ledger → Type 0
IsKnown t log l =
    (l.has_path ≡ true)
    × (l.writable ≡ true)
    × (keep_if (is_kept t) (times_of l.file) ≡ keep_if (is_kept t) log)
    × (length (keep_if (is_kept t) log) ≤ max_reboots_per_window)

later-IsKnown : (t u : ℕ) (log : List ℕ) (l : Ledger) → t ≤ u → IsKnown t log l → IsKnown u log l
later-IsKnown t u log l le h = (
  h.0,
  h.1,
  subst (λ xs. xs ≡ keep_if (is_kept u) log) (keep_later t u le (times_of l.file))
      (ap (keep_if (is_kept u)) h.2 ∙ keep_later t u le log),
  omega (arith, length-keep_later t u le log, h.3),
)

module _ (now stamp : ℕ) (l : Ledger) (p : l.has_path ≡ true) (q : l.writable ≡ true) where
  abbrev kept : List ℕ
  kept = keep_if (is_kept now) (times_of l.file)

  allow_reboot_refuses :
      leb max_reboots_per_window (length kept) ≡ true
      → allow_reboot now stamp l ≡ (record l { file = some kept }, false)
  unfolding allow_reboot save_ledger
  allow_reboot_refuses h = rw (p, q, h) refl

  allow_reboot_grants :
      leb max_reboots_per_window (length kept) ≡ false
      → allow_reboot now stamp l ≡ (record l { file = some (kept ++ stamp ∷ []) }, true)
  unfolding allow_reboot save_ledger
  allow_reboot_grants h = rw (p, q, h) refl

abbrev asked_for : ℕ → Bool → List ℕ
asked_for stamp allowed = if allowed then stamp ∷ [] else []

room_for_one :
    (now stamp : ℕ) (log held : List ℕ)
    → now ≤ stamp
    → held ≡ keep_if (is_kept now) log
    → leb max_reboots_per_window (length held) ≡ false
    → length (keep_if (is_kept stamp) log) + length (keep_if (is_kept stamp) (stamp ∷ []))
      ≤ max_reboots_per_window
room_for_one now stamp log held le e free =
    let one = length-keep_if-le (is_kept stamp) (stamp ∷ []) in
    let fewer = length-keep_later now stamp le log in
    let few : length (keep_if (is_kept now) log) ≤ 2 =
      subst (λ xs. length xs ≤ 2) e (ground arith) in
    omega (arith, one, fewer, few)

allow_reboot-IsKnown :
    (now stamp : ℕ) (log : List ℕ) (l : Ledger)
    → now ≤ stamp
    → IsKnown now log l
    → let a = allow_reboot now stamp l in IsKnown stamp (log ++ asked_for stamp a.1) a.0
allow_reboot-IsKnown now stamp log l le h =
    let held = kept now stamp l h.0 h.1 in
    elim (Bool-cases (leb max_reboots_per_window (length held))) [
      | inl full ↦
          rw (allow_reboot_refuses now stamp l h.0 h.1 full, append-nil log)
            (
              h.0,
              h.1,
              keep_later now stamp le (times_of l.file) ∙ (later-IsKnown now stamp log l le h).2,
              (later-IsKnown now stamp log l le h).3,
            )
      | inr free ↦ rw (allow_reboot_grants now stamp l h.0 h.1 free) (
        h.0,
        h.1,
        rw
            (
              keep_if-append (is_kept stamp) held (stamp ∷ []),
              keep_if-append (is_kept stamp) log (stamp ∷ []),
              keep_later now stamp le (times_of l.file),
              (later-IsKnown now stamp log l le h).2,
            )
            refl,
        rw
            (
              keep_if-append (is_kept stamp) log (stamp ∷ []),
              length-append (keep_if (is_kept stamp) log) (keep_if (is_kept stamp) (stamp ∷ [])),
            )
            (room_for_one now stamp log held le h.2 free),
      )
    ]

reboots-asked_for :
    (stamp : ℕ) (b : Bool) → reboots (if b then reboot stamp ∷ [] else []) ≡ asked_for stamp b
unfolding reboots
reboots-asked_for stamp true = refl
reboots-asked_for stamp false = refl

module _ (r : Round) (w : Watch) (log : List ℕ) (le : r.now ≤ r.stamp) where
  try_reboot-IsKnown :
      IsKnown r.now log w.ledger
      → IsKnown r.stamp (log ++ reboots (try_reboot r w).1) (try_reboot r w).0.ledger
  unfolding try_reboot
  try_reboot-IsKnown h =
      rw (reboots-asked_for r.stamp (allow_reboot r.now r.stamp w.ledger).1)
        (allow_reboot-IsKnown r.now r.stamp log w.ledger le h)

  check_down-IsKnown :
      (may_reboot : Bool)
      → IsKnown r.now log w.ledger
      → let a = check_down may_reboot r w in IsKnown r.stamp (log ++ reboots a.1) a.0.ledger
  unfolding check_down reboots
  check_down-IsKnown may_reboot h = elim (Bool-cases (may_reboot && leb 10 w.down_streak)) [
    | inl due ↦ rw due (try_reboot-IsKnown h)
    | inr b ↦ rw (b, append-nil log) (later-IsKnown r.now r.stamp log w.ledger le h)
  ]

is_wedged-crashed : (r : Round) → r.state ≡ crashed → is_wedged r ≡ false
unfolding is_wedged
is_wedged-crashed r h = ground arith

count_down-crashed :
    (r : Round) (w : Watch) → r.state ≡ crashed → (count_down r w).ledger ≡ w.ledger
unfolding count_down
count_down-crashed r w h = ground arith

watch_step-IsKnown :
    (may_reboot : Bool) (r : Round) (w : Watch) (log : List ℕ)
    → r.state ≡ crashed
    → r.now ≤ r.stamp
    → IsKnown r.now log w.ledger
    → let a = watch_step may_reboot r w in IsKnown r.stamp (log ++ reboots a.1) a.0.ledger
unfolding watch_step note_network reboots
watch_step-IsKnown may_reboot r w log gone le h =
    let a : Watch × List Call = note_network r w in
    let b : Watch = record a.0 { wedge = 0; wedge_restarts = 0 } in
    let c : Watch = count_down r b in
    let known : IsKnown r.now log c.ledger =
      subst (IsKnown r.now log) (sym (count_down-crashed r b gone)) h in
    rw (check_wedge_off may_reboot r a.0 (is_wedged-crashed r gone)) (
      rw (reboots-round a.1 [] (check_down may_reboot r c).1, note_network-reboots r w)
        (check_down-IsKnown r c log le may_reboot known))

watch_life-IsKnown :
    (may_reboot : Bool) (es : List Event) (w : Watch) (log : List ℕ) (t u : ℕ)
    → IsDownUntil t es u
    → IsKnown t log w.ledger
    → let a = watch_life may_reboot es w in IsKnown u (log ++ reboots a.1) a.0.ledger
unfolding watch_life reboots
watch_life-IsKnown may_reboot [] w log t u le h =
    rw (append-nil log) (later-IsKnown t u log w.ledger le h)
watch_life-IsKnown may_reboot (boot up ∷ es) w log t u d h =
    watch_life-IsKnown may_reboot es (begin up w.ledger) log t u d h
watch_life-IsKnown may_reboot (round r ∷ es) w log t u d h =
    let a : Watch × List Call = watch_step may_reboot r w in
    let here =
      watch_step-IsKnown may_reboot r w log d.0 d.2 (later-IsKnown t r.now log w.ledger d.1 h) in
    let rest = watch_life-IsKnown may_reboot es a.0 (log ++ reboots a.1) r.stamp u d.3 here in
    let later : List Call = (watch_life may_reboot es a.0).1 in
    rw (reboots-append a.1 later, sym (append_assoc log (reboots a.1) (reboots later))) rest

-- When the mode is given up in every round, the ledger has a path, can be written and is absent at
-- first, and the clock does not go back, then whatever boots come between the rounds, at most three
-- reboots are made in the hour up to any time after the last round.
pub watch_life_window :
    (may_reboot : Bool) (es : List Event) (w : Watch) (t u : ℕ)
    → w.ledger ≡ record { has_path = true; writable = true; file = none }
    → IsDownUntil t es u
    → length (keep_if (is_kept u) (reboots (watch_life may_reboot es w).1)) ≤ max_reboots_per_window
watch_life_window may_reboot es w t u e d =
    (watch_life-IsKnown may_reboot es w [] t u d (rw e (refl, refl, refl, omega arith))).3
