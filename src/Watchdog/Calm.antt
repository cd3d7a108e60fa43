-- ===== src/Watchdog/Calm.antt =====
-- What the watchdog (agent/watchdog.go) leaves alone, and how long it waits before a reboot.
use sideshow.Base.{
  ℕ, suc, ◌+◌, ◌*◌, ◌≤◌, ◌≡◌, refl, arith, Bool, true, false, ◌&&◌, not, List, [], ◌∷◌, ◌++◌,
  length, if◌then◌else◌, leb,
}
use sideshow.Watchdog.{
  Watch, Round, Call, reload, reattach, restart, reboot, health, is_down, is_wedged, note_network,
  relaunch, try_reattach, escalate, check_wedge, count_down, check_down, watch_step, watch_rounds,
  begin,
}
use sideshow.Watchdog.Reboots.{Ledger, clear_ledger}

-- The times of the reboots among calls.
unfoldable pub reboots : List Call → List ℕ
reboots [] = []
reboots (reboot t ∷ cs) = t ∷ reboots cs
reboots (_ ∷ cs) = reboots cs

pub reboots-append : (cs ds : List Call) → reboots (cs ++ ds) ≡ reboots cs ++ reboots ds
unfolding reboots
reboots-append [] ds = refl
reboots-append (reload ∷ cs) ds = reboots-append cs ds
reboots-append (reattach ∷ cs) ds = reboots-append cs ds
reboots-append (restart ∷ cs) ds = reboots-append cs ds
reboots-append (reboot t ∷ cs) ds = rw (reboots-append cs ds) refl

pub reboots-round :
    (cs ds es : List Call) → reboots (cs ++ ds ++ es) ≡ reboots cs ++ reboots ds ++ reboots es
reboots-round cs ds es = rw (reboots-append (cs ++ ds) es, reboots-append cs ds) refl

append-[] {ℓ} : {A : Type ℓ} (xs : List A) → xs ++ [] ++ [] ≡ xs
append-[] [] = refl
append-[] (x ∷ xs) = rw (append-[] xs) refl

pub check_wedge_off :
    (may_reboot : Bool) (r : Round) (w : Watch)
    → is_wedged r ≡ false
    → check_wedge may_reboot r w ≡ (record w { wedge = 0; wedge_restarts = 0 }, [])
unfolding check_wedge
check_wedge_off may_reboot r w h = rw h refl

pub count_down_off :
    (r : Round) (w : Watch)
    → is_down (health r.state) ≡ false
    → count_down r w ≡ record w { down_streak = 0; ledger = clear_ledger w.ledger }
unfolding count_down
count_down_off r w h = rw h refl

pub check_down_off :
    (may_reboot : Bool) (r : Round) (w : Watch)
    → leb 10 w.down_streak ≡ false
    → check_down may_reboot r w ≡ (w, [])
unfolding check_down
check_down_off true r w h = rw h refl
check_down_off false r w h = refl

-- A round in which the mode is not given up and no kiosk is wedged forgets every streak and the
-- reboots on record, and makes no call but the reload after the network came back.
pub watch_step_calm :
    (may_reboot : Bool) (r : Round) (w : Watch)
    → is_wedged r ≡ false
    → is_down (health r.state) ≡ false
    → watch_step may_reboot r w
      ≡ (begin r.up (clear_ledger w.ledger), if r.up && not w.online then reload ∷ [] else [])
unfolding watch_step note_network
watch_step_calm may_reboot r w calm up =
    rw
      (
        check_wedge_off may_reboot r (note_network r w).0 calm,
        count_down_off r (record w { online = r.up; wedge = 0; wedge_restarts = 0 }) up,
        check_down_off may_reboot r (begin r.up (clear_ledger w.ledger)) refl,
      )
      (rw (append-[] (if r.up && not w.online then reload ∷ [] else [])) refl)

-- How far the streaks can be after so many rounds.
abbrev IsPaced : ℕ → Watch → Type 0
IsPaced n w = (w.down_streak ≤ n) × (w.wedge + 4 * w.wedge_restarts ≤ n)

check_wedge-IsPaced :
    (n : ℕ) (may_reboot : Bool) (r : Round) (w : Watch)
    → n ≤ 8
    → IsPaced n w
    → let a = check_wedge may_reboot r w in
      (a.0.down_streak ≤ n) × (a.0.wedge + 4 * a.0.wedge_restarts ≤ suc n) × (reboots a.1 ≡ [])
unfolding check_wedge escalate relaunch try_reattach reboots
check_wedge-IsPaced n may_reboot r w l h = ground arith

count_down-IsPaced :
    (n : ℕ) (r : Round) (w : Watch)
    → w.down_streak ≤ n
    → w.wedge + 4 * w.wedge_restarts ≤ suc n
    → IsPaced (suc n) (count_down r w)
unfolding count_down
count_down-IsPaced n r w h g = ground arith

pub note_network-reboots : (r : Round) (w : Watch) → reboots (note_network r w).1 ≡ []
unfolding note_network reboots
note_network-reboots r w = ground arith

note_network-IsPaced :
    (n : ℕ) (r : Round) (w : Watch) → IsPaced n w → IsPaced n (note_network r w).0
unfolding note_network
note_network-IsPaced n r w h = h

check_down_early :
    (n : ℕ) (may_reboot : Bool) (r : Round) (w : Watch)
    → n ≤ 8
    → IsPaced (suc n) w
    → check_down may_reboot r w ≡ (w, [])
check_down_early n may_reboot r w l h = check_down_off may_reboot r w (ground (arith, h.0))

watch_step-IsPaced :
    (n : ℕ) (may_reboot : Bool) (r : Round) (w : Watch)
    → n ≤ 8
    → IsPaced n w
    → IsPaced (suc n) (watch_step may_reboot r w).0 × (reboots (watch_step may_reboot r w).1 ≡ [])
unfolding watch_step reboots
watch_step-IsPaced n may_reboot r w l h =
    let a : Watch × List Call = note_network r w in
    let b : Watch × List Call = check_wedge may_reboot r a.0 in
    let paced = check_wedge-IsPaced n may_reboot r a.0 l (note_network-IsPaced n r w h) in
    let counted = count_down-IsPaced n r b.0 paced.0 paced.1 in
    rw (check_down_early n may_reboot r (count_down r b.0) l counted)
      (counted, rw (reboots-round a.1 b.1 [], note_network-reboots r w, paced.2) refl)

watch_rounds-IsPaced :
    (n : ℕ) (may_reboot : Bool) (rs : List Round) (w : Watch)
    → n + length rs ≤ 9
    → IsPaced n w
    → reboots (watch_rounds may_reboot rs w).1 ≡ []
unfolding watch_rounds reboots
watch_rounds-IsPaced n may_reboot [] w l h = refl
watch_rounds-IsPaced n may_reboot (r ∷ rs) w l h =
    let a : Watch × List Call = watch_step may_reboot r w in
    let paced = watch_step-IsPaced n may_reboot r w (omega arith) h in
    let rest = watch_rounds-IsPaced (suc n) may_reboot rs a.0 (omega arith) paced.0 in
    rw (reboots-append a.1 (watch_rounds may_reboot rs a.0).1, paced.1, rest) refl

-- In the first nine rounds after the start of the agent the node is not rebooted.
pub watch_rounds_start :
    (may_reboot up : Bool) (l : Ledger) (rs : List Round)
    → length rs ≤ 9
    → reboots (watch_rounds may_reboot rs (begin up l)).1 ≡ []
watch_rounds_start may_reboot up l rs h =
    watch_rounds-IsPaced 0 may_reboot rs (begin up l) (omega arith) (ground arith)
