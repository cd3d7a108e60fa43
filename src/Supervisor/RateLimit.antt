-- ===== src/Supervisor/RateLimit.antt =====
-- How often `runLoop` restarts a child (agent/supervisor.go).
use sideshow.Base.{
  ℕ, suc, ◌+◌, ◌-◌, ◌≤◌, ◌<◌, ◌≡◌, ◌⊎◌, refl, sym, subst, ap, ◌∙◌, Bool, true, false, ◌&&◌, List,
  [], ◌∷◌, ◌++◌, keep_if, length, length-keep_if-le, All, Bool-cases, inl, inr, arith, leb,
  if◌then◌else◌,
}
use sideshow.Mode.{Mode}
use sideshow.Supervisor.RunLoop.{
  healthy_run, fail_burst, fail_window, Loop, Exit, Next, again, over, is_recent, retires, counted,
  respawn, after_exit, loop_step, run_loop,
}

-- The exits from `t` on.
abbrev count_from : ℕ → List ℕ → ℕ
count_from t ts = length (keep_if (leb t) ts)

count_from-recent :
    (t now : ℕ) (ts : List ℕ)
    → now < t + fail_window
    → count_from t (keep_if (is_recent now) ts) ≡ count_from t ts
count_from-recent t now [] h = refl
count_from-recent t now (b ∷ ts) h = elim (Bool-cases (is_recent now b)) [
  | inl r ↦ rw r (elim (Bool-cases (leb t b)) [
    | inl c ↦ rw c (ap suc (count_from-recent t now ts h))
    | inr c ↦ rw c (count_from-recent t now ts h)
  ])
  | inr r ↦ rw (r, old b r) (count_from-recent t now ts h)
]
  where
    old : (b : ℕ) → is_recent now b ≡ false → leb t b ≡ false
    old b r = ground arith

count_from-snoc :
    (t now : ℕ) (ts : List ℕ) → t ≤ now → count_from t (ts ++ now ∷ []) ≡ suc (count_from t ts)
count_from-snoc t now [] h = ground arith
count_from-snoc t now (b ∷ ts) h = elim (Bool-cases (leb t b)) [
  | inl c ↦ rw c (ap suc (count_from-snoc t now ts h))
  | inr c ↦ rw c (count_from-snoc t now ts h)
]

-- An exit within the window from `t` on, with a clock that does not run back.
pub record IsWithin (t : ℕ) (e : Exit) : Type 0 where
  pub after : t ≤ e.now
  pub before : e.now < t + fail_window
  pub ordered : e.since ≤ e.now
  pub restarted : e.now ≤ e.restarted_at

-- A child that was started in the window had no healthy run.
not_healthy :
    (t : ℕ) (e : Exit) (l : Loop)
    → IsWithin t e
    → t ≤ l.started_at
    → leb healthy_run (e.since - l.started_at) ≡ false
not_healthy t e l w h = ground (arith, w.before, w.ordered)

count_from-counted :
    (t : ℕ) (e : Exit) (l : Loop)
    → IsWithin t e
    → t ≤ l.started_at
    → count_from t (counted e l).burst ≡ suc (count_from t l.burst)
unfolding counted
count_from-counted t e l w h = rw (not_healthy t e l w h) (
    count_from-snoc t e.now (keep_if (is_recent e.now) l.burst) w.after
    ∙ ap suc (count_from-recent t e.now l.burst w.before))

goes_on :
    (a s b : Bool) (l₁ l₂ l₃ x l' : Loop)
    → (if a then over l₁ else if s then over l₂ else if b then again x else over l₃) ≡ again l'
    → (a ≡ false) × (x ≡ l')
goes_on true s b l₁ l₂ l₃ x l' h = ground arith
goes_on false true b l₁ l₂ l₃ x l' h = ground arith
goes_on false false true l₁ l₂ l₃ x l' h = (refl, cc)
goes_on false false false l₁ l₂ l₃ x l' h = ground arith

after_exit-again :
    (e : Exit) (l l' : Loop)
    → after_exit e l ≡ again l'
    → (leb fail_burst (length l.burst) ≡ false)
      × ((l'.burst ≡ l.burst) × (l'.started_at ≡ e.restarted_at))
unfolding after_exit respawn
after_exit-again e l l' h =
    let r =
      goes_on (leb fail_burst (length l.burst)) e.stopped_later (e.built && e.spawned) _ _ _ _ l'
        h in
    (r.0, (ap (λ x. x.burst) (sym r.1), ap (λ x. x.started_at) (sym r.1)))

passes_exit :
    (a b : Bool) (l₁ l₂ : Loop) (n : Next) (l' : Loop)
    → (if a then over l₁ else if b then over l₂ else n) ≡ again l'
    → n ≡ again l'
passes_exit true b l₁ l₂ n l' h = ground arith
passes_exit false true l₁ l₂ n l' h = ground arith
passes_exit false false l₁ l₂ n l' h = h

loop_step-again :
    (m : Mode) (e : Exit) (l l' : Loop)
    → loop_step m e l ≡ again l'
    → after_exit e (counted e l) ≡ again l'
unfolding loop_step
loop_step-again m e l l' h = passes_exit e.stopped (retires m e.clean) _ _ _ l' h

-- The invariant of the loop within the window.
record HasCounted (t n : ℕ) (l : Loop) : Type 0 where
  enough : n ≤ count_from t l.burst
  started : t ≤ l.started_at

step-HasCounted :
    (m : Mode) (t n : ℕ) (e : Exit) (l l' : Loop)
    → IsWithin t e
    → HasCounted t n l
    → loop_step m e l ≡ again l'
    → HasCounted t (suc n) l' × (suc n < fail_burst)
step-HasCounted m t n e l l' w i h =
    let r = after_exit-again e (counted e l) l' (loop_step-again m e l l' h) in
    let c = count_from-counted t e l w i.started in
    let few = length-keep_if-le (leb t) (counted e l).burst in
    (
      record {
        enough = subst (λ b. suc n ≤ count_from t b) (sym r.1.0) (omega (arith, c, i.enough));
        started = omega (arith, r.1.1, w.after, w.restarted);
      },
      ground (arith, r.0, c, few, i.enough),
    )

over_stays : (m : Mode) (es : List Exit) (l : Loop) → run_loop m es (over l) ≡ over l
unfolding run_loop
over_stays m [] l = refl
over_stays m (e ∷ es) l = refl

Next-cases : (n : Next) → ((l : Loop) × (n ≡ again l)) ⊎ ((l : Loop) × (n ≡ over l))
Next-cases (again l) = inl (l, refl)
Next-cases (over l) = inr (l, refl)

at_most_few :
    (m : Mode) (t n : ℕ) (es : List Exit) (l l' : Loop)
    → n < fail_burst
    → HasCounted t n l
    → All (IsWithin t) es
    → run_loop m es (again l) ≡ again l'
    → n + length es < fail_burst
unfolding run_loop
at_most_few m t n [] l l' b i ws h = omega arith
at_most_few m t n (e ∷ es) l l' b i ws h = elim (Next-cases (loop_step m e l)) [
  | inl (x, k) ↦
      let s = step-HasCounted m t n e l x ws.0 i k in
      let r =
        at_most_few m t (suc n) es x l' s.1 s.0 ws.1
          (subst (λ y. run_loop m es y ≡ again l') k h) in
      omega (arith, r)
  | inr (x, k) ↦
      ground (arith, sym (over_stays m es x) ∙ subst (λ y. run_loop m es y ≡ again l') k h)
]

-- The crash loop is cut off: from the start of a child on, within the failure window of 30 seconds,
-- the loop goes on after at most four exits, so at most four children are started again.
pub run_loop_limit :
    (m : Mode) (t : ℕ) (es : List Exit) (l l' : Loop)
    → t ≤ l.started_at
    → All (IsWithin t) es
    → run_loop m es (again l) ≡ again l'
    → length es < fail_burst
run_loop_limit m t es l l' h ws r =
    let few =
      at_most_few m t 0 es l l' (omega arith) (record { enough = omega arith; started = h }) ws r in
    omega (arith, few)
