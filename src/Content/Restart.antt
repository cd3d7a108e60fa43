-- ===== src/Content/Restart.antt =====
-- The content manager through its operations and restarts (agent/content.go).
use sideshow.Base.{
  ℕ, ◌≡◌, refl, arith, Bool, true, false, ◌&&◌, ◌||◌, not, Option, none, some, if◌then◌else◌, ◌⊎◌,
  inl, inr, Bool-cases, Text, text_eq, is_empty, ℤ, pos, negsuc, at_least_zero,
}
use sideshow.Mode.{Mode}
use sideshow.Supervisor.World.{World}
use sideshow.Supervisor.Kiosk.{advance_document, reload_web, on_screen}
use sideshow.Files.Library.{Tree}
use sideshow.Files.Source.{SourceError, validate_doc_src}
use sideshow.Content.{OutputContent, Kept, Disk, Content}
use sideshow.Content.Manage.{
  save, loaded, new_content, is_due, web_runs, doc_on, tick_document, tick_reload, tick, set_reload,
  with_document, set_served, set_document, disable_owners, OutputKind, OutputError, output_kind,
  check_output, with_output, mode_for, route, or_name, assign, set_output_content, trimmed_output,
}

-- What is kept has no negative time, and a document that is enabled has a source.
pub record IsSound (k : Kept) : Type 0 where
  pub reload : at_least_zero k.reload_min ≡ k.reload_min
  pub advance : at_least_zero k.auto_advance_s ≡ k.auto_advance_s
  pub owner : k.enabled && not (is_empty k.src) ≡ k.enabled

at_least_zero_again : (n : ℤ) → at_least_zero (at_least_zero n) ≡ at_least_zero n
at_least_zero_again (pos n) = refl
at_least_zero_again (negsuc n) = refl

loaded-IsSound : (f : Option Kept) → IsSound (loaded f)
unfolding loaded
loaded-IsSound none = record { reload = refl; advance = refl; owner = refl }
loaded-IsSound (some k) = record {
  reload = at_least_zero_again k.reload_min;
  advance = at_least_zero_again k.auto_advance_s;
  owner = ground arith;
}

-- What is sound is read back as it was written.
loaded_sound : (k : Kept) → IsSound k → loaded (some k) ≡ k
unfolding loaded
loaded_sound k h = λ i. record {
  reload_min = h.reload i;
  src = k.src;
  auto_advance_s = h.advance i;
  enabled = h.owner i;
  outputs = k.outputs;
}

-- The file, where it is read and written, says what is kept.
pub record IsCurrent (c : Content) : Type 0 where
  pub sound : IsSound c.kept
  pub written : c.disk.has_path ≡ true → c.disk.writable ≡ true → loaded c.disk.file ≡ c.kept

save-IsCurrent : (c : Content) → IsSound c.kept → IsCurrent (save c)
unfolding save
save-IsCurrent c h = elim (Bool-cases (c.disk.has_path && c.disk.writable)) [
  | inl b ↦ rw b (record { sound = h; written = λ p w. loaded_sound c.kept h })
  | inr b ↦ rw b (record { sound = h; written = λ p w. absurd (ground (arith, p, w, b)) })
]

new_content-IsCurrent : (addr docs_dir : Text) (d : Disk) → IsCurrent (new_content addr docs_dir d)
unfolding new_content
new_content-IsCurrent addr docs_dir d = record {
  sound = loaded-IsSound (if d.has_path then d.file else none);
  written = λ p w. rw p refl;
}

either-IsCurrent :
    (b : Bool) (x y : Content × World)
    → IsCurrent x.0
    → IsCurrent y.0
    → IsCurrent (if b then x else y).0
either-IsCurrent true x y hx hy = hx
either-IsCurrent false x y hx hy = hy

advanced-IsCurrent :
    (b : Bool) (now : ℕ) (c : Content)
    → IsCurrent c
    → IsCurrent (if b then record c { last_advance = some now } else c)
advanced-IsCurrent true now c h = record { sound = h.sound; written = h.written }
advanced-IsCurrent false now c h = h

tick_document-IsCurrent :
    (now : ℕ) (c : Content) (w : World) → IsCurrent c → IsCurrent (tick_document now c w).0
unfolding tick_document
tick_document-IsCurrent now c w h =
    let a = advance_document w in
    either-IsCurrent (is_due now 1000 c.kept.auto_advance_s c.last_advance)
      (if a.0 then record c { last_advance = some now } else c, a.1) (c, w)
      (advanced-IsCurrent a.0 now c h) h

tick_reload-IsCurrent :
    (now : ℕ) (c : Content) (w : World) → IsCurrent c → IsCurrent (tick_reload now c w).0
unfolding tick_reload
tick_reload-IsCurrent now c w h =
    either-IsCurrent (is_due now 60000 c.kept.reload_min c.last_reload)
      (record c { last_reload = some now }, (reload_web w).1) (c, w)
      (record { sound = h.sound; written = h.written }) h

tick-IsCurrent : (now : ℕ) (c : Content) (w : World) → IsCurrent c → IsCurrent (tick now c w).0
unfolding tick
tick-IsCurrent now c w h =
    either-IsCurrent (not (web_runs (on_screen w))) (c, w)
      (if doc_on c then tick_document now c w else tick_reload now c w) h
      (either-IsCurrent (doc_on c) (tick_document now c w) (tick_reload now c w)
        (tick_document-IsCurrent now c w h) (tick_reload-IsCurrent now c w h))

set_reload-IsCurrent :
    (n : ℤ) (now : ℕ) (c : Content) → IsCurrent c → IsCurrent (set_reload n now c)
unfolding set_reload
set_reload-IsCurrent n now c h =
    save-IsCurrent _
      (record { reload = at_least_zero_again n; advance = h.sound.advance; owner = h.sound.owner })

set_served-IsCurrent :
    (r : SourceError ⊎ Text) (n : ℤ) (b : Bool) (now : ℕ) (c : Content) (w : World)
    → IsCurrent c
    → IsCurrent (set_served r n b now c w).1.0
unfolding with_document
set_served-IsCurrent (inl e) n b now c w h = h
set_served-IsCurrent (inr served) n b now c w h =
    save-IsCurrent _
      (record { reload = h.sound.reload; advance = at_least_zero_again n; owner = ground arith })

abbrev disabled : Content → Content
disabled c = record c { kept = record c.kept { enabled = false } }

disabled-IsCurrent :
    (b : Bool) (c : Content) → IsCurrent c → IsCurrent (if b then save (disabled c) else c)
disabled-IsCurrent true c h =
    save-IsCurrent (disabled c)
      (record { reload = h.sound.reload; advance = h.sound.advance; owner = refl })
disabled-IsCurrent false c h = h

disable_owners-IsCurrent : (c : Content) → IsCurrent c → IsCurrent (disable_owners c)
unfolding disable_owners
disable_owners-IsCurrent c h = disabled-IsCurrent c.kept.enabled c h

with_output-IsCurrent :
    (name : Text) (oc : OutputContent) (c : Content)
    → IsCurrent c
    → IsCurrent (with_output name oc c)
with_output-IsCurrent name oc c h =
    save-IsCurrent _
      (record { reload = h.sound.reload; advance = h.sound.advance; owner = h.sound.owner })

route-IsCurrent :
    (o : Option Mode) (c : Content) (w : World) → IsCurrent c → IsCurrent (route o c w).1.0
route-IsCurrent none c w h = h
route-IsCurrent (some m) c w h = disable_owners-IsCurrent c h

assign-IsCurrent :
    (name primary : Text) (k : OutputKind) (r : OutputError ⊎ OutputContent) (c : Content)
    (w : World)
    → IsCurrent c
    → IsCurrent (assign name primary k r c w).1.0
assign-IsCurrent name primary k (inl e) c w h = h
assign-IsCurrent name primary k (inr oc) c w h =
    let output = or_name name primary in
    let stored = with_output-IsCurrent output oc c h in
    elim (Bool-cases (not (text_eq output primary) || is_empty primary)) [
      | inl b ↦ rw b stored
      | inr b ↦ rw b (route-IsCurrent (mode_for k oc w) (with_output output oc c) w stored)
    ]

-- One operation, with the supervisor in any state, or a restart.
pub data Step : Content → Content → Type 0 where
  ticked : {c : Content} (now : ℕ) (w : World) → Step c (tick now c w).0
  reload_set : {c : Content} (n : ℤ) (now : ℕ) → Step c (set_reload n now c)
  document_set :
      {c : Content} (t : Tree) (src : Text) (n : ℤ) (b : Bool) (now : ℕ) (w : World)
      → Step c (set_document t src n b now c w).1.0
  disowned : {c : Content} → Step c (disable_owners c)
  output_set :
      {c : Content} (primary name : Text) (oc : OutputContent) (w : World)
      → Step c (set_output_content primary name oc c w).1.0
  restarted : {c : Content} (addr docs_dir : Text) → Step c (new_content addr docs_dir c.disk)

pub data Reach : Content → Type 0 where
  started : (addr docs_dir : Text) (d : Disk) → Reach (new_content addr docs_dir d)
  then_step : {c c' : Content} → Reach c → Step c c' → Reach c'

step-IsCurrent : (c c' : Content) → Step c c' → IsCurrent c → IsCurrent c'
unfolding set_document set_output_content
step-IsCurrent c _ (ticked now w) h = tick-IsCurrent now c w h
step-IsCurrent c _ (reload_set n now) h = set_reload-IsCurrent n now c h
step-IsCurrent c _ (document_set t src n b now w) h =
    set_served-IsCurrent (validate_doc_src t c.docs_dir src) n b now c w h
step-IsCurrent c _ disowned h = disable_owners-IsCurrent c h
step-IsCurrent c _ (output_set primary name oc w) h =
    let o = trimmed_output oc in
    assign-IsCurrent name primary (output_kind o.type) (check_output (output_kind o.type) o) c w h
step-IsCurrent c _ (restarted addr docs_dir) h = new_content-IsCurrent addr docs_dir c.disk

Reach-IsCurrent : (c : Content) → Reach c → IsCurrent c
Reach-IsCurrent _ (started addr docs_dir d) = new_content-IsCurrent addr docs_dir d
Reach-IsCurrent _ (then_step {c} {c'} r e) = step-IsCurrent c c' e (Reach-IsCurrent c r)

-- Whatever operations and restarts were before, a restart keeps the reload interval, the document
-- and the content of the outputs, when the file can be read and written.
pub Reach-new_content :
    (addr docs_dir : Text) (c : Content)
    → Reach c
    → c.disk.has_path ≡ true
    → c.disk.writable ≡ true
    → (new_content addr docs_dir c.disk).kept ≡ c.kept
unfolding new_content
Reach-new_content addr docs_dir c r p w = rw p ((Reach-IsCurrent c r).written p w)
