-- ===== src/Content/Manage.antt =====
-- The operations of the content manager (agent/content.go).
use sideshow.Base.{
  ℕ, zero, suc, ◌+◌, ◌*◌, Bool, true, false, ◌&&◌, ◌||◌, not, leb, Option, none, some, List, [],
  ◌∷◌, length, ◌==◌, if◌then◌else◌, ◌⊎◌, inl, inr, Text, text, text_eq, is_empty, trim_space,
  to_lower, ℤ, pos, negsuc, at_least_zero,
}
use sideshow.Mode.{Mode, str, web, is_kind, kind_of}
use sideshow.Supervisor.World.{RunState, running, Runner, World, Failure}
use sideshow.Supervisor.Kiosk.{navigate_if_web, advance_document, reload_web, on_screen}
use sideshow.Supervisor.Switch.{switch}
use sideshow.Files.Docs.{filter_http, local_agent_base, abs_doc_url, with_pdf_viewer_params}
use sideshow.Files.Library.{Tree}
use sideshow.Files.Source.{SourceError, validate_doc_src}
use sideshow.Content.{OutputContent, Kept, Disk, Content}

-- `save`
unfoldable pub save : Content → Content
save c =
    if c.disk.has_path && c.disk.writable
    then record c { disk = record c.disk { file = some c.kept } }
    else c

abbrev pub nothing_kept : Kept
nothing_kept = record {
  reload_min = pos 0;
  src = [];
  auto_advance_s = pos 0;
  enabled = false;
  outputs = [];
}

-- `load`: a negative interval, and one of the document that is not positive, leave the default.
unfoldable pub loaded : Option Kept → Kept
loaded none = nothing_kept
loaded (some k) = record {
  reload_min = at_least_zero k.reload_min;
  src = k.src;
  auto_advance_s = at_least_zero k.auto_advance_s;
  enabled = k.enabled && not (is_empty k.src);
  outputs = k.outputs;
}

-- `NewContent`
unfoldable pub new_content : Text → Text → Disk → Content
new_content addr docs_dir d = record {
  kept = loaded (if d.has_path then d.file else none);
  last_reload = none;
  last_advance = none;
  docs_dir = docs_dir;
  local_base = local_agent_base addr;
  disk = d;
}

-- `now.Sub(last) >= span`, for a positive number of units
abbrev pub is_due : ℕ → ℕ → ℤ → Option ℕ → Bool
is_due now unit (pos zero) last = false
is_due now unit (pos (suc n)) none = true
is_due now unit (pos (suc n)) (some t) = leb (t + suc n * unit) now
is_due now unit (negsuc n) last = false

abbrev pub is_running : RunState → Bool
is_running running = true
is_running _ = false

-- Whether the status shows a web kiosk that runs.
abbrev pub web_runs : Option Runner → Bool
web_runs none = false
web_runs (some r) = is_kind (kind_of r.mode) web && is_running r.state

abbrev pub doc_on : Content → Bool
doc_on c = c.kept.enabled && not (is_empty c.kept.src)

-- A document owns the page: nothing is done but to advance it.
unfoldable pub tick_document : ℕ → Content → World → Content × World
tick_document now c w =
    let a = advance_document w in
    if is_due now 1000 c.kept.auto_advance_s c.last_advance
    then (if a.0 then record c { last_advance = some now } else c, a.1)
    else (c, w)

unfoldable pub tick_reload : ℕ → Content → World → Content × World
tick_reload now c w =
    if is_due now 60000 c.kept.reload_min c.last_reload
    then (record c { last_reload = some now }, (reload_web w).1)
    else (c, w)

-- `tick`
unfoldable pub tick : ℕ → Content → World → Content × World
tick now c w =
    if not (web_runs (on_screen w))
    then (c, w)
    else if doc_on c
    then tick_document now c w
    else tick_reload now c w

-- `SetReload`
unfoldable pub set_reload : ℤ → ℕ → Content → Content
set_reload minutes now c = save (record c {
  kept = record c.kept { reload_min = at_least_zero minutes };
  last_reload = some now;
})

-- What `SetDocument` stores of a source that is accepted.
unfoldable pub with_document : Text → ℤ → Bool → ℕ → Content → Content
with_document served auto_advance_s enabled now c = save (record c {
  kept = record c.kept {
    src = served;
    auto_advance_s = at_least_zero auto_advance_s;
    enabled = enabled && not (is_empty served);
  };
  last_advance = some now;
})

abbrev pub set_served :
    SourceError ⊎ Text → ℤ → Bool → ℕ → Content → World → (SourceError ⊎ Kept) × (Content × World)
set_served (inl e) auto_advance_s enabled now c w = (inl e, (c, w))
set_served (inr served) auto_advance_s enabled now c w =
    let d = with_document served auto_advance_s enabled now c in
    let shown = navigate_if_web (with_pdf_viewer_params (abs_doc_url c.local_base served)) w in
    (inr d.kept, (d, if d.kept.enabled then shown.1 else w))

-- `SetDocument`, where `t` answers for the files under the directory of the documents
unfoldable pub set_document :
    Tree → Text → ℤ → Bool → ℕ → Content → World → (SourceError ⊎ Kept) × (Content × World)
set_document t src auto_advance_s enabled now c w =
    set_served (validate_doc_src t c.docs_dir src) auto_advance_s enabled now c w

-- `DisableOwners`
unfoldable pub disable_owners : Content → Content
disable_owners c =
    if c.kept.enabled then save (record c { kept = record c.kept { enabled = false } }) else c

-- The `switch oc.Type`
pub data OutputKind : Type 0 where
  show_off show_mirror show_web show_media show_unknown : OutputKind

unfoldable pub output_kind : Text → OutputKind
output_kind t =
    if text_eq t (text "off")
    then show_off
    else if text_eq t (text "mirror")
    then show_mirror
    else if text_eq t (text "web")
    then show_web
    else if text_eq t (text "media")
    then show_media
    else show_unknown

pub data OutputError : Type 0 where
  no_http_url no_url_or_path unknown_type : OutputError
  not_switched : Failure → OutputError

abbrev pub trimmed_output : OutputContent → OutputContent
trimmed_output oc = record {
  type = to_lower (trim_space oc.type);
  url = trim_space oc.url;
  path = trim_space oc.path;
}

abbrev pub without_fields : OutputContent → OutputContent
without_fields oc = record oc { url = []; path = [] }

-- The checks, with what is stored.
abbrev pub check_output : OutputKind → OutputContent → OutputError ⊎ OutputContent
check_output show_off oc = inr (without_fields oc)
check_output show_mirror oc = inr (without_fields oc)
check_output show_web oc =
    if length (filter_http (oc.url ∷ [])) == 0 then inl no_http_url else inr oc
check_output show_media oc =
    if is_empty oc.url && is_empty oc.path then inl no_url_or_path else inr oc
check_output show_unknown oc = inl unknown_type

-- `c.outputContent[name] = oc`
unfoldable pub put_output :
    Text → OutputContent → List (Text × OutputContent) → List (Text × OutputContent)
put_output name oc [] = (name, oc) ∷ []
put_output name oc ((n, o) ∷ outputs) =
    let rest = put_output name oc outputs in
    if text_eq n name then (name, oc) ∷ outputs else (n, o) ∷ rest

abbrev pub with_output : Text → OutputContent → Content → Content
with_output name oc c =
    save (record c { kept = record c.kept { outputs = put_output name oc c.kept.outputs } })

-- The display of a web mode that is on screen is kept.
abbrev pub display_of : Option Runner → Text
display_of none = []
display_of (some r) = if is_kind (kind_of r.mode) web then r.mode.display else []

-- The mode that shows content on the primary output, if any does.
unfoldable pub mode_for : OutputKind → OutputContent → World → Option Mode
mode_for show_web oc w = some (record {
  type = text "web";
  params = (text "url", str oc.url) ∷ [];
  display = display_of (on_screen w);
})
mode_for show_media oc w = some (record {
  type = text "media";
  params = (if is_empty oc.url then (text "path", str oc.path) else (text "url", str oc.url)) ∷ [];
  display = text "compositor";
})
mode_for show_off oc w = some (record { type = text "off"; params = []; display = [] })
mode_for show_mirror oc w = none
mode_for show_unknown oc w = none

abbrev pub or_not_switched : Option Failure → Option OutputError
or_not_switched none = none
or_not_switched (some e) = some (not_switched e)

-- The primary output is shown by the supervisor, and no document owns its page then.
abbrev pub route : Option Mode → Content → World → Option OutputError × (Content × World)
route none c w = (none, (c, w))
route (some m) c w = let s = switch m w in (or_not_switched s.0, (disable_owners c, s.1))

abbrev pub or_name : Text → Text → Text
or_name name primary = if is_empty name then primary else name

abbrev pub assign :
    Text
    → Text
    → OutputKind
    → OutputError ⊎ OutputContent
    → Content
    → World
    → Option OutputError × (Content × World)
assign name primary k (inl e) c w = (some e, (c, w))
assign name primary k (inr oc) c w =
    let c' = with_output (or_name name primary) oc c in
    if not (text_eq (or_name name primary) primary) || is_empty primary
    then (none, (c', w))
    else route (mode_for k oc w) c' w

-- `SetOutputContent`, where `primary` is the name of the primary output
unfoldable pub set_output_content :
    Text → Text → OutputContent → Content → World → Option OutputError × (Content × World)
set_output_content primary name oc c w =
    let o = trimmed_output oc in
    let k = output_kind o.type in assign name primary k (check_output k o) c w

-- `For`
unfoldable pub output_for : Text → List (Text × OutputContent) → OutputContent
output_for name [] = record { type = text "off"; url = []; path = [] }
output_for name ((n, oc) ∷ outputs) = if text_eq n name then oc else output_for name outputs
