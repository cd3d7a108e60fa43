-- ===== src/Tests/Node.antt =====
-- The state of a node (agent/state.go).
use sideshow.Base.{◌≡◌, refl, true, none, some, inl, [], ◌∷◌, map, Text, text}
use sideshow.Mode.{Mode, str, strings}
use sideshow.Mode.Equivalent.{equivalent}
use sideshow.Node.{CustomMode, State}
use sideshow.Node.Ident.{hist_id}
use sideshow.Node.Reread.{reread}
use sideshow.Node.Ops.{new_state, record_mode, restore}
use sideshow.Node.Launchers.{env_unused, upsert_custom}
use sideshow.Node.Reboot.{reboot_shows}
use sideshow.Tests.Open.{node_open}

abbrev web_page : Text → Mode
web_page url = record {
  type = text "web";
  params = (text "url", str url) ∷ [];
  display = text "compositor";
}

abbrev shell_mode : Mode
shell_mode = record {
  type = text "app";
  params = (text "argv", strings (text "htop" ∷ [])) ∷ [];
  display = text "console";
}

abbrev pub blank : State
blank = new_state (record { has_path = true; writable = true; file = none })

abbrev viewer : CustomMode
viewer = record {
  id = [];
  name = text " Viewer";
  command = text "/bin/v";
  args = [];
  display = [];
  env = [];
}

abbrev saved : State
saved = (upsert_custom 7 (record viewer { id = text "x" }) blank).1

abbrev shown_two : State
shown_two =
    record_mode (text "t2") (web_page (text "https://b.example"))
      (record_mode (text "t1") (web_page (text "https://a.example")) blank)

-- The test vector of FNV-1a for one letter.
fnv_vector : hist_id (text "a") ≡ text "af63dc4c8601ec8c"
unfolding node_open
fnv_vector = refl

newest_first :
    map (λ h. h.label) shown_two.kept.history
    ≡ text "web:https://b.example" ∷ text "web:https://a.example" ∷ []
unfolding node_open
newest_first = refl

env_refused :
    (upsert_custom 7
      (record viewer { display = text "kms"; env = (text "K", text "V") ∷ [] })
      blank).0
    ≡ inl env_unused
unfolding node_open
env_refused = refl

reboot_shows_example :
    (restore (new_state (record_mode (text "t1") shell_mode blank).disk) ≡ some (reread shell_mode))
    × (equivalent (reread shell_mode) shell_mode ≡ true)
unfolding node_open
reboot_shows_example = reboot_shows (text "t1") shell_mode blank refl refl refl
