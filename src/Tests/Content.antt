-- ===== src/Tests/Content.antt =====
-- The content manager (agent/content.go).
use sideshow.Base.{◌≡◌, refl, true, some, [], ◌∷◌, Text, text, pos, negsuc}
use sideshow.Mode.{Mode, str}
use sideshow.Content.{OutputContent, Disk, Content}
use sideshow.Content.Manage.{
  new_content, tick, set_reload, no_url_or_path, unknown_type, set_output_content,
}
use sideshow.Content.Restart.{reload_set, started, then_step, Reach, Reach-new_content}
use sideshow.Tests.Open.{content_open}
use sideshow.Tests.Screen.{node}

abbrev disk : Disk
disk = record {
  has_path = true;
  writable = true;
  file = some (record {
    reload_min = negsuc 0;
    src = text "/docfs/a.pdf";
    auto_advance_s = pos 10;
    enabled = true;
    outputs = [];
  });
}

abbrev pub content : Content
content = new_content (text ":8080") (text "/srv/docs") disk

-- A negative interval is not read.
content-kept : content.kept ≡ record {
  reload_min = pos 0;
  src = text "/docfs/a.pdf";
  auto_advance_s = pos 10;
  enabled = true;
  outputs = [];
}
unfolding content_open
content-kept = refl

abbrev hdmi : Text
hdmi = text "HDMI-1"

abbrev clip : OutputContent
clip = record { type = text " Media"; url = []; path = text " /srv/clip.mp4 " }

abbrev stored_clip : OutputContent
stored_clip = record { type = text "media"; url = []; path = text "/srv/clip.mp4" }

abbrev clip_mode : Mode
clip_mode = record {
  type = text "media";
  params = (text "path", str (text "/srv/clip.mp4")) ∷ [];
  display = text "compositor";
}

-- An unknown type, and media with nothing to play, are refused.
refused :
    ((set_output_content hdmi [] (record clip { type = text "tv" }) content node).0
      ≡ some unknown_type)
    × ((set_output_content hdmi [] (record clip { path = [] }) content node).0
        ≡ some no_url_or_path)
unfolding content_open
refused = (refl, refl)

abbrev later : Content
later = set_reload (pos 5) 1000 content

later-Reach : Reach later
later-Reach =
    then_step (started (text ":8080") (text "/srv/docs") disk)
      (reload_set {c = content} (pos 5) 1000)

Reach-new_content_example :
    (new_content (text ":9090") (text "/srv/docs") later.disk).kept ≡ later.kept
unfolding content_open
Reach-new_content_example =
    Reach-new_content (text ":9090") (text "/srv/docs") later later-Reach refl refl

-- A document that owns the page is advanced once its time has come.
advanced :
    ((tick 9000 content node).0.last_advance ≡ some 9000)
    × ((tick 9000 (record content { last_advance = some 5000 }) node).0.last_advance ≡ some 5000)
unfolding content_open
advanced = (refl, refl)
