-- ===== src/Tests/Files.antt =====
-- Documents and the media library (agent/content.go and agent/library.go).
use sideshow.Base.{
  ◌≡◌, refl, true, false, ◌||◌, none, some, [], inl, inr, ◌⊎◌, if◌then◌else◌, Text, text, text_eq,
  clean,
}
use sideshow.Files.Docs.{escapes, safe_doc_rel, is_http}
use sideshow.Files.Library.{Tree, remove_all, delete, safe_name, resolve, bare, outside}
use sideshow.Files.Confined.{IsRoot}
use sideshow.Files.Safe.{delete_dot}
use sideshow.Files.Source.{IsServed, validate_doc_src, validate_doc_src-IsServed}
use sideshow.Files.Upload.{image, other, lib_kind}
use sideshow.Tests.Open.{files_open}

abbrev root : Text
root = text "/srv/media"

-- A library with a folder, a file in it, and a link that leads outside.
abbrev tree : Tree
tree = record {
  links = λ p. if text_eq p (text "/srv/media/out") then some (text "/etc") else some p;
  stat = λ p.
      if text_eq p root || text_eq p (text "/srv/media/lobby")
      then some true
      else if text_eq p (text "/srv/media/lobby/a.pdf")
      then some false
      else none;
}

cleaned : clean (text "a//b/./../c/") ≡ text "a/c"
unfolding files_open
cleaned = refl

upward : safe_doc_rel (text "a/../../c") ≡ inl escapes
unfolding files_open
upward = refl

link_refused : resolve tree root (text "out") ≡ inl outside
unfolding files_open
link_refused = refl

hidden_name : safe_name (text " a/.b ") ≡ []
unfolding files_open
hidden_name = refl

kinds : (lib_kind (text "A.JPG") ≡ image) × (lib_kind (text "a.tar/b") ≡ other)
unfolding files_open
kinds = (refl, refl)

rooted : IsRoot tree root root
unfolding files_open
rooted = (refl, refl)

dot_read : (bare (text " ./ ") ≡ text ".") × (tree.stat root ≡ some true)
unfolding files_open
dot_read = (refl, refl)

delete_dot_example : delete tree root (text " ./ ") true ≡ inr (remove_all root)
delete_dot_example = delete_dot tree root root (text " ./ ") true rooted refl dot_read.0 dot_read.1

served : validate_doc_src tree root (text " lobby/a.pdf ") ≡ inr (text "/docfs/lobby/a.pdf")
unfolding files_open
served = refl

validate_doc_src-IsServed_example :
    (text "/docfs/lobby/a.pdf" ≡ [])
    ⊎ (is_http (text "/docfs/lobby/a.pdf") ≡ true)
    ⊎ IsServed tree root (text "/docfs/lobby/a.pdf")
validate_doc_src-IsServed_example =
    validate_doc_src-IsServed tree root (text " lobby/a.pdf ") (text "/docfs/lobby/a.pdf") served
