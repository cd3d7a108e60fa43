-- ===== src/Tests/Actions.antt =====
-- The saved actions (agent/actions.go).
use sideshow.Base.{◌≡◌, refl, true, false, none, [], ◌∷◌, inl, Text, text}
use sideshow.Mode.{str}
use sideshow.Actions.{Action, Actions, absent}
use sideshow.Actions.Slugs.{slugify, is_taken, unique_slug}
use sideshow.Actions.Unique.{unique_slug-is_taken}
use sideshow.Actions.Store.{slugs, slug_used, new_actions, upsert}
use sideshow.Actions.Ops.{reorder}
use sideshow.Actions.Tidy.{IsTidy}
use sideshow.Actions.Reach.{started, then_step, upserted, reordered, Reach-IsTidy}
use sideshow.Actions.Found.{Answers, upsert-get}
use sideshow.Tests.Open.{actions_open}

abbrev news : Text → Text → Action
news name slug = record {
  id = [];
  slug = slug;
  index = 7;
  name = name;
  mode = record {
    type = text "web";
    params = (text "url", str (text "https://example.org/")) ∷ [];
    display = [];
  };
  playlist = none;
}

slugged : slugify (text " Morning  News! ") ≡ text "morning-news"
unfolding actions_open
slugged = refl

third : unique_slug (text "news") (text "news" ∷ text "news-2" ∷ []) ≡ text "news-3"
unfolding actions_open
third = refl

unique_slug-is_taken_example :
    is_taken
      (unique_slug (text "news") (text "news" ∷ text "news-2" ∷ []))
      (text "news" ∷ text "news-2" ∷ [])
    ≡ false
unique_slug-is_taken_example = unique_slug-is_taken (text "news") (text "news" ∷ text "news-2" ∷ [])

abbrev empty_store : Actions
empty_store = new_actions (text ":80") (record { has_path = true; writable = true; file = absent })

abbrev one : Actions
one = (upsert 1 (news (text "News") []) empty_store).1

abbrev two : Actions
two = (upsert 2 (news (text "News") []) one).1

two_slugs : slugs two.items ≡ text "news" ∷ text "news-2" ∷ []
unfolding actions_open
two_slugs = refl

used : (upsert 3 (news (text "Other") (text "News")) two).0 ≡ inl slug_used
unfolding actions_open
used = refl

swapped : slugs (reorder (text "news-2" ∷ []) two).items ≡ text "news-2" ∷ text "news" ∷ []
unfolding actions_open
swapped = refl

Reach-IsTidy_example : IsTidy (reorder (text "news-2" ∷ []) two).items
Reach-IsTidy_example = Reach-IsTidy (reorder (text "news-2" ∷ []) two) (
    then_step
      (then_step
        (then_step
          (started (text ":80") (record { has_path = true; writable = true; file = absent }))
          (upserted 1 (news (text "News") [])))
        (upserted 2 (news (text "News") [])))
      (reordered (text "news-2" ∷ [])))

upsert-get_example : Answers two (upsert 4 (news (text "Fourth") []) two)
upsert-get_example = upsert-get 4 (news (text "Fourth") []) two
