-- ===== src/Tests/Modes.antt =====
-- Modes (agent/modes.go).
use sideshow.Base.{◌≡◌, refl, ◌↔◌, none, some, [], ◌∷◌, text}
use sideshow.Mode.{Mode, str, strings, normalize}
use sideshow.Tests.Open.{modes_open}
use sideshow.Mode.Validate.{WellFormed, validate, wayland_type, validate-WellFormed}
use sideshow.Mode.Equivalent.{label}

abbrev request : Mode
request = record {
  type = text " Web ";
  params = (text "url", str (text "https://example.org/")) ∷ [];
  display = [];
}

abbrev shell : Mode
shell = record {
  type = text "app";
  params = (text "argv", strings (text "htop" ∷ text "-d" ∷ [])) ∷ [];
  display = text "console";
}

abbrev joined : Mode
joined = record shell { params = (text "argv", strings (text "htop -d" ∷ [])) ∷ [] }

request_accepted : validate (normalize request) ≡ none
unfolding modes_open
request_accepted = refl

raw_request_refused :
    validate (record request { display = text "wayland"; type = text "media" }) ≡ some wayland_type
unfolding modes_open
raw_request_refused = refl

shell-label : label shell ≡ text "app:htop"
unfolding label modes_open
shell-label = refl

validate-WellFormed_example : (validate (normalize request) ≡ none) ↔ WellFormed (normalize request)
validate-WellFormed_example = validate-WellFormed (normalize request)
