-- ===== src/Content/Owner.antt =====
-- Who owns the page of the kiosk (agent/content.go), with the supervisor that shows it.
use sideshow.Base.{◌≡◌, refl, arith, Bool, true, false, if◌then◌else◌, Text}
use sideshow.Mode.{Mode, normalize}
use sideshow.Supervisor.World.{World}
use sideshow.Supervisor.Ownership.Logic.{core}
use sideshow.Supervisor.Shown.Base.{Wanted}
use sideshow.Content.{OutputContent, Content}
use sideshow.Content.Manage.{save, disable_owners, output_for}

save-kept : (c : Content) → (save c).kept ≡ c.kept
unfolding save
save-kept c = ground arith

disabled : Bool → Content → Content
disabled b c = if b then save (record c { kept = record c.kept { enabled = false } }) else c

disabled-kept :
    (b : Bool) (c : Content)
    → c.kept.enabled ≡ b
    → (disabled b c).kept ≡ record c.kept { enabled = false }
unfolding disabled
disabled-kept true c h = save-kept (record c { kept = record c.kept { enabled = false } })
disabled-kept false c h = λ i. record c.kept { enabled = h i }

pub disable_owners-kept :
    (c : Content) → (disable_owners c).kept ≡ record c.kept { enabled = false }
unfolding disable_owners disabled
disable_owners-kept c = disabled-kept c.kept.enabled c refl

-- What follows when content goes to the primary output: no document owns the page, the output has
-- the content, and the supervisor shows its mode.
abbrev pub IsRouted : Text → OutputContent → Mode → Content × World → Type 0
IsRouted primary oc m r =
    (r.0.kept.enabled ≡ false)
    × (output_for primary r.0.kept.outputs ≡ oc)
    × Wanted (normalize m) (core r.1)
