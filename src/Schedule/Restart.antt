-- ===== src/Schedule/Restart.antt =====
-- What survives in `schedule.json` (agent/weekly.go).
use sideshow.Base.{◌≡◌, refl, ◌∙◌, true, none, some, []}
use sideshow.Schedule.{Info}
use sideshow.Schedule.Clean.{sanitize_entries_idem, sanitize_exceptions_idem, sanitize_nightly_idem}
use sideshow.Schedule.Timeline.{Store, Scheduler}
use sideshow.Schedule.Engine.{
  persisted, save, load, load_persisted, fresh_scheduler, new_scheduler, check, install, set,
}

abbrev is_stored : Scheduler → Store
is_stored s = record s.store { file = some (persisted s) }

save_written :
    (s : Scheduler)
    → s.store.has_path ≡ true
    → s.store.writable ≡ true
    → save s ≡ record s { store = is_stored s }
unfolding save
save_written s hp hw = rw (hp, hw) refl

load_with_path : (s : Scheduler) → s.store.has_path ≡ true → load s ≡ load_persisted s.store.file s
unfolding load
load_with_path s hp = rw hp refl

load-install :
    (i : Info) (s : Scheduler)
    → load_persisted
        (is_stored (install i s)).file
        (fresh_scheduler s.can_fire (is_stored (install i s)))
      ≡ record (install i s) { store = is_stored (install i s) }
unfolding install persisted
load-install i s = λ k. record {
  can_fire = s.can_fire;
  enabled = i.enabled;
  days = λ d. sanitize_entries_idem (i.days d) k;
  exceptions = sanitize_exceptions_idem i.exceptions k;
  last_key = [];
  nightly_enabled = (sanitize_nightly_idem i.nightly k).enabled;
  nightly_sleep = (sanitize_nightly_idem i.nightly k).sleep;
  nightly_wake = (sanitize_nightly_idem i.nightly k).wake;
  nightly_loaded = true;
  store = is_stored (install i s);
}

-- An agent that restarts after a schedule was accepted and written has the same schedule, nightly
-- window and trigger as before.
pub set_restart :
    (i : Info) (s : Scheduler)
    → check i ≡ none
    → s.store.has_path ≡ true
    → s.store.writable ≡ true
    → new_scheduler s.can_fire (set i s).1.store ≡ (set i s).1
unfolding set new_scheduler install
set_restart i s hc hp hw =
    rw (hc, save_written (install i s) hp hw)
      (load_with_path (fresh_scheduler s.can_fire (is_stored (install i s))) hp ∙ load-install i s)
