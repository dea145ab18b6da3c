-- ===== src/Examples/Supervisor.antt =====
-- A turn of a supervisor whose agent crashes.
use loomcli.Common.{◌≡◌, ◌⊎◌, refl, true, false, none, some, [], ◌∷◌, pos, lookup}
use loomcli.Tracker.{at, new_concurrency_tracker}
use loomcli.Supervise.{Shared, Events, continues, returns, blocks, turn}
use loomcli.Supervise.GivesBack.{turn_gives_back}
use loomcli.Examples.Exits.{rp, daemon, agent, literal}
use loomcli.Examples.Epic.{open_epics, all_ready, spent}
use loomcli.Examples.Slots.{roles}

abbrev shared : Shared
shared = record {
  tracker = new_concurrency_tracker roles;
  epics = ("nova", "bd-7") ∷ [];
  agent = agent;
}

abbrev crashes : Events
crashes = record {
  shutdown_before = false;
  open_epics = some open_epics;
  has_ready = all_ready;
  ensure_branch = λ b. true;
  spawned = true;
  started = 5;
  exit_code = pos 1;
  task = "bd-12";
  log = "";
  after = spent;
  shutdown_after = false;
  now = 9;
  shutdown_in_backoff = false;
}

turn_gives_back_example :
    let (s', end) = turn rp daemon literal crashes shared in
    ((end ≡ blocks) × (s' ≡ shared))
    ⊎ (at "task" s'.tracker.counts ≡ at "task" shared.tracker.counts)
      × (s'.tracker.limits ≡ shared.tracker.limits)
      × (lookup "nova" s'.epics ≡ some "bd-7")
      × ((end ≡ continues) ⊎ ((end ≡ returns) × (lookup "bumblebee" s'.epics ≡ none)))
turn_gives_back_example = turn_gives_back rp daemon literal crashes shared "nova" "task" refl
