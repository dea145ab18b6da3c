-- ===== src/Examples/Slots.antt =====
-- Two supervisors of one role with one slot.
use loomcli.Common.{◌<◌, ◌≤◌, ◌≡◌, ◌⊎◌, refl, false, none, some, List, [], ◌∷◌, String, pos}
use loomcli.Config.{RoleConfig}
use loomcli.Tracker.{at, acquire, new_concurrency_tracker}
use loomcli.Tracker.System.{Agent, Move, attempts, waiting, run, step, init, holders}
use loomcli.Tracker.Configured.{configured_limit}
use loomcli.Tracker.Limits.{run-init_limits}
use loomcli.Tracker.Wakeup.{run-init_wakeup}

abbrev single : RoleConfig
single = record {
  description = "";
  prompt_file = "";
  model = "";
  task_filter = "";
  backend = "";
  path_patterns = none;
  skills = [];
  max_priority = none;
  max_concurrency = some (pos 1);
  read_only = false;
  allowed_tools = [];
  denied_tools = [];
}

abbrev pub roles : List (String × RoleConfig)
roles = ("review", single) ∷ []

abbrev agents : List String
agents = "review" ∷ "review" ∷ []

abbrev both : List Move
both = attempts 0 ∷ attempts 1 ∷ []

abbrev sleeper : Agent
sleeper = record { role = "review"; phase = waiting }

run-init_limits_example :
    let ct = new_concurrency_tracker roles in
    let s = run (init ct agents) both in
    (at "review" s.tracker.counts ≡ holders "review" s.agents)
    × ((configured_limit "review" roles ≡ 0)
        ⊎ (holders "review" s.agents ≤ configured_limit "review" roles))
run-init_limits_example = run-init_limits roles agents both "review"

run-init_wakeup_example :
    let s = run (init (new_concurrency_tracker roles) agents) both in
    (s.tracker.closed ≡ false)
    × (at "review" s.tracker.limits ≤ holders "review" s.agents)
    × (0 < holders "review" s.agents)
unfolding run step init new_concurrency_tracker acquire
run-init_wakeup_example = run-init_wakeup roles agents both 1 sleeper refl refl
