-- ===== src/Examples/Epic.antt =====
-- Epics for two worktrees.
use loomcli.Common.{
  ℕ, ◌≢◌, refl, Bool, true, false, Option, some, List, [], ◌∷◌, String, pos, lookup, sort_by,
  insert_by,
}
use loomcli.Epics.{
  EpicInfo, candidate, ranks_before, assigned_to_any, assign_worktree, EpicAgent, World,
}
use loomcli.Epics.Exclusive.{Move, assigns, run, step, run_exclusive}

abbrev epic_of : String → ℕ → EpicInfo
epic_of id p = record { id = id; priority = pos p; ready_task_count = pos 0 }

abbrev pub open_epics : List EpicInfo
open_epics = epic_of "bd-7" 2 ∷ epic_of "bd-3" 1 ∷ []

abbrev pub all_ready : String → Option Bool
all_ready id = some true

abbrev pub spent : World
spent = record {
  current_ready = some false;
  open_epics = some open_epics;
  has_ready = all_ready;
  ensure_branch = λ b. true;
}

abbrev falcon : EpicAgent
falcon = record { worktree = "falcon"; assigned_epic_id = "bd-3"; restart_count = 2 }

abbrev moves : List Move
moves =
    assigns (some open_epics) all_ready "falcon" ∷ assigns (some open_epics) all_ready "nova" ∷ []

run_exclusive_example : lookup "nova" (run [] moves) ≢ some "bd-3"
unfolding run step assign_worktree candidate assigned_to_any ranks_before sort_by insert_by
run_exclusive_example = run_exclusive moves "falcon" "nova" "bd-3" refl refl
