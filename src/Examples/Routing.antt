-- ===== src/Examples/Routing.antt =====
-- Runs of the task router on a list of four issues.
use loomcli.Common.{
  ℕ, ◌<◌, ◌≡◌, inl, inr, refl, false, ◌&&◌, none, some, List, [], ◌∷◌, String, pos, In, ltb, arith,
}
use loomcli.Router.{
  BdIssue, RoleConstraints, TaskMatch, match_task, count_skill_matches, select_best_task,
  has_unclosed_blockers, filter_rejects, ready_to_implement, has_needs_revision,
}
use loomcli.Router.Match.{available_by, within_cap, match_task-pos}
use loomcli.Router.Select.{ComesFirst, select_best_task-some}

abbrev designed : String → ℕ → List String → BdIssue
designed id p labels = record {
  id = id;
  title = id;
  status = "open";
  priority = pos p;
  issue_type = "task";
  design = "see docs";
  assignee = "";
  labels = labels;
  dependencies = [];
}

abbrev go_task : BdIssue
go_task = designed "bd-1" 3 ("go" ∷ "sql" ∷ [])

abbrev urgent : BdIssue
urgent = designed "bd-2" 0 ("go" ∷ [])

abbrev closed : BdIssue
closed = record (designed "bd-3" 0 []) { status = "closed" }

abbrev blocked : BdIssue
blocked = record (designed "bd-4" 0 []) {
  dependencies = record { depends_on_id = "bd-1"; type = "blocks" } ∷ [];
}

abbrev constraints : RoleConstraints
constraints = record {
  task_filter = "needs_design";
  backend = "";
  path_patterns = none;
  skills = "go" ∷ "sql" ∷ [];
  max_priority = some (pos 3);
  read_only = false;
  allowed_tools = [];
  denied_tools = [];
}

abbrev unclosed : List String
unclosed = "bd-1" ∷ "bd-2" ∷ "bd-4" ∷ []

abbrev issues : List BdIssue
issues = closed ∷ urgent ∷ blocked ∷ go_task ∷ []

match_task-pos_example :
    ltb 0 (match_task blocked constraints unclosed).score
    ≡ (available_by "needs_design" blocked unclosed && within_cap (some (pos 3)) (pos 0))
match_task-pos_example = match_task-pos blocked constraints unclosed

go_task_score : (match_task go_task constraints unclosed).score ≡ 208
unfolding match_task has_unclosed_blockers filter_rejects ready_to_implement has_needs_revision
    count_skill_matches
go_task_score = refl

urgent_score : (match_task urgent constraints unclosed).score ≡ 170
unfolding match_task has_unclosed_blockers filter_rejects ready_to_implement has_needs_revision
    count_skill_matches
urgent_score = refl

select_best_task-some_example :
    (b : TaskMatch) × (select_best_task issues constraints unclosed ≡ some b)
    × In b.issue issues
    × (b ≡ match_task b.issue constraints unclosed)
    × (0 < b.score)
    × ComesFirst b (match_task urgent constraints unclosed)
select_best_task-some_example =
    select_best_task-some issues constraints unclosed urgent (inr (inl refl))
      (ground (arith, urgent_score))
