-- ===== src/Router.antt =====
-- internal/cli/task_router.go and taskfilter.go: which issue an agent works on. Reasons are left
-- as constructors with the values that the texts are printed from. Scores and priorities are Go
-- ints; a priority is an integer.
pub mod Match
pub mod Select
pub mod Filters
use loomcli.Common.{
  ℕ, zero, suc, ◌+◌, ◌-◌, ◌*◌, Bool, true, false, ◌&&◌, ◌||◌, not, Option, none, some, List, [],
  ◌∷◌, String, ℤ, pos, negsuc, leb, ltb, ltb_ℤ, eqb_ℤ, leb_ℤ, ◌==◌, if◌then◌else◌, str_eq, str_ltb,
  any, length, keep, count_of, map, first?, sort_by, is_some,
}
use loomcli.Config.{RoleConfig, AgentEntry}

pub record Dependency : Type 0 where
  pub depends_on_id : String
  pub type : String

pub record BdIssue : Type 0 where
  pub id : String
  pub title : String
  pub status : String
  pub priority : ℤ
  pub issue_type : String
  pub design : String
  pub assignee : String
  pub labels : List String
  pub dependencies : List Dependency

abbrev pub contains : String → List String → Bool
contains x ys = any (λ y. str_eq y x) ys

-- taskfilter.go.
abbrev pub is_epic : BdIssue → Bool
is_epic issue = str_eq issue.issue_type "epic"

abbrev pub is_open : BdIssue → Bool
is_open issue = str_eq issue.status "open"

abbrev pub has_design : BdIssue → Bool
has_design issue = not (str_eq issue.design "")

unfoldable pub has_needs_revision : BdIssue → Bool
has_needs_revision issue = contains "needs-revision" issue.labels

unfoldable pub needs_plan : BdIssue → Bool
needs_plan issue = not (has_design issue) || has_needs_revision issue

unfoldable pub ready_to_implement : BdIssue → Bool
ready_to_implement issue = has_design issue && not (has_needs_revision issue)

unfoldable pub is_workable_task : BdIssue → Bool
is_workable_task issue = is_open issue && not (is_epic issue)

abbrev pub affects_ready_work : String → Bool
affects_ready_work t =
    str_eq t "blocks"
    || str_eq t "parent-child"
    || str_eq t "conditional-blocks"
    || str_eq t "waits-for"

-- `unclosed` is the set of the issues that are not closed.
unfoldable pub has_unclosed_blockers : List Dependency → List String → Bool
has_unclosed_blockers deps unclosed =
    any (λ d. affects_ready_work d.type && contains d.depends_on_id unclosed) deps

unfoldable pub is_available_for_planning : BdIssue → List String → Bool
is_available_for_planning issue unclosed =
    is_workable_task issue
    && (not (has_unclosed_blockers issue.dependencies unclosed) && needs_plan issue)

unfoldable pub is_available_for_implementation : BdIssue → List String → Bool
is_available_for_implementation issue unclosed =
    is_workable_task issue
    && (not (has_unclosed_blockers issue.dependencies unclosed) && ready_to_implement issue)

unfoldable pub is_available_for_any : BdIssue → List String → Bool
is_available_for_any issue unclosed =
    is_workable_task issue && not (has_unclosed_blockers issue.dependencies unclosed)

-- task_router.go.
pub record RoleConstraints : Type 0 where
  pub task_filter : String
  pub backend : String
  pub path_patterns : Option (List String)
  pub skills : List String
  pub max_priority : Option ℤ
  pub read_only : Bool
  pub allowed_tools : List String
  pub denied_tools : List String

or_patterns : Option (List String) → Option (List String) → Option (List String)
or_patterns base none = base
or_patterns base (some ps) = some ps

unfoldable pub merge_role_constraints : RoleConfig → AgentEntry → RoleConstraints
unfolding or_patterns
merge_role_constraints rc ae = record {
  task_filter = rc.task_filter;
  backend = if str_eq ae.backend "" then rc.backend else ae.backend;
  path_patterns = or_patterns rc.path_patterns ae.path_patterns;
  skills = rc.skills;
  max_priority = rc.max_priority;
  read_only = rc.read_only;
  allowed_tools = rc.allowed_tools;
  denied_tools = rc.denied_tools;
}

pub data Reason : Type 0 where
  epic not_open blocked filter_has_design filter_not_ready fallback_no_skill : Reason
  priority_exceeds : ℤ → ℤ → Reason
  -- The bonuses for skills and for priority.
  scored : ℕ → ℕ → Reason

pub record TaskMatch : Type 0 where
  pub issue : BdIssue
  pub score : ℕ
  pub reason : Reason

reject : BdIssue → Reason → TaskMatch
reject issue reason = record { issue = issue; score = 0; reason = reason }

-- The reason for which the switch on the filter rejects an issue.
unfoldable pub filter_rejects : String → BdIssue → Option Reason
filter_rejects filter issue =
    if str_eq filter "needs_plan"
    then (if needs_plan issue then none else some filter_has_design)
    else if str_eq filter "any"
    then none
    else if ready_to_implement issue
    then none
    else some filter_not_ready

abbrev exceeds : Option ℤ → ℤ → Option Reason
exceeds none p = none
exceeds (some m) p = if ltb_ℤ m p then some (priority_exceeds p m) else none

-- How many of the role's skills are among the labels.
unfoldable pub count_skill_matches : List String → List String → ℕ
count_skill_matches labels skills = count_of (λ s. contains s labels) skills

-- 20 - priority * 4, clamped to 0 ... 20.
abbrev pub priority_bonus : ℤ → ℕ
priority_bonus (pos p) = 20 - p * 4
priority_bonus (negsuc p) = 20

score_match : BdIssue → RoleConstraints → TaskMatch
score_match issue c =
    let matches = count_skill_matches issue.labels c.skills in
    if not (length c.skills == 0) && matches == 0
    then record { issue = issue; score = 10; reason = fallback_no_skill }
    else record {
      issue = issue;
      score = 100 + matches * 50 + priority_bonus issue.priority;
      reason = scored (matches * 50) (priority_bonus issue.priority);
    }

abbrev or_reject : Option Reason → BdIssue → TaskMatch → TaskMatch
or_reject none issue m = m
or_reject (some r) issue m = record { issue = issue; score = 0; reason = r }

unfoldable pub match_task : BdIssue → RoleConstraints → List String → TaskMatch
unfolding reject score_match
match_task issue c unclosed =
    if is_epic issue
    then reject issue epic
    else if not (is_open issue)
    then reject issue not_open
    else if has_unclosed_blockers issue.dependencies unclosed
    then reject issue blocked
    else or_reject (filter_rejects c.task_filter issue) issue
        (or_reject (exceeds c.max_priority issue.priority) issue (score_match issue c))

-- The `less` that the matches are sorted by.
unfoldable pub better : TaskMatch → TaskMatch → Bool
better a b =
    if not (a.score == b.score)
    then ltb b.score a.score
    else if not (eqb_ℤ a.issue.priority b.issue.priority)
    then ltb_ℤ a.issue.priority b.issue.priority
    else str_ltb a.issue.id b.issue.id

abbrev matching : List BdIssue → RoleConstraints → List String → List TaskMatch
matching issues c unclosed =
    keep (λ m. ltb 0 m.score) (map (λ issue. match_task issue c unclosed) issues)

unfoldable pub select_best_task : List BdIssue → RoleConstraints → List String → Option TaskMatch
select_best_task issues c unclosed = first? (sort_by better (matching issues c unclosed))

-- BuildRouterTaskCheck of automode_poller.go: `none` when the role sets no routing constraint.
unfoldable pub build_router_task_check :
    RoleConfig → AgentEntry → List BdIssue → List String → Option Bool
build_router_task_check rc ae issues unclosed =
    let c = merge_role_constraints rc ae in
    if length c.skills == 0 && not (is_some c.max_priority) && str_eq c.task_filter ""
    then none
    else some (is_some (select_best_task issues c unclosed))
