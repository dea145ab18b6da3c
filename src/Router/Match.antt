-- ===== src/Router/Match.antt =====
-- What a positive score means, and how scores compare.
use loomcli.Common.{
  ℕ, ◌+◌, ◌*◌, ◌≤◌, ◌<◌, ◌≡◌, Bool, true, ◌&&◌, not, Option, none, some, List, String, ℤ, pos,
  negsuc, ltb, ltb_ℤ, if◌then◌else◌, str_eq, length, arith, ◌⊎◌,
}
use loomcli.Router.{
  BdIssue, RoleConstraints, TaskMatch, match_task, score_match, filter_rejects, exceeds, or_reject,
  is_available_for_planning, is_available_for_implementation, is_available_for_any,
  is_workable_task, needs_plan, ready_to_implement, count_skill_matches, priority_bonus,
}

-- The priority cap of a role, as a test.
abbrev pub within_cap : Option ℤ → ℤ → Bool
within_cap none p = true
within_cap (some m) p = not (ltb_ℤ m p)

-- The shared predicate of taskfilter.go that a filter stands for.
abbrev pub available_by : String → BdIssue → List String → Bool
available_by filter issue unclosed =
    if str_eq filter "needs_plan"
    then is_available_for_planning issue unclosed
    else if str_eq filter "any"
    then is_available_for_any issue unclosed
    else is_available_for_implementation issue unclosed

score_match_pos : (issue : BdIssue) (c : RoleConstraints) → ltb 0 (score_match issue c).score ≡ true
unfolding score_match
score_match_pos issue c = ground arith

or_reject_cap :
    (o : Option ℤ) (issue : BdIssue) (m : TaskMatch)
    → ltb 0 m.score ≡ true
    → ltb 0 (or_reject (exceeds o issue.priority) issue m).score ≡ within_cap o issue.priority
or_reject_cap none issue m h = h
or_reject_cap (some k) issue m h = ground arith

or_reject_filter :
    (filter : String) (issue : BdIssue) (m : TaskMatch)
    → ltb 0 (or_reject (filter_rejects filter issue) issue m).score ≡ (
        (if str_eq filter "needs_plan"
          then needs_plan issue
          else if str_eq filter "any"
          then true
          else ready_to_implement issue)
        && ltb 0 m.score)
unfolding filter_rejects
or_reject_filter filter issue m = ground arith

-- The router gives an issue a positive score exactly when the predicate for the role's filter says
-- that it is available, and its priority is within the role's cap.
pub match_task-pos :
    (issue : BdIssue) (c : RoleConstraints) (unclosed : List String)
    → ltb 0 (match_task issue c unclosed).score
      ≡ (available_by c.task_filter issue unclosed && within_cap c.max_priority issue.priority)
unfolding match_task is_available_for_planning is_available_for_implementation is_available_for_any
    is_workable_task
match_task-pos issue c unclosed =
    let inner = or_reject (exceeds c.max_priority issue.priority) issue (score_match issue c) in
    ground (
      arith,
      or_reject_cap c.max_priority issue (score_match issue c) (score_match_pos issue c),
      or_reject_filter c.task_filter issue inner,
    )

abbrev full_score : BdIssue → RoleConstraints → ℕ
full_score issue c =
    100 + count_skill_matches issue.labels c.skills * 50 + priority_bonus issue.priority

-- The three values that a score can have: rejected, no skill of the role's in the labels, or the
-- sum of the bonuses.
pub match_task_values :
    (issue : BdIssue) (c : RoleConstraints) (unclosed : List String)
    → ((match_task issue c unclosed).score ≡ 0)
      ⊎ (((match_task issue c unclosed).score ≡ 10)
            × (0 < length c.skills)
            × (count_skill_matches issue.labels c.skills ≡ 0)
          ⊎ ((match_task issue c unclosed).score ≡ full_score issue c)
            × ((length c.skills ≡ 0) ⊎ (0 < count_skill_matches issue.labels c.skills)))
unfolding match_task score_match
match_task_values issue c unclosed = ground arith

priority_bonus_le : (p : ℤ) → priority_bonus p ≤ 20
priority_bonus_le (pos p) = omega arith
priority_bonus_le (negsuc p) = omega arith

-- Of two issues that a role accepts, the one with more of the role's skills in its labels has the
-- higher score, whatever the priorities are.
pub match_task_skills :
    (a b : BdIssue) (c : RoleConstraints) (unclosed : List String)
    → 0 < (match_task a c unclosed).score
    → 0 < (match_task b c unclosed).score
    → count_skill_matches b.labels c.skills < count_skill_matches a.labels c.skills
    → (match_task b c unclosed).score < (match_task a c unclosed).score
match_task_skills a b c unclosed ha hb more = ground (
  arith,
  match_task_values a c unclosed,
  match_task_values b c unclosed,
  priority_bonus_le a.priority,
  priority_bonus_le b.priority,
)
