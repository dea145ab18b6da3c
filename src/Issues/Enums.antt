-- ===== src/Issues/Enums.antt =====
-- internal/types/enums.go and the dependency types of relations.go. The enumerations are texts in
-- Go, with values of the user's own. strings.ToLower is the parameter `to_lower`.
pub mod Laws
use Prim.Native.String.{len}
use loomcli.Common.{
  String, Bool, true, false, ◌&&◌, ◌||◌, List, [], ◌∷◌, str_eq, ltb, leb, any, contains,
  if◌then◌else◌,
}

-- A `switch` over constants, and the loop over custom values.
unfoldable pub one_of : List String → String → Bool
one_of values s = any (λ v. str_eq s v) values

abbrev pub statuses : List String
statuses =
    "open" ∷ "in_progress" ∷ "blocked" ∷ "deferred" ∷ "review" ∷ "closed" ∷ "tombstone" ∷ "pinned"
    ∷ "hooked" ∷ []

unfoldable pub is_valid_status : String → Bool
unfolding one_of
is_valid_status s = one_of statuses s

-- The loop over the custom statuses or types.
custom_has : List String → String → Bool
custom_has customs s = any (λ custom. str_eq s custom) customs

unfoldable pub is_valid_status_with_custom : List String → String → Bool
unfolding is_valid_status custom_has
is_valid_status_with_custom customs s = is_valid_status s || custom_has customs s

abbrev pub issue_types : List String
issue_types = "bug" ∷ "feature" ∷ "task" ∷ "epic" ∷ "chore" ∷ []

unfoldable pub is_valid_type : String → Bool
unfolding one_of
is_valid_type s = one_of issue_types s

unfoldable pub is_built_in_type : String → Bool
unfolding is_valid_type
is_built_in_type t = is_valid_type t

unfoldable pub is_valid_type_with_custom : List String → String → Bool
unfolding is_valid_type custom_has
is_valid_type_with_custom customs t = is_valid_type t || custom_has customs t

unfoldable pub normalize : (String → String) → String → String
unfolding one_of
normalize to_lower t = if one_of ("enhancement" ∷ "feat" ∷ []) (to_lower t) then "feature" else t

pub record RequiredSection : Type 0 where
  pub heading : String
  pub hint : String

abbrev section : String → String → RequiredSection
section heading hint = record { heading = heading; hint = hint }

unfoldable pub required_sections : String → List RequiredSection
unfolding one_of
required_sections t =
    if str_eq t "bug"
    then (section "## Steps to Reproduce" "Describe how to reproduce the bug"
        ∷ section "## Acceptance Criteria" "Define criteria to verify the fix"
        ∷ [])
    else if one_of ("task" ∷ "feature" ∷ []) t
    then section "## Acceptance Criteria" "Define criteria to verify completion" ∷ []
    else if str_eq t "epic"
    then section "## Success Criteria" "Define high-level success criteria" ∷ []
    else []

abbrev pub agent_states : List String
agent_states =
    "idle" ∷ "spawning" ∷ "running" ∷ "working" ∷ "stuck" ∷ "done" ∷ "stopped" ∷ "dead" ∷ "" ∷ []

unfoldable pub is_valid_agent_state : String → Bool
unfolding one_of
is_valid_agent_state s = one_of agent_states s

abbrev pub mol_types : List String
mol_types = "swarm" ∷ "patrol" ∷ "work" ∷ "" ∷ []

unfoldable pub is_valid_mol_type : String → Bool
unfolding one_of
is_valid_mol_type s = one_of mol_types s

abbrev pub work_types : List String
work_types = "mutex" ∷ "open_competition" ∷ "" ∷ []

unfoldable pub is_valid_work_type : String → Bool
unfolding one_of
is_valid_work_type s = one_of work_types s

abbrev pub sort_policies : List String
sort_policies = "hybrid" ∷ "priority" ∷ "oldest" ∷ "" ∷ []

unfoldable pub is_valid_sort_policy : String → Bool
unfolding one_of
is_valid_sort_policy s = one_of sort_policies s

-- Any text of 1 to 50 bytes is a dependency type.
unfoldable pub is_valid_dependency_type : String → Bool
is_valid_dependency_type d = ltb 0 (len d) && leb (len d) 50

abbrev pub dependency_types : List String
dependency_types =
    "blocks" ∷ "parent-child" ∷ "conditional-blocks" ∷ "waits-for" ∷ "related" ∷ "discovered-from"
    ∷ "replies-to" ∷ "relates-to" ∷ "duplicates" ∷ "supersedes" ∷ "authored-by" ∷ "assigned-to"
    ∷ "approved-by" ∷ "attests" ∷ "tracks" ∷ "until" ∷ "caused-by" ∷ "validates" ∷ "delegated-from"
    ∷ []

unfoldable pub is_well_known : String → Bool
unfolding one_of
is_well_known s = one_of dependency_types s

unfoldable pub affects_ready_work : String → Bool
affects_ready_work d =
    str_eq d "blocks"
    || str_eq d "parent-child"
    || str_eq d "conditional-blocks"
    || str_eq d "waits-for"

abbrev pub failure_close_keywords : List String
failure_close_keywords =
    "failed" ∷ "rejected" ∷ "wontfix" ∷ "won't fix" ∷ "canceled" ∷ "cancelled" ∷ "abandoned"
    ∷ "blocked" ∷ "error" ∷ "timeout" ∷ "aborted" ∷ []

unfoldable pub is_failure_close : (String → String) → String → Bool
unfolding contains
is_failure_close to_lower reason =
    if str_eq reason "" then false else any (contains (to_lower reason)) failure_close_keywords

abbrev pub outcomes : List String
outcomes = "accepted" ∷ "rejected" ∷ "revision_requested" ∷ []

unfoldable pub is_valid_outcome : String → Bool
unfolding one_of
is_valid_outcome s = one_of outcomes s
