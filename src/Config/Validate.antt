-- ===== src/Config/Validate.antt =====
-- internal/cli/config_validate.go and validateAgents of daemon_config.go. An issue is a
-- constructor with the values that its field path and message are printed from.
pub mod Accepted
use Prim.Native.Char.{code}
use loomcli.Common.{
  ℕ, zero, suc, ◌+◌, ◌≡◌, refl, sym, ap, Bool, true, false, ◌&&◌, ◌||◌, not, Option, none, some,
  List, [], ◌∷◌, ◌++◌, String, ℤ, pos, ltb_ℤ, leb, if◌then◌else◌, str_eq, any, length, map, lookup,
  insert, sort_by, str_ltb, is_some, arith, Bool-cases, inl, inr, ◌⊎◌,
}
use loomcli.Config.Types.{RestartPolicy, RoleConfig, AgentEntry, DaemonConfig}

pub data AgentsError : Type 0 where
  worktree_required role_required : ℕ → AgentsError
  fallback_empty : ℕ → ℕ → AgentsError
  max_agents_negative : ℤ → AgentsError
  too_many_agents : ℕ → ℤ → AgentsError

empty_at : ℕ → List String → Option ℕ
empty_at j [] = none
empty_at j (fb ∷ fbs) = let rest = empty_at (suc j) fbs in if str_eq fb "" then some j else rest

fallback_error : ℕ → Option ℕ → Option AgentsError
fallback_error i none = none
fallback_error i (some j) = some (fallback_empty i j)

-- The checks of one turn of the loop; `none` goes on.
unfoldable pub entry_error : ℕ → AgentEntry → Option AgentsError
unfolding fallback_error empty_at
entry_error i a =
    if str_eq a.worktree ""
    then some (worktree_required i)
    else if str_eq a.role ""
    then some (role_required i)
    else fallback_error i (empty_at 0 a.fallback_backends)

unfoldable pub or_else : Option AgentsError → Option AgentsError → Option AgentsError
or_else none e = e
or_else (some e) _ = some e

unfoldable pub entries_error : ℕ → List AgentEntry → Option AgentsError
entries_error i [] = none
entries_error i (a ∷ as') = or_else (entry_error i a) (entries_error (suc i) as')

max_agents_error : ℕ → Option ℤ → Option AgentsError
max_agents_error n none = none
max_agents_error n (some m) =
    if ltb_ℤ m (pos 0)
    then some (max_agents_negative m)
    else if ltb_ℤ (pos 0) m && ltb_ℤ m (pos n)
    then some (too_many_agents n m)
    else none

unfoldable pub validate_agents : List AgentEntry → Option ℤ → Option AgentsError
unfolding entries_error or_else max_agents_error
validate_agents agents max_agents =
    or_else (entries_error 0 agents) (max_agents_error (length agents) max_agents)

pub data Issue : Type 0 where
  unregistered_backend : Option ℕ → String → Issue
  invalid_worktree : ℕ → String → Issue
  duplicate_worktree : ℕ → String → ℕ → Issue
  unknown_role : ℕ → String → Issue
  missing_prompt_file : String → String → Issue
  invalid_task_filter : String → String → Issue
  backoff_initial_negative backoff_max_negative output_timeout_negative : ℤ → Issue
  max_retries_negative : ℤ → Issue
  backoff_max_below_initial : ℤ → ℤ → Issue

-- Severity "error"; the rest are warnings.
abbrev pub is_error : Issue → Bool
is_error (missing_prompt_file role path) = false
is_error _ = true

unfoldable pub has_errors : List Issue → Bool
has_errors issues = any is_error issues

-- `agent` is the index of the entry whose backend is checked, or none for the default backend.
unfoldable pub validate_backend_name : List String → Option ℕ → String → List Issue
validate_backend_name available agent name =
    if str_eq name "" || length_zero available || any (λ b. str_eq b name) available
    then []
    else unregistered_backend agent name ∷ []
  where
    length_zero : List String → Bool
    length_zero [] = true
    length_zero (x ∷ xs) = false

is_worktree_code : ℕ → Bool
is_worktree_code c =
    leb b'a' c && leb c b'z'
    || leb b'A' c && leb c b'Z'
    || leb b'0' c && leb c b'9'
    || leb c b'-' && leb b'-' c
    || leb c b'_' && leb b'_' c

unfoldable pub is_valid_worktree_name : String → Bool
unfolding is_worktree_code
is_valid_worktree_name String.[] = true
is_valid_worktree_name (String.◌∷◌ c s) = is_worktree_code (code c) && is_valid_worktree_name s

abbrev pub built_in_role : String → Bool
built_in_role r = str_eq r "plan" || str_eq r "task"

character_issues : ℕ → AgentEntry → List Issue
character_issues i a =
    if not (str_eq a.worktree "") && not (is_valid_worktree_name a.worktree)
    then invalid_worktree i a.worktree ∷ []
    else []

-- `seenWorktrees`, with the index at which each name was first used.
abbrev Seen : Type 0
Seen = List (String × ℕ)

duplicate_of : ℕ → String → Option ℕ → List Issue
duplicate_of i w none = []
duplicate_of i w (some prev) = duplicate_worktree i w prev ∷ []

duplicate_issues : ℕ → AgentEntry → Seen → List Issue
unfolding duplicate_of
duplicate_issues i a seen =
    if str_eq a.worktree "" then [] else duplicate_of i a.worktree (lookup a.worktree seen)

see : ℕ → AgentEntry → Seen → Seen
see i a seen =
    if str_eq a.worktree "" || is_some (lookup a.worktree seen)
    then seen
    else insert a.worktree i seen

role_issues : ℕ → AgentEntry → List (String × RoleConfig) → List Issue
role_issues i a roles =
    if not (str_eq a.role "") && not (built_in_role a.role) && not (is_some (lookup a.role roles))
    then unknown_role i a.role ∷ []
    else []

unfoldable pub agent_issues_from :
    List String → List (String × RoleConfig) → ℕ → Seen → List AgentEntry → List Issue
unfolding character_issues duplicate_issues role_issues see
agent_issues_from available roles i seen [] = []
agent_issues_from available roles i seen (a ∷ as') =
    character_issues i a
    ++ (duplicate_issues i a seen
        ++ (role_issues i a roles
            ++ (validate_backend_name available (some i) a.backend
                ++ agent_issues_from available roles (suc i) (see i a seen) as')))

unfoldable pub validate_agent_entries :
    List String → List AgentEntry → List (String × RoleConfig) → List Issue
unfolding agent_issues_from
validate_agent_entries available agents roles = agent_issues_from available roles 0 [] agents

abbrev pub valid_task_filter : String → Bool
valid_task_filter f = str_eq f "needs_design" || str_eq f "has_design" || str_eq f "any"

-- `exists` says whether a prompt file is there.
unfoldable pub role_config_issues : (String → Bool) → String → RoleConfig → List Issue
role_config_issues exists name rc =
    (if not (str_eq rc.prompt_file "") && not (exists rc.prompt_file)
      then missing_prompt_file name rc.prompt_file ∷ []
      else [])
    ++ (if not (str_eq rc.task_filter "") && not (valid_task_filter rc.task_filter)
        then invalid_task_filter name rc.task_filter ∷ []
        else [])

named_role_issues : (String → Bool) → String → Option RoleConfig → List Issue
named_role_issues exists name none = []
named_role_issues exists name (some rc) = role_config_issues exists name rc

each_role_issues : (String → Bool) → List (String × RoleConfig) → List String → List Issue
unfolding named_role_issues
each_role_issues exists roles [] = []
each_role_issues exists roles (n ∷ ns) =
    named_role_issues exists n (lookup n roles) ++ each_role_issues exists roles ns

unfoldable pub validate_roles : (String → Bool) → List (String × RoleConfig) → List Issue
unfolding each_role_issues
validate_roles exists roles = each_role_issues exists roles (sort_by str_ltb (map (λ p. p.0) roles))

negative_issue : (ℤ → Issue) → Option ℤ → List Issue
negative_issue issue none = []
negative_issue issue (some v) = if ltb_ℤ v (pos 0) then issue v ∷ [] else []

below_initial_issue : Option ℤ → Option ℤ → List Issue
below_initial_issue (some initial) (some m) =
    if ltb_ℤ m initial then backoff_max_below_initial m initial ∷ [] else []
below_initial_issue _ _ = []

unfoldable pub validate_restart_policy : RestartPolicy → List Issue
unfolding negative_issue below_initial_issue
validate_restart_policy rp =
    negative_issue backoff_initial_negative rp.backoff_initial
    ++ (negative_issue backoff_max_negative rp.backoff_max
        ++ (below_initial_issue rp.backoff_initial rp.backoff_max
            ++ (negative_issue output_timeout_negative rp.output_timeout
                ++ negative_issue max_retries_negative rp.max_retries)))

-- `available` is ListBackends(), which the build's registered backends make up.
unfoldable pub validate_project_config : List String → (String → Bool) → DaemonConfig → List Issue
validate_project_config available exists dc =
    validate_backend_name available none dc.backend
    ++ (validate_agent_entries available dc.agents dc.roles
        ++ (validate_roles exists dc.roles ++ validate_restart_policy dc.daemon.restart_policy))
