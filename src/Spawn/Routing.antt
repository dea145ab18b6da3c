-- ===== src/Spawn/Routing.antt =====
-- The routing of an agent's process, internal/cli/task_router.go, by what the daemon handed it.
use loomcli.Common.{◌≡◌, refl, ap, List, [], ◌∷◌, String, map}
use loomcli.Config.{RoleConfig, AgentEntry}
use loomcli.Router.{
  BdIssue, RoleConstraints, match_task, select_best_task, merge_role_constraints,
  build_router_task_check,
}
use loomcli.Spawn.{Agent, build_env, role_config_from_env, agent_entry_from_env}
use loomcli.Spawn.RoundTrip.{
  IsClean, IsSeparable, PatternsSeparable, PriorityFits, role_config_from_env-build_env,
}

-- Constraints that agree on what matching reads.
match_task-same :
    (issue : BdIssue) (c e : RoleConstraints) (unclosed : List String)
    → c.skills ≡ e.skills
    → c.max_priority ≡ e.max_priority
    → c.task_filter ≡ e.task_filter
    → match_task issue c unclosed ≡ match_task issue e unclosed
unfolding match_task
match_task-same issue c e unclosed s m f = rw (s, m, f) refl

map_same :
    {A B : Type 0} (f g : A → B) → ((a : A) → f a ≡ g a) → (xs : List A) → map f xs ≡ map g xs
map_same f g h [] = refl
map_same f g h (x ∷ xs) = cc (h x, map_same f g h xs)

select_best_task-same :
    (issues : List BdIssue) (c e : RoleConstraints) (unclosed : List String)
    → c.skills ≡ e.skills
    → c.max_priority ≡ e.max_priority
    → c.task_filter ≡ e.task_filter
    → select_best_task issues c unclosed ≡ select_best_task issues e unclosed
unfolding select_best_task
select_best_task-same issues c e unclosed s m f =
    rw
      (map_same (λ i. match_task i c unclosed) (λ i. match_task i e unclosed)
        (λ i. match_task-same i c e unclosed s m f) issues)
      refl

build_router_task_check-same :
    (r q : RoleConfig) (a b : AgentEntry) (issues : List BdIssue) (unclosed : List String)
    → r.skills ≡ q.skills
    → r.max_priority ≡ q.max_priority
    → r.task_filter ≡ q.task_filter
    → build_router_task_check r a issues unclosed ≡ build_router_task_check q b issues unclosed
unfolding build_router_task_check merge_role_constraints
build_router_task_check-same r q a b issues unclosed s m f = cc (
  select_best_task-same issues (merge_role_constraints r a) (merge_role_constraints q b) unclosed s
      m f,
  s,
  m,
  f,
)

-- The process that is started looks for tasks as the daemon's configuration says: whether it uses the
-- router, and whether the router finds it a task, is what the role and the agent's entry give, under the
-- conditions on which the role is read back.
pub build_router_task_check-build_env :
    (environ : List String) (a : Agent) (issues : List BdIssue) (unclosed : List String)
    → IsClean environ
    → IsSeparable a.role_config.skills
    → PatternsSeparable a.role_config.path_patterns
    → PriorityFits a.role_config.max_priority
    → build_router_task_check
        (role_config_from_env (build_env environ a))
        (agent_entry_from_env (build_env environ a))
        issues
        unclosed
      ≡ build_router_task_check a.role_config a.entry issues unclosed
build_router_task_check-build_env environ a issues unclosed c s p m =
    let e = role_config_from_env-build_env environ a c s p m in
    build_router_task_check-same (role_config_from_env (build_env environ a)) a.role_config
      (agent_entry_from_env (build_env environ a)) a.entry issues unclosed (ap (λ r. r.skills) e)
      (ap (λ r. r.max_priority) e) (ap (λ r. r.task_filter) e)
