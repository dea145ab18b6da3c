-- ===== src/Examples/Launch.antt =====
-- The start of an agent of internal/cli/daemon_spawn.go, and its variables, at concrete inputs.
use loomcli.Common.{
  ◌≡◌, refl, true, none, some, List, [], ◌∷◌, String, pos, arith, has, has-Lacks, apart, join,
}
use loomcli.Config.{RoleConfig, AgentEntry}
use loomcli.Router.{BdIssue, build_router_task_check}
use loomcli.Spawn.{Agent, build_env, role_config_from_env, agent_entry_from_env, unset_role}
use loomcli.Spawn.Env.{lookup_env}
use loomcli.Spawn.RoundTrip.{IsClean, role_config_from_env-build_env}
use loomcli.Spawn.Routing.{build_router_task_check-build_env}

abbrev entry_of : AgentEntry
entry_of = record {
  worktree = "falcon";
  role = "backend";
  auto = true;
  backend = "";
  fallback_backends = [];
  path_patterns = none;
}

abbrev go_role : RoleConfig
go_role = record unset_role {
  prompt_file = "go.md";
  task_filter = "any";
  skills = "go" ∷ "sql" ∷ [];
  path_patterns = some ("src/*" ∷ []);
  max_priority = some (pos 2);
}

abbrev go_agent : Agent
go_agent = record {
  entry = entry_of;
  role_config = go_role;
  worktree_path = "/work/falcon";
  assigned_epic_id = "";
  backend = "claude";
  events_dir = "/work/.loom/events";
}

abbrev shell : List String
shell = "HOME=/root" ∷ "LOOM_EVENTS_DIR=/tmp" ∷ "SECRET=1" ∷ []

clean : IsClean shell
unfolding lookup_env
clean = record {
  skills = refl;
  path_patterns = refl;
  max_priority = refl;
  task_filter = refl;
  agent_patterns = refl;
}

role_config_from_env-build_env_example :
    role_config_from_env (build_env shell go_agent) ≡ record unset_role {
      skills = "go" ∷ "sql" ∷ [];
      path_patterns = some ("src/*" ∷ []);
      max_priority = some (pos 2);
      task_filter = "any";
    }
unfolding has join
role_config_from_env-build_env_example =
    role_config_from_env-build_env shell go_agent clean
      ((has-Lacks "," "go" refl, (has-Lacks "," "sql" refl, tt)), apart "go,sql" "" refl)
      ((has-Lacks "," "src/*" refl, tt), apart "src/*" "" refl) (omega arith, omega arith)

-- The session that the daemon was started in has skills of its own.
abbrev session : List String
session = "HOME=/root" ∷ "LOOM_ROLE_SKILLS=css,html" ∷ []

abbrev issue : BdIssue
issue = record {
  id = "bd-1";
  title = "Index the table";
  status = "open";
  priority = pos 1;
  issue_type = "task";
  design = "";
  assignee = "";
  labels = "sql" ∷ [];
  dependencies = [];
}

build_router_task_check-build_env_example :
    build_router_task_check
      (role_config_from_env (build_env shell go_agent))
      (agent_entry_from_env (build_env shell go_agent))
      (issue ∷ [])
      ("bd-1" ∷ [])
    ≡ build_router_task_check go_role entry_of (issue ∷ []) ("bd-1" ∷ [])
unfolding has join
build_router_task_check-build_env_example =
    build_router_task_check-build_env shell go_agent (issue ∷ []) ("bd-1" ∷ []) clean
      ((has-Lacks "," "go" refl, (has-Lacks "," "sql" refl, tt)), apart "go,sql" "" refl)
      ((has-Lacks "," "src/*" refl, tt), apart "src/*" "" refl) (omega arith, omega arith)
