-- ===== src/Examples/Configuration.antt =====
-- Runs of the loading, merging and validation of a configuration.
use loomcli.Common.{
  ◌≡◌, refl, Bool, true, Option, none, some, [], ◌∷◌, String, pos, sort_by, insert_by,
}
use loomcli.Config.{RestartPolicy, RoleConfig, AgentEntry, DaemonConfig}
use loomcli.Config.Overlay.{or_text}
use loomcli.Config.Validate.{
  has_errors, validate_agents, entry_error, validate_backend_name, validate_agent_entries,
  is_valid_worktree_name, validate_roles, role_config_issues, validate_restart_policy,
  validate_project_config,
}
use loomcli.Config.Load.{
  LoomConfig, ProjectFile, found, merged, load_daemon_config, default_settings,
  default_restart_policy,
}
use loomcli.Config.Load.Accepted.{IsAccepted, load_daemon_config-IsAccepted}

abbrev reviewer : RoleConfig
reviewer = record {
  description = "Reviews changes";
  prompt_file = "review.md";
  model = "";
  task_filter = "any";
  backend = "";
  path_patterns = none;
  skills = [];
  max_priority = none;
  max_concurrency = some (pos 1);
  read_only = true;
  allowed_tools = [];
  denied_tools = [];
}

abbrev agent_of : String → String → AgentEntry
agent_of w r = record {
  worktree = w;
  role = r;
  auto = true;
  backend = "";
  fallback_backends = [];
  path_patterns = none;
}

abbrev project : ProjectFile
project = record {
  version = pos 1;
  backend = "claude";
  daemon = none;
  roles = ("review", reviewer) ∷ [];
  agents = agent_of "falcon" "task" ∷ agent_of "nova" "review" ∷ [];
}

abbrev there : String → Bool
there path = true

abbrev daemon : DaemonConfig
daemon = record {
  backend = "claude";
  daemon = default_settings;
  roles = ("review", reviewer) ∷ [];
  agents = agent_of "falcon" "task" ∷ agent_of "nova" "review" ∷ [];
}

load_daemon_config-IsAccepted_example :
    (g' : Option LoomConfig) × (p' : Option ProjectFile) × (found none ≡ found g')
    × (found (some project) ≡ found p')
    × (daemon ≡ merged g' p')
    × IsAccepted daemon
unfolding load_daemon_config merged validate_project_config validate_agents entry_error has_errors
    validate_backend_name or_text validate_agent_entries is_valid_worktree_name validate_roles
    sort_by insert_by role_config_issues validate_restart_policy
load_daemon_config-IsAccepted_example =
    load_daemon_config-IsAccepted ("claude" ∷ []) there (found none) (found (some project)) daemon
      refl

abbrev hasty : RestartPolicy
hasty = record default_restart_policy { backoff_initial = some (pos 400) }
