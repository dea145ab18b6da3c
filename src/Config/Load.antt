-- ===== src/Config/Load.antt =====
-- LoadDaemonConfig of internal/cli/daemon_config.go: defaults, then global, then local settings,
-- then validation. What reading and parsing the two files gives is an argument.
pub mod Accepted
use loomcli.Common.{
  ◌≡◌, Bool, Option, none, some, List, [], ◌∷◌, String, ℤ, pos, lookup, insert, if◌then◌else◌,
}
use loomcli.Config.Types.{RestartPolicy, RoleConfig, AgentEntry, DaemonSettings, DaemonConfig}
use loomcli.Config.Overlay.{overlay_daemon_settings, or_text}
use loomcli.Config.Validate.{
  AgentsError, Issue, has_errors, validate_agents, validate_project_config,
}

-- The fields of ~/.loom/config.yaml that are read here.
pub record LoomConfig : Type 0 where
  pub backend : String
  pub daemon : Option DaemonSettings

-- loom.yaml.
pub record ProjectFile : Type 0 where
  pub version : ℤ
  pub backend : String
  pub daemon : Option DaemonSettings
  pub roles : List (String × RoleConfig)
  pub agents : List AgentEntry

-- What reading a file gives: an error, or its contents if it exists.
pub data Loaded (A : Type 0) : Type 0 where
  failed : String → Loaded A
  found : Option A → Loaded A

pub data LoadError : Type 0 where
  loading_global loading_project : String → LoadError
  agents_rejected : AgentsError → LoadError
  validation_failed : List Issue → LoadError

pub data LoadResult : Type 0 where
  config : DaemonConfig → LoadResult
  error : LoadError → LoadResult

abbrev pub default_restart_policy : RestartPolicy
default_restart_policy = record {
  max_retries = some (pos 3);
  backoff_initial = some (pos 2);
  backoff_max = some (pos 300);
  output_timeout = some (pos 900);
  rate_limit_backoff = none;
  rate_limit_max_wait = none;
  rate_limit_no_count = none;
  timeout_backoff = none;
  no_work_backoff = none;
  idle_poll_interval = none;
}

abbrev pub default_settings : DaemonSettings
default_settings = record {
  pid_file = ".loom/daemon.pid";
  log_dir = ".loom/logs";
  events_dir = ".loom/events";
  restart_policy = default_restart_policy;
  max_agents = some (pos 20);
  redis_url = "";
  api_key = "";
  jwt_key = "";
  otel = none;
}

abbrev default_config : DaemonConfig
default_config = record { backend = ""; daemon = default_settings; roles = []; agents = [] }

overlay? : DaemonSettings → Option DaemonSettings → DaemonSettings
overlay? dst none = dst
overlay? dst (some src) = overlay_daemon_settings dst src

overlay_global : DaemonConfig → Option LoomConfig → DaemonConfig
overlay_global dc none = dc
overlay_global dc (some g) = record dc {
  backend = or_text dc.backend g.backend;
  daemon = overlay? dc.daemon g.daemon;
}

insert_roles : List (String × RoleConfig) → List (String × RoleConfig) → List (String × RoleConfig)
insert_roles dst [] = dst
insert_roles dst ((k, v) ∷ rs) = insert_roles (insert k v dst) rs

overlay_project : DaemonConfig → Option ProjectFile → DaemonConfig
overlay_project dc none = dc
overlay_project dc (some p) = record {
  backend = or_text dc.backend p.backend;
  daemon = overlay? dc.daemon p.daemon;
  roles = insert_roles dc.roles p.roles;
  agents = p.agents;
}

unfoldable pub merged : Option LoomConfig → Option ProjectFile → DaemonConfig
unfolding overlay_global overlay_project insert_roles overlay?
merged g p = overlay_project (overlay_global default_config g) p

check_agents : List String → (String → Bool) → DaemonConfig → Option AgentsError → LoadResult
check_agents available exists dc (some e) = error (agents_rejected e)
check_agents available exists dc none =
    let issues = validate_project_config available exists dc in
    if has_errors issues then error (validation_failed issues) else config dc

with_project : List String → (String → Bool) → Option LoomConfig → Loaded ProjectFile → LoadResult
with_project available exists g (failed e) = error (loading_project e)
with_project available exists g (found p) =
    let dc = merged g p in
    check_agents available exists dc (validate_agents dc.agents dc.daemon.max_agents)

unfoldable pub load_daemon_config :
    List String → (String → Bool) → Loaded LoomConfig → Loaded ProjectFile → LoadResult
unfolding with_project check_agents
load_daemon_config available exists (failed e) project = error (loading_global e)
load_daemon_config available exists (found g) project = with_project available exists g project

pub resolve_role : DaemonConfig → String → Option RoleConfig
resolve_role dc name = lookup name dc.roles
