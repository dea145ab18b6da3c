-- ===== src/Config/Types.antt =====
-- The records of internal/cli/daemon_config.go.
use loomcli.Common.{ℕ, Bool, Option, List, String, ℤ}

-- internal/cli/daemon_config.go, RestartPolicy.
pub record RestartPolicy : Type 0 where
  pub max_retries : Option ℤ
  pub backoff_initial : Option ℤ
  pub backoff_max : Option ℤ
  pub output_timeout : Option ℤ
  pub rate_limit_backoff : Option ℤ
  pub rate_limit_max_wait : Option ℤ
  pub rate_limit_no_count : Option Bool
  pub timeout_backoff : Option ℤ
  pub no_work_backoff : Option ℤ
  pub idle_poll_interval : Option ℤ

pub record OTelDaemonConfig : Type 0 where
  pub enabled : Bool
  pub endpoint : String
  pub protocol : String
  pub service_name : String
  pub sample_rate : ℕ  -- the bits of a float64
  pub flush_interval_ms : ℤ
  pub traces : Option Bool
  pub metrics : Option Bool

pub record DaemonSettings : Type 0 where
  pub pid_file : String
  pub log_dir : String
  pub events_dir : String
  pub restart_policy : RestartPolicy
  pub max_agents : Option ℤ
  pub redis_url : String
  pub api_key : String
  pub jwt_key : String
  pub otel : Option OTelDaemonConfig

pub record RoleConfig : Type 0 where
  pub description : String
  pub prompt_file : String
  pub model : String
  pub task_filter : String
  pub backend : String
  pub path_patterns : Option (List String)
  pub skills : List String
  pub max_priority : Option ℤ
  pub max_concurrency : Option ℤ
  pub read_only : Bool
  pub allowed_tools : List String
  pub denied_tools : List String

pub record AgentEntry : Type 0 where
  pub worktree : String
  pub role : String
  pub auto : Bool
  pub backend : String
  pub fallback_backends : List String
  pub path_patterns : Option (List String)

pub record DaemonConfig : Type 0 where
  pub backend : String
  pub daemon : DaemonSettings
  pub roles : List (String × RoleConfig)
  pub agents : List AgentEntry
