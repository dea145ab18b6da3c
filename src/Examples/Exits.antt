-- ===== src/Examples/Exits.antt =====
-- Runs of the restart, backoff and failover code after exits of an agent.
use loomcli.Common.{
  ◌≡◌, inl, inr, refl, true, false, none, some, List, [], ◌∷◌, ℤ, pos, ◌≤ℤ◌, str_eq, arith,
}
use loomcli.AgentError.{AgentError, ErrorClass, no_work, rate_limited, model_not_found, transient}
use loomcli.AgentError.Classify.{GoPackages}
use loomcli.Config.{RestartPolicy, RoleConfig, AgentEntry, DaemonConfig}
use loomcli.Config.Load.{default_restart_policy, default_settings}
use loomcli.Restart.{AgentProcess, seconds, compute_backoff}
use loomcli.Restart.Backoff.{IsBounded, cap_of, compute_backoff_within}
use loomcli.Restart.Retry.{AllCounted, AllPatient, survives}
use loomcli.Restart.Failover.{survives_missing_models}

abbrev pub rp : RestartPolicy
rp = default_restart_policy

abbrev entry : AgentEntry
entry = record {
  worktree = "bumblebee";
  role = "task";
  auto = true;
  backend = "claude";
  fallback_backends = "codex" ∷ "opencode" ∷ [];
  path_patterns = none;
}

abbrev role : RoleConfig
role = record {
  description = "";
  prompt_file = "";
  model = "";
  task_filter = "";
  backend = "";
  path_patterns = none;
  skills = [];
  max_priority = none;
  max_concurrency = none;
  read_only = false;
  allowed_tools = [];
  denied_tools = [];
}

abbrev pub daemon : DaemonConfig
daemon = record { backend = "claude"; daemon = default_settings; roles = []; agents = entry ∷ [] }

abbrev pub agent : AgentProcess
agent = record {
  entry = entry;
  role_config = role;
  restart_count = 0;
  last_start = 0;
  last_exit_code = pos 0;
  assigned_epic_id = "";
  last_error = none;
  rate_retry_count = 0;
  last_no_work = false;
  current_backend_idx = 0;
}

abbrev error_of : ErrorClass → ℤ → AgentError
error_of c r = record {
  class = c;
  exit_code = pos 1;
  message = "m";
  backend = "claude";
  retry_after = r;
}

abbrev missing : AgentError
missing = error_of model_not_found (pos 0)

abbrev limited : AgentError
limited = error_of rate_limited (pos 45_000_000_000)

abbrev crash : AgentError
crash = error_of transient (pos 0)

survives_missing_models_example :
    survives rp agent 0 (missing ∷ missing ∷ missing ∷ missing ∷ missing ∷ missing ∷ []) ≡ false
survives_missing_models_example =
    survives_missing_models rp agent 0 3
      (missing ∷ missing ∷ missing ∷ missing ∷ missing ∷ missing ∷ []) refl refl refl
      (refl, (refl, (refl, (refl, (refl, (refl, tt))))))

abbrev three_crashes : List AgentError
three_crashes = crash ∷ crash ∷ crash ∷ []

three_crashes-AllCounted : AllCounted rp three_crashes
three_crashes-AllCounted = ground arith

idle_twice-AllPatient : AllPatient rp (error_of no_work (pos 0) ∷ limited ∷ [])
idle_twice-AllPatient = (inl refl, (inr (refl, refl), tt))

abbrev after_limits : AgentProcess
after_limits = record agent { last_error = some limited; rate_retry_count = 4; restart_count = 2 }

default-IsBounded : IsBounded rp
default-IsBounded = ground arith

compute_backoff_within_example :
    (pos 0 ≤ℤ compute_backoff rp after_limits)
    × (compute_backoff rp after_limits ≤ℤ seconds (cap_of rp after_limits.last_error))
compute_backoff_within_example = compute_backoff_within rp after_limits default-IsBounded

-- Finds a pattern that is the whole log.
abbrev pub literal : GoPackages
literal = record { match_string = str_eq; find_submatch = λ re s. none; format_int = λ n. "1" }
