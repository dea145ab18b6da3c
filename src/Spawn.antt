-- ===== src/Spawn.antt =====
-- internal/cli/daemon_spawn.go, envfilter.go and the readers of the environment in task_router.go:
-- how the daemon starts an agent's process, and what that process reads back. The environment of
-- the daemon is an argument, and so is `resolve`, the daemon's path of the events directory.
pub mod Env
pub mod Lookup
pub mod RoundTrip
pub mod Routing
use Prim.Native.String.{◌++◌}
use loomcli.Common.{
  Bool, true, false, not, Option, none, some, List, [], ◌∷◌, ◌++◌ as append, String, ℤ, str_eq,
  join, split, itoa, atoi, if◌then◌else◌,
}
use loomcli.Config.{RoleConfig, AgentEntry}
use loomcli.Config.Validate.{built_in_role}
use loomcli.Spawn.Env.{entry, present, filter_env, getenv}

-- What `buildCommand` reads.
pub record Agent : Type 0 where
  pub entry : AgentEntry
  pub role_config : RoleConfig
  pub worktree_path : String
  pub assigned_epic_id : String
  pub backend : String  -- of getEffectiveBackend
  pub events_dir : String  -- of resolveDaemonPath

pub record Command : Type 0 where
  pub args : List String
  pub dir : String
  pub env : List String

option : String → String → List String
option flag value = if str_eq value "" then [] else flag ∷ value ∷ []

unfoldable pub build_args : Agent → List String
unfolding option
build_args a =
    if built_in_role a.entry.role
    then append (a.entry.role ∷ a.worktree_path ∷ "--auto" ∷ "--daemon-mode" ∷ [])
        (append (option "--backend" a.backend) (option "--parent" a.assigned_epic_id))
    else append
        ("agent" ∷ a.worktree_path ∷ "--prompt" ∷ a.role_config.prompt_file ∷ "--auto"
          ∷ "--daemon-mode" ∷ [])
        (append (option "--task-filter" a.role_config.task_filter)
          (append (option "--backend" a.backend) (option "--parent" a.assigned_epic_id)))

-- The value of a list, if it has elements, of a number and of a text that are set.
abbrev pub joined : List String → Option String
joined [] = none
joined (w ∷ ws) = some (join "," (w ∷ ws))

abbrev pub shown : Option ℤ → Option String
shown none = none
shown (some n) = some (itoa n)

abbrev pub patterns : Option (List String) → Option String
patterns none = none
patterns (some ps) = joined ps

-- The variables that are set, in order.
abbrev pub variables : Agent → List (String × Option String)
variables a =
    ("BD_ACTOR", some a.entry.worktree)
    ∷ ("LOOM_WORKTREE_PATH", some a.worktree_path)
    ∷ ("LOOM_EVENTS_DIR", some a.events_dir)
    ∷ ("LOOM_ALLOWED_TOOLS", joined a.role_config.allowed_tools)
    ∷ ("LOOM_DENIED_TOOLS", joined a.role_config.denied_tools)
    ∷ ("LOOM_READ_ONLY", if a.role_config.read_only then some "1" else none)
    ∷ ("LOOM_ROLE_SKILLS", joined a.role_config.skills)
    ∷ ("LOOM_ROLE_PATH_PATTERNS", patterns a.role_config.path_patterns)
    ∷ ("LOOM_ROLE_MAX_PRIORITY", shown a.role_config.max_priority)
    ∷ (
      "LOOM_ROLE_TASK_FILTER",
      if str_eq a.role_config.task_filter "" then none else some a.role_config.task_filter,
    )
    ∷ ("LOOM_ROLE", some a.entry.role)
    ∷ ("LOOM_AGENT_PATH_PATTERNS", patterns a.entry.path_patterns)
    ∷ []

unfoldable pub build_env : List String → Agent → List String
unfolding present filter_env join itoa
build_env environ a = append (filter_env environ) (present (variables a))

unfoldable pub build_command : List String → Agent → Command
unfolding build_args build_env
build_command environ a = record {
  args = build_args a;
  dir = a.worktree_path;
  env = build_env environ a;
}

-- `strings.Split(v, ",")` of a variable that is not empty.
listed : String → List String
unfolding split
listed v = if str_eq v "" then [] else split "," v

-- A nil slice if the variable is empty.
listed_patterns : String → Option (List String)
unfolding split
listed_patterns v = if str_eq v "" then none else some (split "," v)

abbrev pub unset_role : RoleConfig
unset_role = record {
  description = "";
  prompt_file = "";
  model = "";
  task_filter = "";
  backend = "";
  path_patterns = none;
  skills = [];
  max_priority = none;
  max_concurrency = none;
  read_only = false;
  allowed_tools = [];
  denied_tools = [];
}

unfoldable pub role_config_from_env : List String → RoleConfig
unfolding getenv listed listed_patterns atoi
role_config_from_env env = record unset_role {
  skills = listed (getenv env "LOOM_ROLE_SKILLS");
  path_patterns = listed_patterns (getenv env "LOOM_ROLE_PATH_PATTERNS");
  max_priority =
      let v = getenv env "LOOM_ROLE_MAX_PRIORITY" in if str_eq v "" then none else atoi v;
  task_filter = getenv env "LOOM_ROLE_TASK_FILTER";
}

unfoldable pub agent_entry_from_env : List String → AgentEntry
unfolding getenv listed_patterns
agent_entry_from_env env = record {
  worktree = getenv env "BD_ACTOR";
  role = getenv env "LOOM_ROLE";
  auto = false;
  backend = "";
  fallback_backends = [];
  path_patterns = listed_patterns (getenv env "LOOM_AGENT_PATH_PATTERNS");
}
