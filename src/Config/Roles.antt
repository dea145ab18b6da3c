-- ===== src/Config/Roles.antt =====
-- internal/cli/daemon_role_merge.go: the role configuration of an agent. File names are resolved
-- and looked up by two parameters.
use loomcli.Common.{
  ℕ, ◌≡◌, ◌↔◌, eq_iff, refl, Bool, true, false, Option, none, some, List, [], ◌∷◌, String, str_eq,
  if◌then◌else◌, arith,
}
use loomcli.Config.Types.{RoleConfig, DaemonConfig}
use loomcli.Config.Overlay.{or_keep, or_text}
use loomcli.Config.Validate.{built_in_role}
use loomcli.Config.Load.{resolve_role}
use Prim.Native.String.{◌++◌ as str_append}

or_list : List String → List String → List String
or_list dst [] = dst
or_list dst (x ∷ xs) = x ∷ xs

-- `len(overlay.PathPatterns) > 0`, where nil and empty count alike.
or_patterns : Option (List String) → Option (List String) → Option (List String)
or_patterns dst none = dst
or_patterns dst (some []) = dst
or_patterns dst (some (x ∷ xs)) = some (x ∷ xs)

or_flag : Bool → Bool → Bool
or_flag dst src = if src then true else dst

unfoldable pub merge_role_config : RoleConfig → RoleConfig → RoleConfig
unfolding or_list or_patterns or_flag
merge_role_config base overlay = record {
  description = or_text base.description overlay.description;
  prompt_file = base.prompt_file;
  model = or_text base.model overlay.model;
  task_filter = or_text base.task_filter overlay.task_filter;
  backend = or_text base.backend overlay.backend;
  path_patterns = or_patterns base.path_patterns overlay.path_patterns;
  skills = or_list base.skills overlay.skills;
  max_priority = or_keep base.max_priority overlay.max_priority;
  max_concurrency = or_keep base.max_concurrency overlay.max_concurrency;
  read_only = or_flag base.read_only overlay.read_only;
  allowed_tools = or_list base.allowed_tools overlay.allowed_tools;
  denied_tools = or_list base.denied_tools overlay.denied_tools;
}

pub data RoleError : Type 0 where
  role_not_found : ℕ → String → RoleError
  missing_prompt_file : ℕ → String → RoleError
  prompt_file_not_found : ℕ → String → RoleError

pub data Resolved : Type 0 where
  resolved : RoleConfig → Resolved
  rejected : RoleError → Resolved

built_in_config : String → RoleConfig
built_in_config name = record {
  description = str_append (str_append "Built-in " name) " agent";
  prompt_file = "";
  model = "";
  task_filter = "";
  backend = "";
  path_patterns = none;
  skills = [];
  max_priority = none;
  max_concurrency = none;
  read_only = false;
  allowed_tools = [];
  denied_tools = [];
}

built_in : String → Option RoleConfig → Resolved
unfolding built_in_config
built_in name none = resolved (built_in_config name)
built_in name (some user) = resolved (merge_role_config (built_in_config name) user)

custom : (String → String) → (String → Bool) → String → ℕ → Option RoleConfig → Resolved
custom prompt_path exists name i none = rejected (role_not_found i name)
custom prompt_path exists name i (some rc) =
    if str_eq rc.prompt_file ""
    then rejected (missing_prompt_file i name)
    else if exists (prompt_path rc.prompt_file)
    then resolved (record rc { prompt_file = prompt_path rc.prompt_file })
    else rejected (prompt_file_not_found i (prompt_path rc.prompt_file))

-- `prompt_path` joins a relative path to the project's directory; `exists` is os.Stat.
unfoldable pub resolve_role_config :
    (String → String) → (String → Bool) → DaemonConfig → String → ℕ → Resolved
unfolding built_in custom
resolve_role_config prompt_path exists dc name i =
    if built_in_role name
    then built_in name (resolve_role dc name)
    else custom prompt_path exists name i (resolve_role dc name)

abbrev pub filter_of : Option RoleConfig → String
filter_of none = ""
filter_of (some rc) = rc.task_filter

-- A role that is not built in is resolved exactly if it is defined with a prompt file that exists, and
-- then with all that its definition says and the resolved path of that file.
pub resolve_role_config_custom :
    (prompt_path : String → String) (exists : String → Bool) (dc : DaemonConfig) (name : String)
    (i : ℕ) (rc : RoleConfig)
    → built_in_role name ≡ false
    → (resolve_role_config prompt_path exists dc name i ≡ resolved rc) ↔ (
        (def : RoleConfig) × (resolve_role dc name ≡ some def)
        × (str_eq def.prompt_file "" ≡ false)
        × (exists (prompt_path def.prompt_file) ≡ true)
        × (rc ≡ record def { prompt_file = prompt_path def.prompt_file }))
unfolding resolve_role_config
resolve_role_config_custom prompt_path exists dc name i rc b =
    (λ h. custom_resolved (resolve_role dc name) (ground arith), λ (def, d, p, e, q). ground arith)
  where
    custom_resolved :
        (o : Option RoleConfig)
        → custom prompt_path exists name i o ≡ resolved rc
        → (def : RoleConfig) × (o ≡ some def)
          × (str_eq def.prompt_file "" ≡ false)
          × (exists (prompt_path def.prompt_file) ≡ true)
          × (rc ≡ record def { prompt_file = prompt_path def.prompt_file })
    custom_resolved none h = absurd (ground arith)
    custom_resolved (some def) h = (def, refl, ground arith, ground arith, ground arith)

-- A built-in role is always resolved, with no prompt file, and with the task filter of its entry in
-- the configuration if it has one.
pub resolve_role_config_built_in :
    (prompt_path : String → String) (exists : String → Bool) (dc : DaemonConfig) (name : String)
    (i : ℕ)
    → built_in_role name ≡ true
    → (rc : RoleConfig) × (resolve_role_config prompt_path exists dc name i ≡ resolved rc)
      × (rc.prompt_file ≡ "")
      × (rc.task_filter ≡ filter_of (resolve_role dc name))
unfolding resolve_role_config merge_role_config or_text
resolve_role_config_built_in prompt_path exists dc name i b = split (resolve_role dc name)
  where
    split :
        (o : Option RoleConfig)
        → (rc : RoleConfig) × ((if built_in_role name
              then built_in name o
              else custom prompt_path exists name i o)
            ≡ resolved rc)
          × (rc.prompt_file ≡ "")
          × (rc.task_filter ≡ filter_of o)
    split none = (built_in_config name, rw b refl, refl, refl)
    split (some user) = (
      merge_role_config (built_in_config name) user,
      rw b refl,
      refl,
      ground (arith, eq_iff user.task_filter ""),
    )
