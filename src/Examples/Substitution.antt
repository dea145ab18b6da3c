-- ===== src/Examples/Substitution.antt =====
-- Expansions of internal/cli/config_envsubst.go at concrete texts.
use Prim.Native.String.{◌++◌}
use loomcli.Common.{
  ◌≡◌, ◌≢◌, refl, Option, none, some, String, str_eq, if◌then◌else◌, arith, has, has-Lacks, apart,
}
use loomcli.Expand.{expanded, failed, required, out_of_fuel, expand_from, expand_env_vars}
use loomcli.Expand.Loop.{expand_env_vars_ends}
use loomcli.Expand.Escape.{escape, expand_env_vars_variable}

abbrev home : String → Option String
home name = if str_eq name "HOME" then some "/root/$x" else none

default_and_error :
    (expand_env_vars home "a$$b${HOME}-${PORT:-{80}}$" ≡ expanded "a$b/root/$x-{80}$")
    × (expand_env_vars home "${KEY:?set it}" ≡ failed (required "KEY" "set it"))
unfolding expand_env_vars
default_and_error = (refl, refl)

expand_env_vars_ends_example :
    (expand_env_vars home "${HOME}/$" ≢ out_of_fuel)
    × (expand_from home 20 0 "${HOME}/$" ≡ expand_env_vars home "${HOME}/$")
expand_env_vars_ends_example = expand_env_vars_ends home 20 "${HOME}/$" (omega arith)

expand_env_vars_variable_example :
    expand_env_vars home (escape "$" ++ "${" ++ "HOME" ++ "}" ++ escape "/bin")
    ≡ expanded ("$" ++ "/root/$x" ++ "/bin")
unfolding has
expand_env_vars_variable_example =
    expand_env_vars_variable home "HOME" "/root/$x" "$" "/bin"
      (
        apart "HOME" "" refl,
        has-Lacks "$" "HOME" refl,
        has-Lacks "{" "HOME" refl,
        has-Lacks "}" "HOME" refl,
        has-Lacks ":" "HOME" refl,
      )
      refl (apart "/root/$x" "" refl)
