-- ===== src/Expand.antt =====
-- internal/cli/config_envsubst.go: environment variables in the texts of a configuration. The
-- parameter `env` is os.LookupEnv. The loop of ExpandEnvVars takes fuel, one more than the text has
-- characters; a position is counted in bytes.
pub mod Loop
pub mod Escape
pub mod Nodes
use Prim.Native.Char.{Char, code, len_utf8}
use Prim.Native.String.{len, count, ◌++◌}
use loomcli.Common.{
  ℕ, zero, suc, ◌+◌, ◌-◌, Bool, true, false, Option, none, some, String, List, [], ◌∷◌, strip,
  contains, str_eq, is_some, one, ◌==◌, if◌then◌else◌,
}

pub data ExpandError : Type 0 where
  unclosed empty_braces nested empty_name : ℕ → ExpandError
  required : String → String → ExpandError
  not_set : String → ExpandError

pub data Expansion : Type 0 where
  expanded : String → Expansion
  failed : ExpandError → Expansion
  out_of_fuel : Expansion

-- What is written before the rest.
abbrev pub before : String → Expansion → Expansion
before s (expanded t) = expanded (s ++ t)
before s (failed e) = failed e
before s out_of_fuel = out_of_fuel

abbrev prepend : Char → Option (String × String) → Option (String × String)
prepend c none = none
prepend c (some (a, b)) = some (String.◌∷◌ c a, b)

abbrev deeper : ℕ → Char → ℕ
deeper depth c = if code c == b'{' then depth + 1 else if code c == b'}' then depth - 1 else depth

-- The text up to the brace that closes `depth` braces, and the text behind it.
unfoldable pub find_closing_brace : ℕ → String → Option (String × String)
find_closing_brace depth String.[] = none
find_closing_brace depth (String.◌∷◌ c s) =
    let rest = find_closing_brace (deeper depth c) s in
    if deeper depth c == 0 then some ("", s) else prepend c rest

abbrev found : Option String → Option (String × String) → Option (String × String)
found none later = later
found (some r) later = some ("", r)

-- `strings.Index`, and the slices on both sides of what is found.
unfoldable pub cut_at : String → String → Option (String × String)
unfolding strip
cut_at sub String.[] = found (strip sub "") none
cut_at sub (String.◌∷◌ c s) = found (strip sub (String.◌∷◌ c s)) (prepend c (cut_at sub s))

pub data Mode : Type 0 where
  required_mode default_mode error_mode : Mode

pub record Expr : Type 0 where
  pub var_name : String
  pub mod_val : String
  pub mode : Mode

expr_of : String → Mode → String × String → Expr
expr_of expr mode (name, value) = record { var_name = name; mod_val = value; mode = mode }

error_expr : String → Option (String × String) → Expr
unfolding expr_of
error_expr expr none = record { var_name = expr; mod_val = ""; mode = required_mode }
error_expr expr (some p) = expr_of expr error_mode p

default_expr : String → Option (String × String) → Expr
unfolding expr_of error_expr cut_at
default_expr expr none = error_expr expr (cut_at ":?" expr)
default_expr expr (some p) = expr_of expr default_mode p

unfoldable pub parse_expr : String → Expr
unfolding default_expr cut_at
parse_expr expr = default_expr expr (cut_at ":-" expr)

-- The `switch` on the mode, for a variable without a value that is not empty.
by_mode : Option String → Expr → Expansion
by_mode val e = elim e.mode [
  | default_mode ↦ expanded e.mod_val
  | error_mode ↦ failed (required e.var_name e.mod_val)
  | required_mode ↦ if is_some val then expanded "" else failed (not_set e.var_name)
]

abbrev value_of : Option String → String
value_of none = ""
value_of (some v) = v

resolve : (String → Option String) → ℕ → Expr → Expansion
unfolding by_mode
resolve env start e =
    if str_eq e.var_name ""
    then failed (empty_name start)
    else if str_eq (value_of (env e.var_name)) ""
    then by_mode (env e.var_name) e
    else expanded (value_of (env e.var_name))

unfoldable pub expand_expr : (String → Option String) → String → ℕ → Expansion
unfolding resolve parse_expr contains
expand_expr env expr start =
    if str_eq expr ""
    then failed (empty_braces start)
    else if contains expr "${"
    then failed (nested start)
    else resolve env start (parse_expr expr)

-- The error of an expression, or its value before the rest.
abbrev pub followed_by : Expansion → Expansion → Expansion
followed_by (expanded t) rest = before t rest
followed_by (failed e) rest = failed e
followed_by out_of_fuel rest = out_of_fuel

module _ (env : String → Option String) (continue : ℕ → String → Expansion) where
  unfoldable pub after_open : ℕ → Option (String × String) → Expansion
  unfolding expand_expr
  after_open pos none = failed (unclosed pos)
  after_open pos (some (expr, rest)) =
      followed_by (expand_expr env expr pos) (continue (pos + 3 + len expr) rest)

  -- Behind a dollar sign.
  unfoldable pub after_dollar : ℕ → String → Expansion
  unfolding after_open find_closing_brace
  after_dollar pos String.[] = before "$" (continue (pos + 1) "")
  after_dollar pos (String.◌∷◌ d s) = elim (code d == b'$') [
    | true ↦ before "$" (continue (pos + 2) s)
    | false ↦ elim (code d == b'{') [
      | true ↦ after_open pos (find_closing_brace 1 s)
      | false ↦ before "$" (continue (pos + 1) (String.◌∷◌ d s))
    ]
  ]

-- The loop of ExpandEnvVars at a position, on the text from there on.
unfoldable pub expand_from : (String → Option String) → ℕ → ℕ → String → Expansion
unfolding after_dollar
expand_from env zero pos s = out_of_fuel
expand_from env (suc fuel) pos String.[] = expanded ""
expand_from env (suc fuel) pos (String.◌∷◌ c s) = elim (code c == b'$') [
  | true ↦ after_dollar env (expand_from env fuel) pos s
  | false ↦ before (one c) (expand_from env fuel (pos + len_utf8 c) s)
]

unfoldable pub expand_env_vars : (String → Option String) → String → Expansion
unfolding expand_from
expand_env_vars env s = expand_from env (count s + 1) 0 s
