-- ===== src/Spawn/Env.antt =====
-- internal/cli/envfilter.go, and environments as lists of texts "NAME=value".
use Prim.Native.String.{◌++◌}
use loomcli.Common.{
  Bool, false, ◌||◌, Option, none, some, List, [], ◌∷◌, String, str_eq, any, is_some, strip, cut,
  if◌then◌else◌,
}

abbrev allowlist_exact : List String
allowlist_exact =
    "PATH" ∷ "HOME" ∷ "PWD" ∷ "TERM" ∷ "USER" ∷ "SHELL" ∷ "LOGNAME" ∷ "TMPDIR" ∷ "TZ" ∷ "COLUMNS"
    ∷ "LINES" ∷ "LANG" ∷ "LC_ALL" ∷ "LC_CTYPE" ∷ "LC_MESSAGES" ∷ "XDG_CONFIG_HOME" ∷ "XDG_DATA_HOME"
    ∷ "XDG_RUNTIME_DIR" ∷ "SSH_AUTH_SOCK" ∷ "GIT_SSH_COMMAND" ∷ "GIT_TERMINAL_PROMPT"
    ∷ "GIT_AUTHOR_NAME" ∷ "GIT_AUTHOR_EMAIL" ∷ "GIT_COMMITTER_NAME" ∷ "GIT_COMMITTER_EMAIL"
    ∷ "HTTP_PROXY" ∷ "HTTPS_PROXY" ∷ "NO_PROXY" ∷ "http_proxy" ∷ "https_proxy" ∷ "no_proxy"
    ∷ "NO_COLOR" ∷ "FORCE_COLOR" ∷ "CLICOLOR" ∷ "CLICOLOR_FORCE" ∷ "ANTHROPIC_API_KEY"
    ∷ "OPENAI_API_KEY" ∷ "EDITOR" ∷ "VISUAL" ∷ []

abbrev allowlist_prefixes : List String
allowlist_prefixes = "LOOM_" ∷ "BD_" ∷ "BEADS_" ∷ []

-- The name of an entry that has a value, by the allowlist.
unfoldable pub allowed : String → Bool
unfolding strip
allowed name =
    any (λ n. str_eq n name) allowlist_exact || any (λ p. is_some (strip p name)) allowlist_prefixes

unfoldable pub allowed_entry : String × Option String → Bool
unfolding allowed
allowed_entry (name, none) = false
allowed_entry (name, some value) = allowed name

unfoldable pub filter_env : List String → List String
unfolding allowed_entry cut
filter_env [] = []
filter_env (e ∷ es) =
    let rest = filter_env es in if allowed_entry (cut "=" e) then e ∷ rest else rest

-- `fmt.Sprintf("NAME=%s", value)`
abbrev pub entry : String → String → String
entry name value = name ++ "=" ++ value

-- The entries of the variables that are set.
unfoldable pub present : List (String × Option String) → List String
present [] = []
present ((name, none) ∷ vs) = present vs
present ((name, some value) ∷ vs) = entry name value ∷ present vs

unfoldable pub named : String → String × Option String → Option String
named name (n, none) = none
named name (n, some value) = if str_eq n name then some value else none

-- What os.LookupEnv gives in a process that os/exec starts: the last entry of the name.
abbrev pub or_earlier : Option String → Option String → Option String
or_earlier none earlier = earlier
or_earlier (some v) earlier = some v

unfoldable pub lookup_env : List String → String → Option String
unfolding named cut
lookup_env [] name = none
lookup_env (e ∷ es) name = or_earlier (lookup_env es name) (named name (cut "=" e))

abbrev pub value_or_empty : Option String → String
value_or_empty none = ""
value_or_empty (some v) = v

unfoldable pub getenv : List String → String → String
unfolding lookup_env
getenv env name = value_or_empty (lookup_env env name)
