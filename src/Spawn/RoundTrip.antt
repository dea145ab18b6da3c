-- ===== src/Spawn/RoundTrip.antt =====
-- What an agent's process reads back of the role that internal/cli/daemon_spawn.go hands it.
use loomcli.Common.{
  ◌≡◌, ◌≢◌, refl, ap, ◌∙◌, sym, true, false, Option, none, some, List, [], ◌∷◌, String, ℤ, arith,
  str_eq, str_ne, AllLack, has, eq_iff, join, split, split-join, itoa, atoi, atoi-itoa,
  if◌then◌else◌, pos, negsuc, ◌<ℤ◌, ◌≤ℤ◌, two63, ◌-◌,
}
use loomcli.Spawn.{
  Agent, variables, build_env, joined, patterns, shown, role_config_from_env, agent_entry_from_env,
  unset_role, listed, listed_patterns,
}
use loomcli.Spawn.Env.{allowed, lookup_env, getenv, value_or_empty, or_earlier, filter_env, present}
use loomcli.Spawn.Lookup.{lookup_env-append, lookup_env-present, lookup_env-filter_env, latest}

-- A variable that buildCommand may set hides the daemon's own.
getenv-build_env :
    (environ : List String) (a : Agent) (name : String)
    → allowed name ≡ true
    → getenv (build_env environ a) name
      ≡ value_or_empty (or_earlier (latest (variables a) name) (lookup_env environ name))
unfolding getenv build_env has
getenv-build_env environ a name h =
    rw
      (
        lookup_env-append (filter_env environ) (present (variables a)) name,
        lookup_env-present (variables a) name refl,
        lookup_env-filter_env environ name,
        h,
      )
      refl

-- Commas separate the texts of a list, and the empty text stands for no list.
abbrev pub IsSeparable : List String → Type 0
IsSeparable [] = Unit {0}
IsSeparable (w ∷ ws) = AllLack "," (w ∷ ws) × (join "," (w ∷ ws) ≢ "")

abbrev pub PatternsSeparable : Option (List String) → Type 0
PatternsSeparable none = Unit {0}
PatternsSeparable (some []) = ⊥
PatternsSeparable (some (w ∷ ws)) = IsSeparable (w ∷ ws)

listed-joined : (xs : List String) → IsSeparable xs → listed (value_or_empty (joined xs)) ≡ xs
unfolding listed
listed-joined [] h = refl
listed-joined (w ∷ ws) h = rw (str_ne (join "," (w ∷ ws)) "" h.1) (split-join "," w ws h.0)

listed_patterns-patterns :
    (p : Option (List String))
    → PatternsSeparable p
    → listed_patterns (value_or_empty (patterns p)) ≡ p
unfolding listed_patterns
listed_patterns-patterns none h = refl
listed_patterns-patterns (some []) h = absurd h
listed_patterns-patterns (some (w ∷ ws)) h =
    rw (str_ne (join "," (w ∷ ws)) "" h.1) (ap some (split-join "," w ws h.0))

or_earlier_unset : (o : Option String) → or_earlier o none ≡ o
or_earlier_unset none = refl
or_earlier_unset (some v) = refl

-- A variable that the daemon itself does not have.
getenv-build_env_unset :
    (environ : List String) (a : Agent) (name : String)
    → allowed name ≡ true
    → lookup_env environ name ≡ none
    → getenv (build_env environ a) name ≡ value_or_empty (latest (variables a) name)
getenv-build_env_unset environ a name h u =
    getenv-build_env environ a name h ∙ rw (u, or_earlier_unset (latest (variables a) name)) refl

priority_read : (m : Option ℤ) → Option ℤ
unfolding itoa atoi
priority_read m = let v = value_or_empty (shown m) in if str_eq v "" then none else atoi v

abbrev pub PriorityFits : Option ℤ → Type 0
PriorityFits none = Unit {0}
PriorityFits (some z) = (z <ℤ pos two63) × (negsuc (two63 - 1) ≤ℤ z)

itoa_ne : (z : ℤ) → atoi (itoa z) ≡ some z → itoa z ≢ ""
unfolding atoi
itoa_ne z e f = let c : some z ≡ none = sym e ∙ ap atoi f in absurd (cc c)

priority_read_lem : (m : Option ℤ) → PriorityFits m → priority_read m ≡ m
unfolding priority_read
priority_read_lem none h = refl
priority_read_lem (some z) h =
    rw (str_ne (itoa z) "" (itoa_ne z (atoi-itoa z h.0 h.1))) (atoi-itoa z h.0 h.1)

filter_read : (f : String) → value_or_empty (if str_eq f "" then none else some f) ≡ f
filter_read f = ground (arith, eq_iff f "")

-- The daemon's own environment, which it hands on, has none of the variables that are not always set.
pub record IsClean (environ : List String) : Type 0 where
  pub skills : lookup_env environ "LOOM_ROLE_SKILLS" ≡ none
  pub path_patterns : lookup_env environ "LOOM_ROLE_PATH_PATTERNS" ≡ none
  pub max_priority : lookup_env environ "LOOM_ROLE_MAX_PRIORITY" ≡ none
  pub task_filter : lookup_env environ "LOOM_ROLE_TASK_FILTER" ≡ none
  pub agent_patterns : lookup_env environ "LOOM_AGENT_PATH_PATTERNS" ≡ none

constraints :
    (skills : List String) {ps qs : Option (List String)} {m n : Option ℤ} {f g : String}
    → ps ≡ qs
    → m ≡ n
    → f ≡ g
    → record unset_role { skills = skills; path_patterns = ps; max_priority = m; task_filter = f }
      ≡ record unset_role { skills = skills; path_patterns = qs; max_priority = n; task_filter = g }
constraints skills p m f = cc (p, m, f)

-- What the process that is started reads back is the role's routing constraints, if the daemon's own
-- environment has none of the variables, no skill or pattern has a comma, no list is written as the
-- empty text, no list of patterns is empty but set, and the priority fits 64 bits.
pub role_config_from_env-build_env :
    (environ : List String) (a : Agent)
    → IsClean environ
    → IsSeparable a.role_config.skills
    → PatternsSeparable a.role_config.path_patterns
    → PriorityFits a.role_config.max_priority
    → role_config_from_env (build_env environ a) ≡ record unset_role {
      skills = a.role_config.skills;
      path_patterns = a.role_config.path_patterns;
      max_priority = a.role_config.max_priority;
      task_filter = a.role_config.task_filter;
    }
unfolding role_config_from_env allowed
role_config_from_env-build_env environ a c s p m =
    rw
      (
        getenv-build_env_unset environ a "LOOM_ROLE_SKILLS" refl c.skills,
        getenv-build_env_unset environ a "LOOM_ROLE_PATH_PATTERNS" refl c.path_patterns,
        getenv-build_env_unset environ a "LOOM_ROLE_MAX_PRIORITY" refl c.max_priority,
        getenv-build_env_unset environ a "LOOM_ROLE_TASK_FILTER" refl c.task_filter,
        listed-joined a.role_config.skills s,
      )
      (constraints a.role_config.skills
        (unfold listed_patterns in listed_patterns-patterns a.role_config.path_patterns p)
        (unfold priority_read in priority_read_lem a.role_config.max_priority m)
        (filter_read a.role_config.task_filter))

agent_entry_from_env-build_env :
    (environ : List String) (a : Agent)
    → IsClean environ
    → PatternsSeparable a.entry.path_patterns
    → agent_entry_from_env (build_env environ a)
      ≡ record a.entry { auto = false; backend = ""; fallback_backends = [] }
unfolding agent_entry_from_env allowed
agent_entry_from_env-build_env environ a c p =
    rw
      (
        getenv-build_env environ a "BD_ACTOR" refl,
        getenv-build_env environ a "LOOM_ROLE" refl,
        getenv-build_env_unset environ a "LOOM_AGENT_PATH_PATTERNS" refl c.agent_patterns,
      )
      (ap
        (λ ps. record a.entry {
          auto = false;
          backend = "";
          fallback_backends = [];
          path_patterns = ps;
        })
        (unfold listed_patterns in listed_patterns-patterns a.entry.path_patterns p))

-- A role without skills leaves the variable to the daemon's own environment: the process takes the
-- skills of the session that the daemon was started in.
role_config_from_env_leaks :
    (environ : List String) (a : Agent) (v : String)
    → a.role_config.skills ≡ []
    → lookup_env environ "LOOM_ROLE_SKILLS" ≡ some v
    → v ≢ ""
    → (role_config_from_env (build_env environ a)).skills ≡ split "," v
unfolding role_config_from_env allowed
role_config_from_env_leaks environ a v h e n =
    rw (getenv-build_env environ a "LOOM_ROLE_SKILLS" refl, h, e, str_ne v "" n) refl
