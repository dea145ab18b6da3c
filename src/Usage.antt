-- ===== src/Usage.antt =====
-- internal/usage: the tokens that an agent's session uses, and the file of all sessions. Counts are
-- natural numbers. The cost in dollars is a parameter, since it is a floating-point number.
pub mod Distinct
pub mod Kept
use Prim.Native.String.{◌++◌}
use loomcli.Common.{
  ℕ, ◌+◌, Bool, true, false, not, ◌&&◌, ◌||◌, Option, none, some, List, [], ◌∷◌, String, str_eq,
  ltb, split, if◌then◌else◌,
}

pub record Tokens : Type 0 where
  pub input : ℕ
  pub output : ℕ
  pub cache_read : ℕ
  pub cache_write : ℕ

-- The map of the messages that were counted is a function.
pub record Collector : Type 0 where
  pub backend : String
  pub agent_name : String
  pub tokens : Tokens
  pub seen : String → Bool

abbrev pub no_tokens : Tokens
no_tokens = record { input = 0; output = 0; cache_read = 0; cache_write = 0 }

abbrev pub new_collector : String → String → Collector
new_collector backend agent_name = record {
  backend = backend;
  agent_name = agent_name;
  tokens = no_tokens;
  seen = λ id. false;
}

abbrev pub added : Tokens → Tokens → Tokens
added t u = record {
  input = t.input + u.input;
  output = t.output + u.output;
  cache_read = t.cache_read + u.cache_read;
  cache_write = t.cache_write + u.cache_write;
}

abbrev pub mark : (String → Bool) → String → String → Bool
mark seen id k = if str_eq id k then true else seen k

-- A message without an identifier is always counted.
unfoldable pub accumulate : Collector → String → Tokens → Collector
accumulate c id t =
    if str_eq id ""
    then record c { tokens = added c.tokens t }
    else if c.seen id
    then c
    else record c { tokens = added c.tokens t; seen = mark c.seen id }

pub record SessionUsage : Type 0 where
  pub agent_name : String
  pub backend : String
  pub task_id : String
  pub epic_id : String
  pub tokens : Tokens
  pub estimated_cost : String
  pub started_at : ℕ
  pub ended_at : ℕ
  pub exit_code : ℕ
  pub model : String

-- `cost` is EstimateCost with the tier of the backend.
abbrev pub finalize :
    (String → Tokens → String) → Collector → String → String → ℕ → ℕ → ℕ → SessionUsage
finalize cost c task epic started ended exit_code = record {
  agent_name = c.agent_name;
  backend = c.backend;
  task_id = task;
  epic_id = epic;
  tokens = c.tokens;
  estimated_cost = cost c.backend c.tokens;
  started_at = started;
  ended_at = ended;
  exit_code = exit_code;
  model = "";
}

-- A time that is not set is `none`.
pub record Filter : Type 0 where
  pub agent_name : String
  pub backend : String
  pub task_id : String
  pub epic_id : String
  pub since : Option ℕ
  pub until : Option ℕ

abbrev pub passes : String → String → Bool
passes wanted given = str_eq wanted "" || str_eq given wanted

abbrev pub not_before : Option ℕ → ℕ → Bool
not_before none t = true
not_before (some s) t = not (ltb t s)

abbrev pub not_after : Option ℕ → ℕ → Bool
not_after none t = true
not_after (some s) t = not (ltb s t)

unfoldable pub matches_filter : SessionUsage → Filter → Bool
matches_filter r f =
    passes f.agent_name r.agent_name
    && passes f.backend r.backend
    && passes f.task_id r.task_id
    && passes f.epic_id r.epic_id
    && not_before f.since r.started_at
    && not_after f.until r.ended_at

-- What encoding/json and bufio.Scanner do: the text of a record, its reading, and which lines are refused.
pub record LineFormat : Type 0 where
  pub write : SessionUsage → String
  pub read : String → Option SessionUsage
  pub is_too_long : String → Bool

-- Append, which no other writer interrupts.
unfoldable pub append : LineFormat → String → SessionUsage → String
append l file r = file ++ (l.write r ++ "\n")

abbrev pub kept_if : Bool → SessionUsage → List SessionUsage → List SessionUsage
kept_if true r rs = r ∷ rs
kept_if false r rs = rs

abbrev pub with_record : Filter → Option SessionUsage → List SessionUsage → List SessionUsage
with_record f none rs = rs
with_record f (some r) rs = kept_if (matches_filter r f) r rs

-- The records of the lines, and whether the reading ended with an error.
unfoldable pub read_lines : LineFormat → Filter → List String → List SessionUsage × Bool
read_lines l f [] = ([], false)
read_lines l f (line ∷ lines) =
    let rest = read_lines l f lines in
    if l.is_too_long line
    then ([], true)
    else if str_eq line ""
    then rest
    else (with_record f (l.read line) rest.0, rest.1)

-- Read; without a file there are no records.
unfoldable pub read : LineFormat → Filter → Option String → List SessionUsage × Bool
read l f none = ([], false)
read l f (some file) = read_lines l f (split "\n" file)
