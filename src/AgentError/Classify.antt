-- ===== src/AgentError/Classify.antt =====
-- internal/agenterr/classify.go and the tables of classify_claude.go, classify_codex.go and
-- classify_opencode.go. Go's packages regexp and fmt are parameters; the patterns are the source's.
pub mod Outcome
use Prim.Native.String.{◌++◌ as str_append}
use loomcli.Common.{
  ℕ, ◌≡◌, refl, Bool, true, false, Option, none, some, List, [], ◌∷◌, String, ℤ, pos, negsuc, ◌*64◌,
  atoi, str_eq, if◌then◌else◌, wrap64, eqb_ℤ,
}
use loomcli.AgentError.{
  ErrorClass, rate_limited, auth_failure, billing_error, model_not_found, context_overflow, timeout,
  transient, no_work, unknown, is_rate_limited, AgentError,
}

-- MatchString and the first group that FindStringSubmatch finds, of regexp, and fmt's %d.
pub record GoPackages : Type 0 where
  pub match_string : String → String → Bool
  pub find_submatch : String → String → Option String
  pub format_int : ℤ → String

pub record Pattern : Type 0 where
  pub re : String
  pub class : ErrorClass
  pub msg : String

abbrev pattern_of : String → ErrorClass → String → Pattern
pattern_of re class msg = record { re = re; class = class; msg = msg }

abbrev claude_patterns : List Pattern
claude_patterns =
    pattern_of "(?i)rate.?limit|too many requests" rate_limited "rate limit exceeded"
    ∷ pattern_of "(?i)\\b429\\b" rate_limited "rate limit exceeded (429)"
    ∷ pattern_of "(?i)overloaded_error" rate_limited "API overloaded (529)"
    ∷ pattern_of "(?i)invalid.?api.?key|authentication.?failed" auth_failure "invalid API key"
    ∷ pattern_of "(?i)\\b401\\b|unauthorized" auth_failure "authentication failed (401)"
    ∷ pattern_of "(?i)ANTHROPIC_API_KEY" auth_failure "ANTHROPIC_API_KEY not set or invalid"
    ∷ pattern_of "(?i)\\b402\\b|payment.?required|insufficient.?credits|quota.?exceeded"
        billing_error "billing error"
    ∷ pattern_of "(?i)billing" billing_error "billing error"
    ∷ pattern_of "(?i)model.?not.?found|model.*does not exist|invalid.?model" model_not_found
        "model not found"
    ∷ pattern_of "(?i)\\b404\\b.*model" model_not_found "model not found (404)"
    ∷ pattern_of "(?i)context.?length.?exceeded|max.?tokens|token.?limit|context.?window"
        context_overflow "context length exceeded"
    ∷ pattern_of "(?i)timeout|ETIMEDOUT|ECONNRESET|connection.?timed?.?out" timeout
        "connection timeout"
    ∷ pattern_of "(?i)\\b529\\b|internal.?server.?error|service.?unavailable" transient
        "server error"
    ∷ pattern_of "(?i)\\b50[023]\\b" transient "server error"
    ∷ []

abbrev codex_patterns : List Pattern
codex_patterns =
    pattern_of "(?i)rate.?limit|too many requests|tokens per min" rate_limited "rate limit exceeded"
    ∷ pattern_of "(?i)\\b429\\b" rate_limited "rate limit exceeded (429)"
    ∷ pattern_of "(?i)invalid.?api.?key|incorrect.?api.?key" auth_failure "invalid API key"
    ∷ pattern_of "(?i)\\b401\\b|unauthorized" auth_failure "authentication failed (401)"
    ∷ pattern_of "(?i)OPENAI_API_KEY" auth_failure "OPENAI_API_KEY not set or invalid"
    ∷ pattern_of "(?i)\\b402\\b|insufficient_quota|exceeded.*quota" billing_error "billing error"
    ∷ pattern_of "(?i)billing" billing_error "billing error"
    ∷ pattern_of "(?i)model.*not found|does not exist|model_not_found" model_not_found
        "model not found"
    ∷ pattern_of "(?i)invalid.*model" model_not_found "invalid model"
    ∷ pattern_of "(?i)context_length_exceeded|maximum context length|max.*tokens" context_overflow
        "context length exceeded"
    ∷ pattern_of "(?i)timeout|ETIMEDOUT|ECONNRESET|timed?.?out" timeout "connection timeout"
    ∷ pattern_of "(?i)server_error|internal.?error|overloaded" transient "server error"
    ∷ pattern_of "(?i)\\b50[023]\\b" transient "server error"
    ∷ []

abbrev opencode_patterns : List Pattern
opencode_patterns =
    pattern_of "(?i)rate.?limit|too many requests" rate_limited "rate limit exceeded"
    ∷ pattern_of "(?i)\\b429\\b" rate_limited "rate limit exceeded (429)"
    ∷ pattern_of "(?i)\\b401\\b|unauthorized|invalid.*key|invalid.?api.?key" auth_failure
        "authentication failed"
    ∷ pattern_of "(?i)\\b402\\b|billing|payment|quota|credits" billing_error "billing error"
    ∷ pattern_of "(?i)model.?not.?found|model.*not.*exist" model_not_found "model not found"
    ∷ pattern_of "(?i)\\b404\\b.*model" model_not_found "model not found (404)"
    ∷ pattern_of "(?i)context.?length|token.?limit|too.?long" context_overflow
        "context length exceeded"
    ∷ pattern_of "(?i)timeout|ETIMEDOUT|ECONNRESET|timed?.?out" timeout "connection timeout"
    ∷ pattern_of "(?i)server.?error|internal.?error" transient "server error"
    ∷ pattern_of "(?i)\\b50[023]\\b" transient "server error"
    ∷ []

-- The same expression in the three files.
abbrev retry_after_re : String
retry_after_re = "(?i)retry.?after[:\\s]+(\\d+)"

abbrev pub second : ℕ
second = 1_000_000_000

pub record ClassifyResult : Type 0 where
  pub class : ErrorClass
  pub message : String
  pub retry_after : ℤ

-- `time.Duration(secs) * time.Second`
seconds : ℤ → ℤ
seconds n = n *64 second

retry_secs : Option ℤ → ℤ
retry_secs none = pos 0
retry_secs (some n) = seconds n

retry_group : Option String → ℤ
retry_group none = pos 0
retry_group (some s) = retry_secs (atoi s)

unfoldable pub result_of : GoPackages → Pattern → String → ClassifyResult
unfolding retry_group retry_secs seconds
result_of rx p log = record {
  class = p.class;
  message = p.msg;
  retry_after =
      if is_rate_limited p.class then retry_group (rx.find_submatch retry_after_re log) else pos 0;
}

unfoldable pub classify_with : GoPackages → List Pattern → String → Option ClassifyResult
classify_with rx [] log = none
classify_with rx (p ∷ ps) log =
    let rest = classify_with rx ps log in
    if rx.match_string p.re log then some (result_of rx p log) else rest

classify_log : GoPackages → List Pattern → String → Option ClassifyResult
classify_log rx ps log = if str_eq log "" then none else classify_with rx ps log

pub classify_claude : GoPackages → String → Option ClassifyResult
unfolding classify_log
classify_claude rx log = classify_log rx claude_patterns log

pub classify_codex : GoPackages → String → Option ClassifyResult
unfolding classify_log
classify_codex rx log = classify_log rx codex_patterns log

pub classify_opencode : GoPackages → String → Option ClassifyResult
unfolding classify_log
classify_opencode rx log = classify_log rx opencode_patterns log

unfoldable pub classify_by_exit_code : ℤ → ErrorClass
classify_by_exit_code c =
    if eqb_ℤ c (pos 137) then timeout else if eqb_ℤ c (pos 143) then transient else unknown

classify_by_exit_code_message : GoPackages → ℤ → String
classify_by_exit_code_message rx c =
    if eqb_ℤ c (pos 137)
    then "process killed by signal 9 (SIGKILL), exit code 137"
    else if eqb_ℤ c (pos 143)
    then "process terminated by signal 15 (SIGTERM), exit code 143"
    else str_append (str_append "unclassified error (exit code " (rx.format_int c)) ")"

pub classify_backend : GoPackages → String → String → Option ClassifyResult
classify_backend rx backend log =
    if str_eq backend "claude"
    then classify_claude rx log
    else if str_eq backend "codex"
    then classify_codex rx log
    else if str_eq backend "opencode"
    then classify_opencode rx log
    else none

or_exit_code : GoPackages → ℤ → Option ClassifyResult → ClassifyResult
or_exit_code rx c (some r) = r
or_exit_code rx c none = record {
  class = classify_by_exit_code c;
  message = classify_by_exit_code_message rx c;
  retry_after = pos 0;
}

-- `log` is what readLogTail returns, "" on an error.
unfoldable pub classify_from_log : GoPackages → String → ℤ → String → AgentError
unfolding classify_backend or_exit_code classify_by_exit_code_message
classify_from_log rx log exit_code backend =
    let r = or_exit_code rx exit_code (classify_backend rx backend log) in
    record {
      class = r.class;
      exit_code = exit_code;
      message = r.message;
      backend = backend;
      retry_after = r.retry_after;
    }
