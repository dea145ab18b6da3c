-- ===== src/AgentError.antt =====
-- internal/agenterr: error classes of agent subprocesses, and the classification of an exit.
pub mod Classify
use loomcli.Common.{Bool, true, false, String, ℤ}

pub data ErrorClass : Type 0 where
  rate_limited auth_failure billing_error model_not_found context_overflow : ErrorClass
  timeout transient no_work unknown : ErrorClass

pub string : ErrorClass → String
string rate_limited = "RateLimited"
string auth_failure = "AuthFailure"
string billing_error = "BillingError"
string model_not_found = "ModelNotFound"
string context_overflow = "ContextOverflow"
string timeout = "Timeout"
string transient = "Transient"
string no_work = "NoWork"
string unknown = "Unknown"

abbrev pub is_retryable : ErrorClass → Bool
is_retryable rate_limited = true
is_retryable timeout = true
is_retryable transient = true
is_retryable _ = false

abbrev pub is_fatal : ErrorClass → Bool
is_fatal auth_failure = true
is_fatal billing_error = true
is_fatal _ = false

abbrev pub is_no_work : ErrorClass → Bool
is_no_work no_work = true
is_no_work _ = false

abbrev pub is_rate_limited : ErrorClass → Bool
is_rate_limited rate_limited = true
is_rate_limited _ = false

-- A duration is in nanoseconds; the time stamp and the output kept for debugging are left out.
pub record AgentError : Type 0 where
  pub class : ErrorClass
  pub exit_code : ℤ
  pub message : String
  pub backend : String
  pub retry_after : ℤ
