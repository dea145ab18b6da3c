-- ===== src/Breaker.antt =====
-- internal/circuitbreaker/breaker.go: the circuit breaker. A method that changes the breaker
-- returns the new record; the clock is an argument, in nanoseconds, and 0 is Go's zero time. An
-- error is an `Option E`, `none` being nil. What a method hands to `OnStateChange` is part of its
-- result.
pub mod Runs
pub mod Invariant
pub mod Trip
pub mod Recovery
use loomcli.Common.{
  ℕ, suc, ◌-◌, Bool, true, false, ◌&&◌, Option, none, some, String, ℤ, pos, leb_ℤ, ltb_ℤ,
  if◌then◌else◌, is_some,
}

pub data State : Type 0 where
  state_closed state_open state_half_open : State

pub string : State → String
string state_closed = "closed"
string state_open = "open"
string state_half_open = "half-open"

pub record Config (E : Type 0) : Type 0 where
  pub failure_threshold : ℤ
  pub open_timeout : ℤ
  pub half_open_max_probes : ℤ
  pub should_trip : Option (Option E → Bool)
  -- Whether a callback is installed.
  pub on_state_change : Bool

pub record Breaker (E : Type 0) : Type 0 where
  pub name : String
  pub config : Config E
  pub state : State
  pub failures : ℕ
  pub successes : ℕ
  pub consecutive_fail : ℕ
  pub half_open_probes : ℕ
  pub last_state_change : ℕ
  pub last_failure : ℕ
  pub opened_at : ℕ

pub record BreakerStats : Type 0 where
  pub state : State
  pub failures : ℕ
  pub successes : ℕ
  pub consecutive_fail : ℕ
  pub last_state_change : ℕ
  pub last_failure : ℕ

abbrev or_default : ℤ → ℤ → ℤ
or_default n d = if leb_ℤ n (pos 0) then d else n

-- The pair given to the callback, if there is a callback.
abbrev pub Notice : Type 0
Notice = Option (State × State)

abbrev notify : Bool → Notice → Notice
notify true n = n
notify false n = none

abbrev changed_from : State → Notice
changed_from state_closed = none
changed_from s = some (s, state_closed)

-- What a caller gets: the breaker's refusal, or the operation's own error.
pub data Outcome (E : Type 0) : Type 0 where
  err_circuit_open : Outcome E
  ran : Option E → Outcome E

module _ {E : Type 0} where
  abbrev or_any_error : Option (Option E → Bool) → Option E → Bool
  or_any_error (some f) = f
  or_any_error none = is_some

  unfoldable pub new_breaker : String → Config E → ℕ → Breaker E
  new_breaker name c now = record {
    name = name;
    config = record {
      failure_threshold = or_default c.failure_threshold (pos 5);
      open_timeout = or_default c.open_timeout (pos 30_000_000_000);
      half_open_max_probes = or_default c.half_open_max_probes (pos 1);
      should_trip = some (or_any_error c.should_trip);
      on_state_change = c.on_state_change;
    };
    state = state_closed;
    failures = 0;
    successes = 0;
    consecutive_fail = 0;
    half_open_probes = 0;
    last_state_change = now;
    last_failure = 0;
    opened_at = 0;
  }

  -- `time.Since(b.openedAt) >= b.config.OpenTimeout`
  abbrev pub timeout_over : Breaker E → ℕ → Bool
  timeout_over b now = leb_ℤ b.config.open_timeout (pos (now - b.opened_at))

  abbrev pub trips : Breaker E → Option E → Bool
  trips b err = or_any_error b.config.should_trip err

  set_state : Breaker E → State → ℕ → Breaker E
  set_state b s now = record b { state = s; last_state_change = now }

  abbrev current_of : State → Breaker E → ℕ → State
  current_of state_open b now = if timeout_over b now then state_half_open else state_open
  current_of s b now = s

  unfoldable pub current_state : Breaker E → ℕ → State
  current_state b now = current_of b.state b now

  pub get_state : Breaker E → ℕ → State
  unfolding current_state
  get_state b now = current_state b now

  pub stats : Breaker E → ℕ → BreakerStats
  unfolding current_state
  stats b now = record {
    state = current_state b now;
    failures = b.failures;
    successes = b.successes;
    consecutive_fail = b.consecutive_fail;
    last_state_change = b.last_state_change;
    last_failure = b.last_failure;
  }

  unfoldable pub reset : Breaker E → ℕ → Breaker E × Notice
  reset b now = (
    record b {
      state = state_closed;
      consecutive_fail = 0;
      half_open_probes = 0;
      last_state_change = now;
    },
    notify b.config.on_state_change (changed_from b.state),
  )

  -- `true` is nil, `false` is ErrCircuitOpen.
  abbrev before_of : State → Breaker E → ℕ → Breaker E × Bool
  before_of state_closed b now = (b, true)
  before_of state_open b now =
      if timeout_over b now
      then (record (set_state b state_half_open now) { half_open_probes = 1 }, true)
      else (b, false)
  before_of state_half_open b now =
      if ltb_ℤ (pos b.half_open_probes) b.config.half_open_max_probes
      then (record b { half_open_probes = suc b.half_open_probes }, true)
      else (b, false)

  unfoldable pub before_request : Breaker E → ℕ → Breaker E × Bool
  unfolding set_state
  before_request b now = before_of b.state b now

  abbrev fail_of : State → Breaker E → ℕ → Breaker E × Notice
  fail_of state_closed b now =
      if leb_ℤ b.config.failure_threshold (pos b.consecutive_fail)
      then (
        record (set_state b state_open now) { opened_at = now },
        some (state_closed, state_open),
      )
      else (b, none)
  fail_of state_half_open b now = (
    record (set_state b state_open now) { opened_at = now; half_open_probes = 0 },
    some (state_half_open, state_open),
  )
  fail_of state_open b now = (b, none)

  abbrev success_of : State → Breaker E → ℕ → Breaker E × Notice
  success_of state_closed b now = (record b { consecutive_fail = 0 }, none)
  success_of state_half_open b now = (
    record (set_state b state_closed now) { consecutive_fail = 0; half_open_probes = 0 },
    some (state_half_open, state_closed),
  )
  success_of state_open b now = (b, none)

  abbrev record_failure : Breaker E → ℕ → Breaker E
  record_failure b now = record b {
    failures = suc b.failures;
    consecutive_fail = suc b.consecutive_fail;
    last_failure = now;
  }

  abbrev after_of : Breaker E → Option E → ℕ → Breaker E × Notice
  after_of b err now =
      if is_some err && trips b err
      then fail_of b.state (record_failure b now) now
      else if is_some err
      then (b, none)
      else success_of b.state (record b { successes = suc b.successes }) now

  unfoldable pub after_request : Breaker E → Option E → ℕ → Breaker E × Notice
  unfolding set_state
  after_request b err now =
      let (b', transition) = after_of b err now in (b', notify b.config.on_state_change transition)

  -- `fn` is given by its result and the time at which it returns.
  unfoldable pub execute : Breaker E → ℕ → Option E × ℕ → Breaker E × Outcome E
  unfolding before_request after_request
  execute b now (err, done) =
      let (b', admitted) = before_request b now in
      if admitted then ((after_request b' err done).0, ran err) else (b', err_circuit_open)

  -- The generic form also returns the operation's value, or the zero value of its type.
  pub execute_with_result {ℓ} :
      {T : Type ℓ} → T → Breaker E → ℕ → (T × Option E) × ℕ → Breaker E × T × Outcome E
  unfolding before_request after_request
  execute_with_result zero_value b now ((result, err), done) =
      let (b', admitted) = before_request b now in
      if admitted
      then ((after_request b' err done).0, result, ran err)
      else (b', zero_value, err_circuit_open)
