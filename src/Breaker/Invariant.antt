-- ===== src/Breaker/Invariant.antt =====
-- What holds of a breaker after every history.
use loomcli.Common.{ℕ, ◌≤◌, ◌≡◌, ◌⊎◌, ◌↔◌, true, List, [], ◌∷◌, String, pos, ◌≤ℤ◌, ◌<ℤ◌, arith}
use loomcli.Breaker.{
  state_closed, state_open, state_half_open, Config, Breaker, new_breaker, before_request,
  after_request, reset, current_state,
}
use loomcli.Breaker.Runs.{Event, begins, ends, resets, step, run}

module _ {E : Type 0} where
  pub record IsWellFormed (b : Breaker E) : Type 0 where
    pub threshold_pos : pos 1 ≤ℤ b.config.failure_threshold
    pub timeout_pos : pos 1 ≤ℤ b.config.open_timeout
    pub probes_pos : pos 1 ≤ℤ b.config.half_open_max_probes
    pub closed_below : b.state ≡ state_closed → pos b.consecutive_fail <ℤ b.config.failure_threshold
    pub half_open_probing : b.state ≡ state_half_open → 1 ≤ b.half_open_probes
    pub half_open_bounded :
        b.state ≡ state_half_open → pos b.half_open_probes ≤ℤ b.config.half_open_max_probes
    pub closed_no_probes : b.state ≡ state_closed → b.half_open_probes ≡ 0
    pub open_no_probes : b.state ≡ state_open → b.half_open_probes ≡ 0
    pub counted : b.consecutive_fail ≤ b.failures

  pub new_breaker-IsWellFormed :
      (name : String) (c : Config E) (now : ℕ) → IsWellFormed (new_breaker name c now)
  unfolding new_breaker
  new_breaker-IsWellFormed name c now = ground arith

  pub step-IsWellFormed : (b : Breaker E) (e : Event E) → IsWellFormed b → IsWellFormed (step b e)
  unfolding step before_request after_request reset
  step-IsWellFormed b (begins now) h = ground arith
  step-IsWellFormed b (ends err now) h = ground arith
  step-IsWellFormed b (resets now) h = ground arith

  pub run-IsWellFormed :
      (b : Breaker E) (es : List (Event E)) → IsWellFormed b → IsWellFormed (run b es)
  unfolding run
  run-IsWellFormed b [] h = h
  run-IsWellFormed b (e ∷ es) h = run-IsWellFormed (step b e) es (step-IsWellFormed b e h)

  -- A breaker made by `NewBreaker`, from any configuration, keeps its invariant through any
  -- interleaving of begun calls, ended calls and manual resets: while closed the consecutive
  -- failures are below the threshold, while half-open the probes are between 1 and their maximum,
  -- in the other states there are none, and the consecutive failures are at most all failures.
  pub run-new_breaker-IsWellFormed :
      (name : String) (c : Config E) (now : ℕ) (es : List (Event E))
      → IsWellFormed (run (new_breaker name c now) es)
  run-new_breaker-IsWellFormed name c now es =
      run-IsWellFormed _ es (new_breaker-IsWellFormed name c now)

  -- A request is admitted exactly when the effective state that `GetState` shows is closed, or is
  -- half-open and the stored state is still open or the probes are below their maximum.
  pub before_request_iff :
      (b : Breaker E) (now : ℕ)
      → ((before_request b now).1 ≡ true) ↔ (
          (current_state b now ≡ state_closed)
          ⊎ (current_state b now ≡ state_half_open)
            × ((b.state ≡ state_open) ⊎ (pos b.half_open_probes <ℤ b.config.half_open_max_probes)))
  unfolding before_request current_state
  before_request_iff b now = ground arith
