-- ===== src/Examples/Circuit.antt =====
-- Runs of the circuit breaker: threshold 2, a timeout of 10, one probe, cancellations not counted.
use loomcli.Common.{
  ℕ, ◌≡◌, refl, true, false, not, Bool, Option, none, some, List, [], ◌∷◌, String, pos, str_eq,
}
use loomcli.Breaker.{
  state_closed, state_open, state_half_open, Config, Breaker, new_breaker, execute, before_request,
  after_request,
}
use loomcli.Breaker.Runs.{Call, Event, begins, ends, resets, run, step, executes}
use loomcli.Breaker.Invariant.{IsWellFormed, run-new_breaker-IsWellFormed}
use loomcli.Breaker.Trip.{Counting, executes_trip}
use loomcli.Breaker.Recovery.{AllRefused, executes_stuck}

abbrev counts : Option String → Bool
counts none = false
counts (some e) = not (str_eq e "context canceled")

abbrev config : Config String
config = record {
  failure_threshold = pos 2;
  open_timeout = pos 10;
  half_open_max_probes = pos 1;
  should_trip = some counts;
  on_state_change = true;
}

abbrev fresh : Breaker String
fresh = new_breaker "daemon" config 0

abbrev refused_call : ℕ → Call String
refused_call now = (now, (some "connection refused", now))

abbrev good_call : ℕ → Call String
good_call now = (now, (none, now))

abbrev tripped : Breaker String
tripped = (executes fresh (refused_call 1 ∷ refused_call 2 ∷ [])).0

tripped_open : tripped.state ≡ state_open
unfolding executes execute before_request after_request new_breaker
tripped_open = refl

abbrev busy : List (Event String)
busy =
    begins 1
    ∷ begins 1
    ∷ ends (some "x") 2
    ∷ ends (some "x") 3
    ∷ begins 20
    ∷ begins 21
    ∷ ends none 22
    ∷ resets 23
    ∷ []

run-new_breaker-IsWellFormed_example : IsWellFormed (run fresh busy)
run-new_breaker-IsWellFormed_example = run-new_breaker-IsWellFormed "daemon" config 0 busy

fresh-Counting : Counting fresh fresh.config 0
unfolding new_breaker
fresh-Counting = record { is_closed = refl; same_config = refl; count = refl }

executes_trip_example :
    let b' = (executes fresh (refused_call 1 ∷ [])).0 in
    let b'' = (execute b' 2 (some "connection refused", 2)).0 in
    (b'.state ≡ state_closed) × (b''.state ≡ state_open) × (b''.opened_at ≡ 2)
unfolding new_breaker
executes_trip_example =
    executes_trip fresh fresh.config 2 (refused_call 1 ∷ []) 2 (some "connection refused") 2
      fresh-Counting refl refl (refl, tt) refl

executes_stuck_example :
    let b' = (executes (execute tripped 12 (some "context canceled", 13)).0 []).0 in
    (b'.state ≡ state_half_open)
    × ((executes b' (good_call 1000 ∷ [])).0 ≡ b')
    × AllRefused (executes b' (good_call 1000 ∷ [])).1
    × ((step b' (resets 2000)).state ≡ state_closed)
    × ((step b' (ends none 2000)).state ≡ state_closed)
unfolding executes execute before_request after_request new_breaker
executes_stuck_example =
    executes_stuck tripped 1 12 2000 (some "context canceled") 13 [] (good_call 1000 ∷ [])
      tripped_open refl refl refl (refl, refl, tt)
