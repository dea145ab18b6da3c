-- ===== src/Breaker/Runs.antt =====
-- Histories of a circuit breaker: calls one after another, and the interleaved begins and ends of
-- concurrent calls with manual resets between them.
use loomcli.Common.{ℕ, Option, List, [], ◌∷◌}
use loomcli.Breaker.{Breaker, Outcome, before_request, after_request, reset, execute}

-- A call: when it starts, what the operation returns, and when.
abbrev pub Call : Type 0 → Type 0
Call E = ℕ × (Option E × ℕ)

module _ {E : Type 0} where
  unfoldable pub executes : Breaker E → List (Call E) → Breaker E × List (Outcome E)
  executes b [] = (b, [])
  executes b ((now, op) ∷ cs) =
      let (b', o) = execute b now op in let (b'', os) = executes b' cs in (b'', o ∷ os)

-- What a goroutine does to the breaker in one critical section.
pub data Event (E : Type 0) : Type 0 where
  begins : ℕ → Event E
  ends : Option E → ℕ → Event E
  resets : ℕ → Event E

module _ {E : Type 0} where
  unfoldable pub step : Breaker E → Event E → Breaker E
  step b (begins now) = (before_request b now).0
  step b (ends err now) = (after_request b err now).0
  step b (resets now) = (reset b now).0

  unfoldable pub run : Breaker E → List (Event E) → Breaker E
  run b [] = b
  run b (e ∷ es) = run (step b e) es
