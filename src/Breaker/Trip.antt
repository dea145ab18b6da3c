-- ===== src/Breaker/Trip.antt =====
-- When a breaker trips.
use loomcli.Common.{
  ℕ, suc, ◌+◌, ◌<◌, ◌≡◌, ap, ◌∙◌, true, ◌&&◌, Option, List, [], ◌∷◌, pos, is_some, length, arith,
}
use loomcli.Breaker.{state_closed, state_open, Config, Breaker, or_any_error, execute}
use loomcli.Breaker.Runs.{Call, executes}

module _ {E : Type 0} where
  -- Each operation fails with an error that counts.
  abbrev pub AllTrip : Config E → List (Call E) → Type 0
  AllTrip c [] = Unit {0}
  AllTrip c ((now, (err, done)) ∷ cs) =
      ((is_some err && or_any_error c.should_trip err) ≡ true) × AllTrip c cs

  pub record Counting (b : Breaker E) (c : Config E) (n : ℕ) : Type 0 where
    pub is_closed : b.state ≡ state_closed
    pub same_config : b.config ≡ c
    pub count : b.consecutive_fail ≡ n

  execute_trip :
      (b : Breaker E) (c : Config E) (n t now : ℕ) (err : Option E) (done : ℕ)
      → Counting b c n
      → c.failure_threshold ≡ pos t
      → suc n < t
      → (is_some err && or_any_error c.should_trip err) ≡ true
      → Counting (execute b now (err, done)).0 c (suc n)
  unfolding execute
  execute_trip b c n t now err done h ht lt trip = ground arith

  execute_last_trip :
      (b : Breaker E) (c : Config E) (n now : ℕ) (err : Option E) (done : ℕ)
      → Counting b c n
      → c.failure_threshold ≡ pos (suc n)
      → (is_some err && or_any_error c.should_trip err) ≡ true
      → let b' = (execute b now (err, done)).0 in
        (b'.state ≡ state_open) × (b'.opened_at ≡ done) × (b'.half_open_probes ≡ b.half_open_probes)
  unfolding execute
  execute_last_trip b c n now err done h ht trip = ground arith

  executes_below :
      (b : Breaker E) (c : Config E) (n t : ℕ) (cs : List (Call E))
      → Counting b c n
      → c.failure_threshold ≡ pos t
      → n + length cs < t
      → AllTrip c cs
      → Counting (executes b cs).0 c (n + length cs)
  unfolding executes
  executes_below b c n t [] h ht lt trip = ground arith
  executes_below b c n t ((now, (err, done)) ∷ cs) h ht lt trip =
      let h' = execute_trip b c n t now err done h ht (omega arith) trip.0 in
      let e : n + suc (length cs) ≡ suc n + length cs = omega arith in
      rw e (executes_below (execute b now (err, done)).0 c (suc n) t cs h' ht (omega arith) trip.1)

  -- A closed breaker with no consecutive failures and threshold t > 0 is still closed after t - 1
  -- calls whose errors all count, and the next such failure opens it at the time of that failure.
  pub executes_trip :
      (b : Breaker E) (c : Config E) (t : ℕ) (cs : List (Call E)) (now : ℕ) (err : Option E)
      (done : ℕ)
      → Counting b c 0
      → c.failure_threshold ≡ pos t
      → suc (length cs) ≡ t
      → AllTrip c cs
      → (is_some err && or_any_error c.should_trip err) ≡ true
      → let b' = (executes b cs).0 in
        let b'' = (execute b' now (err, done)).0 in
        (b'.state ≡ state_closed) × (b''.state ≡ state_open) × (b''.opened_at ≡ done)
  executes_trip b c t cs now err done h ht len trip last =
      let below = executes_below b c 0 t cs h ht (omega arith) trip in
      let opened = execute_last_trip _ c (0 + length cs) now err done below ht' last in
      (below.is_closed, opened.0, opened.1)
    where
      ht' : c.failure_threshold ≡ pos (suc (0 + length cs))
      ht' = ht ∙ ap pos (omega arith)
