-- ===== src/Breaker/Recovery.antt =====
-- How a tripped breaker refuses, probes, recovers and gets stuck.
use loomcli.Common.{
  ℕ, suc, ◌+◌, ◌<◌, ◌≡◌, ◌⊎◌, inl, inr, some, Bool-cases, refl, true, false, ◌&&◌, Option, none,
  List, [], ◌∷◌, pos, is_some, length, arith,
}
use loomcli.Breaker.{
  state_closed, state_open, state_half_open, Config, Breaker, Outcome, ran, err_circuit_open,
  or_any_error, trips, timeout_over, execute, reset, after_request,
}
use loomcli.Breaker.Runs.{Call, executes, resets, ends, step}

-- Every call of a history was refused.
abbrev pub AllRefused : {E : Type 0} → List (Outcome E) → Type 0
AllRefused [] = Unit {0}
AllRefused (o ∷ os) = (o ≡ err_circuit_open) × AllRefused os

module _ {E : Type 0} where
  -- Each call starts before the breaker's timeout is over.
  abbrev pub AllEarly : Breaker E → List (Call E) → Type 0
  AllEarly b [] = Unit {0}
  AllEarly b ((now, op) ∷ cs) = (timeout_over b now ≡ false) × AllEarly b cs

  execute_early :
      (b : Breaker E) (now : ℕ) (op : Option E × ℕ)
      → b.state ≡ state_open
      → timeout_over b now ≡ false
      → execute b now op ≡ (b, err_circuit_open)
  unfolding execute
  execute_early b now (err, done) h early = ground arith

  -- While an open breaker's timeout is not over, every call is refused and changes nothing.
  pub executes_early :
      (b : Breaker E) (cs : List (Call E))
      → b.state ≡ state_open
      → AllEarly b cs
      → ((executes b cs).0 ≡ b) × AllRefused (executes b cs).1
  unfolding executes
  executes_early b [] h early = (refl, tt)
  executes_early b ((now, op) ∷ cs) h early =
      ground (arith, execute_early b now op h early.0, executes_early b cs h early.1)

  -- The first call after an open breaker's timeout runs. A success leaves the breaker closed with no
  -- consecutive failures. An error that counts opens it again from the time of that failure. After
  -- any other error it is half-open with one probe in flight.
  pub execute_probe :
      (b : Breaker E) (now : ℕ) (err : Option E) (done : ℕ)
      → b.state ≡ state_open
      → timeout_over b now ≡ true
      → let (b', o) = execute b now (err, done) in
        (o ≡ ran err)
        × ((err ≡ none) × (b'.state ≡ state_closed) × (b'.consecutive_fail ≡ 0)
            ⊎ ((is_some err && trips b err) ≡ true)
              × (b'.state ≡ state_open)
              × (b'.opened_at ≡ done)
            ⊎ (is_some err ≡ true)
              × (trips b err ≡ false)
              × (b'.state ≡ state_half_open)
              × (b'.half_open_probes ≡ 1))
  unfolding execute
  execute_probe b now none done h over = ground arith
  execute_probe b now (some e) done h over = elim (Bool-cases (trips b (some e))) [
    | inl t ↦ ground arith
    | inr t ↦ ground arith
  ]

  -- The operation failed with an error that does not count.
  abbrev pub AllIgnored : Config E → List (Call E) → Type 0
  AllIgnored c [] = Unit {0}
  AllIgnored c ((now, (err, done)) ∷ cs) =
      (is_some err ≡ true) × (or_any_error c.should_trip err ≡ false) × AllIgnored c cs

  pub record Probing (b : Breaker E) (c : Config E) (n : ℕ) : Type 0 where
    pub is_half_open : b.state ≡ state_half_open
    pub same_config : b.config ≡ c
    pub probes : b.half_open_probes ≡ n

  execute_ignored_first :
      (b : Breaker E) (c : Config E) (now : ℕ) (err : Option E) (done : ℕ)
      → b.state ≡ state_open
      → b.config ≡ c
      → timeout_over b now ≡ true
      → is_some err ≡ true
      → or_any_error c.should_trip err ≡ false
      → Probing (execute b now (err, done)).0 c 1
  unfolding execute
  execute_ignored_first b c now err done h hc over fails ignored = ground arith

  execute_ignored :
      (b : Breaker E) (c : Config E) (n m now : ℕ) (err : Option E) (done : ℕ)
      → Probing b c n
      → c.half_open_max_probes ≡ pos m
      → n < m
      → is_some err ≡ true
      → or_any_error c.should_trip err ≡ false
      → Probing (execute b now (err, done)).0 c (suc n)
  unfolding execute
  execute_ignored b c n m now err done h hm lt fails ignored = ground arith

  executes_ignored :
      (b : Breaker E) (c : Config E) (n m : ℕ) (cs : List (Call E))
      → Probing b c n
      → c.half_open_max_probes ≡ pos m
      → n + length cs ≡ m
      → AllIgnored c cs
      → Probing (executes b cs).0 c m
  unfolding executes
  executes_ignored b c n m [] h hm len ign = ground arith
  executes_ignored b c n m ((now, (err, done)) ∷ cs) h hm len ign =
      let h' = execute_ignored b c n m now err done h hm (omega arith) ign.0 ign.1 in
      executes_ignored (execute b now (err, done)).0 c (suc n) m cs h' hm (omega arith) ign.2

  execute_full :
      (b : Breaker E) (c : Config E) (m now : ℕ) (err : Option E) (done : ℕ)
      → Probing b c m
      → c.half_open_max_probes ≡ pos m
      → execute b now (err, done) ≡ (b, err_circuit_open)
  unfolding execute
  execute_full b c m now err done h hm = ground arith

  executes_full :
      (b : Breaker E) (c : Config E) (m : ℕ) (cs : List (Call E))
      → Probing b c m
      → c.half_open_max_probes ≡ pos m
      → ((executes b cs).0 ≡ b) × AllRefused (executes b cs).1
  unfolding executes
  executes_full b c m [] h hm = (refl, tt)
  executes_full b c m ((now, (err, done)) ∷ cs) h hm =
      ground (arith, execute_full b c m now err done h hm, executes_full b c m cs h hm)

  full_closes :
      (b : Breaker E) (c : Config E) (m t : ℕ)
      → Probing b c m
      → ((step b (resets t)).state ≡ state_closed) × ((step b (ends none t)).state ≡ state_closed)
  unfolding step reset after_request
  full_closes b c m t h = ground arith

  -- When an open breaker's timeout is over and as many calls as the maximum of probes are made one after
  -- another and fail with errors that do not count, such as a cancelled context, the breaker is half-open and
  -- refuses every call that is made later, at whatever time, without a change. A manual reset closes it,
  -- and so does a success of a call that was let through before and is still in flight.
  pub executes_stuck :
      (b : Breaker E) (m now t : ℕ) (err : Option E) (done : ℕ) (cs later : List (Call E))
      → b.state ≡ state_open
      → timeout_over b now ≡ true
      → b.config.half_open_max_probes ≡ pos m
      → suc (length cs) ≡ m
      → AllIgnored b.config ((now, (err, done)) ∷ cs)
      → let b' = (executes (execute b now (err, done)).0 cs).0 in
        (b'.state ≡ state_half_open)
        × ((executes b' later).0 ≡ b')
        × AllRefused (executes b' later).1
        × ((step b' (resets t)).state ≡ state_closed)
        × ((step b' (ends none t)).state ≡ state_closed)
  executes_stuck b m now t err done cs later h over hm len ign =
      let c = b.config in
      let first = execute_ignored_first b c now err done h refl over ign.0 ign.1 in
      let full = executes_ignored _ c 1 m cs first hm (omega arith) ign.2 in
      let stuck = executes_full _ c m later full hm in
      let closes = full_closes _ c m t full in
      (full.is_half_open, stuck.0, stuck.1, closes.0, closes.1)
