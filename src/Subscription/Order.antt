-- ===== src/Subscription/Order.antt =====
-- What internal/webui/subscription.go broadcasts, turn after turn.
use loomcli.Common.{
  ℕ, ◌+◌, ◌≤◌, ◌<◌, ◌≡◌, refl, sym, subst, Bool, true, false, Option, none, some, List, [], ◌∷◌,
  ◌++◌, ltb, arith, Bool-cases, inl, inr, if◌then◌else◌, In,
}
use loomcli.Subscription.{
  MutationEvent, DaemonSubscriber, Answer, no_connection, refused, call_failed, answered,
  is_unknown_operation_error, max_timestamp, process_mutation_response, wait_for_mutations,
  poll_mutations, subscription_turn,
}

-- The state after answers, and all that is broadcast.
abbrev pub turns : Bool → DaemonSubscriber → List Answer → DaemonSubscriber × List MutationEvent
turns pool s [] = (s, [])
turns pool s (a ∷ xs) =
    let t = subscription_turn pool s a in
    let rest = turns pool t.state xs in (rest.0, t.sent ++ rest.1)

-- All are from after a time.
abbrev pub AllAfter : ℕ → List MutationEvent → Type 0
AllAfter t [] = Unit {0}
AllAfter t (m ∷ ms) = (t < m.timestamp) × AllAfter t ms

abbrev pub AnswersAfter : ℕ → Answer → Type 0
AnswersAfter t (answered (some ms)) = AllAfter t ms
AnswersAfter t _ = Unit {0}

-- The daemon returns the mutations after the time that it is asked for.
abbrev pub KeepsToTime : Bool → DaemonSubscriber → List Answer → Type 0
KeepsToTime pool s [] = Unit {0}
KeepsToTime pool s (a ∷ xs) =
    AnswersAfter s.last_since a × KeepsToTime pool (subscription_turn pool s a).state xs

le-max_timestamp : (t : ℕ) (ms : List MutationEvent) → t ≤ max_timestamp t ms
unfolding max_timestamp
le-max_timestamp t [] = omega arith
le-max_timestamp t (m ∷ ms) =
    ground (arith, le-max_timestamp (if ltb t m.timestamp then m.timestamp else t) ms)

In-le-max_timestamp :
    (t : ℕ) (ms : List MutationEvent) (m : MutationEvent)
    → In m ms
    → m.timestamp ≤ max_timestamp t ms
unfolding max_timestamp
In-le-max_timestamp t [] m i = absurd i
In-le-max_timestamp t (n ∷ ms) m (inl e) =
    rw e (ground (arith, le-max_timestamp (if ltb t n.timestamp then n.timestamp else t) ms))
In-le-max_timestamp t (n ∷ ms) m (inr i) =
    In-le-max_timestamp (if ltb t n.timestamp then n.timestamp else t) ms m i

AllAfter-le : (t u : ℕ) (ms : List MutationEvent) → t ≤ u → AllAfter u ms → AllAfter t ms
AllAfter-le t u [] l a = tt
AllAfter-le t u (m ∷ ms) l a = (omega (arith, l, a.0), AllAfter-le t u ms l a.1)

AllAfter-append :
    (t : ℕ) (ms ns : List MutationEvent) → AllAfter t ms → AllAfter t ns → AllAfter t (ms ++ ns)
AllAfter-append t [] ns a b = b
AllAfter-append t (m ∷ ms) ns a b = (a.0, AllAfter-append t ms ns a.1 b)

AllAfter-In :
    (t : ℕ) (ms : List MutationEvent) (m : MutationEvent)
    → AllAfter t ms
    → In m ms
    → t < m.timestamp
AllAfter-In t [] m a i = absurd i
AllAfter-In t (n ∷ ms) m a (inl e) = rw e a.0
AllAfter-In t (n ∷ ms) m a (inr i) = AllAfter-In t ms m a.1 i

process-later :
    (s : DaemonSubscriber) (d : Option (List MutationEvent))
    → AnswersAfter s.last_since (answered d)
    → (s.last_since ≤ (process_mutation_response s d).0.last_since)
      × AllAfter s.last_since (process_mutation_response s d).1
unfolding process_mutation_response
process-later s none h = (omega arith, tt)
process-later s (some []) h = (omega arith, tt)
process-later s (some (m ∷ ms)) h = (ground arith, h)

process-sent :
    (s : DaemonSubscriber) (d : Option (List MutationEvent)) (m : MutationEvent)
    → In m (process_mutation_response s d).1
    → 0 < m.timestamp
    → m.timestamp < (process_mutation_response s d).0.last_since
unfolding process_mutation_response
process-sent s none m i h = absurd i
process-sent s (some []) m i h = absurd i
process-sent s (some (n ∷ ns)) m i h = ground (arith, In-le-max_timestamp 0 (n ∷ ns) m i)

-- What holds of a turn that broadcasts nothing and of a response holds of every turn.
subscription_turn_either :
    (P : DaemonSubscriber → List MutationEvent → Type 0) (pool : Bool) (s : DaemonSubscriber)
    (a : Answer)
    → ((fallback : Bool) → P (record s { use_fallback = fallback }) [])
    → ((d : Option (List MutationEvent))
        → answered d ≡ a
        → P (process_mutation_response s d).0 (process_mutation_response s d).1)
    → P (subscription_turn pool s a).state (subscription_turn pool s a).sent
unfolding subscription_turn wait_for_mutations poll_mutations
subscription_turn_either P false s a nothing response = nothing s.use_fallback
subscription_turn_either P true s a nothing response = elim (Bool-cases s.use_fallback) [
  | inl e ↦ simp e (polls a response)
  | inr e ↦ simp e (waits a response)
]
  where
    polls :
        (a : Answer)
        → ((d : Option (List MutationEvent))
            → answered d ≡ a
            → P (process_mutation_response s d).0 (process_mutation_response s d).1)
        → P (poll_mutations s a).state (poll_mutations s a).sent
    polls no_connection r = nothing s.use_fallback
    polls refused r = nothing s.use_fallback
    polls (call_failed e) r = nothing s.use_fallback
    polls (answered d) r = r d refl

    waits :
        (a : Answer)
        → ((d : Option (List MutationEvent))
            → answered d ≡ a
            → P (process_mutation_response s d).0 (process_mutation_response s d).1)
        → P (wait_for_mutations s a).state (wait_for_mutations s a).sent
    waits no_connection r = nothing s.use_fallback
    waits refused r = nothing s.use_fallback
    waits (call_failed e) r = elim (Bool-cases (is_unknown_operation_error e)) [
      | inl u ↦ rw u (nothing true)
      | inr u ↦ rw u (nothing s.use_fallback)
    ]
    waits (answered d) r = r d refl

-- A turn asks for later mutations or for the same, and broadcasts what it was given, if anything.
subscription_turn-later :
    (pool : Bool) (s : DaemonSubscriber) (a : Answer)
    → AnswersAfter s.last_since a
    → (s.last_since ≤ (subscription_turn pool s a).state.last_since)
      × AllAfter s.last_since (subscription_turn pool s a).sent
subscription_turn-later pool s a h =
    subscription_turn_either (λ t sent. (s.last_since ≤ t.last_since) × AllAfter s.last_since sent)
      pool s a (λ fallback. (omega arith, tt))
      (λ d e. process-later s d (subst (AnswersAfter s.last_since) (sym e) h))

turns-later :
    (pool : Bool) (s : DaemonSubscriber) (xs : List Answer)
    → KeepsToTime pool s xs
    → AllAfter s.last_since (turns pool s xs).1
turns-later pool s [] h = tt
turns-later pool s (a ∷ xs) h =
    let (le, sent) = subscription_turn-later pool s a h.0 in
    let t = subscription_turn pool s a in
    AllAfter-append s.last_since t.sent (turns pool t.state xs).1 sent (
      AllAfter-le s.last_since t.state.last_since (turns pool t.state xs).1 le
        (turns-later pool t.state xs h.1))

-- What a turn broadcasts is before the time that the next one asks for.
subscription_turn-sent :
    (pool : Bool) (s : DaemonSubscriber) (a : Answer) (m : MutationEvent)
    → In m (subscription_turn pool s a).sent
    → 0 < m.timestamp
    → m.timestamp < (subscription_turn pool s a).state.last_since
subscription_turn-sent pool s a m =
    subscription_turn_either (λ t sent. In m sent → 0 < m.timestamp → m.timestamp < t.last_since)
      pool s a (λ fallback i h. absurd i) (λ d e. process-sent s d m)

-- If the daemon returns only mutations after the time that it is asked for, then a mutation that one turn
-- broadcasts is followed in later turns only by mutations that are later by more than a millisecond. So
-- nothing is broadcast twice, and what the daemon records within that millisecond is not broadcast.
pub turns_apart :
    (pool : Bool) (s : DaemonSubscriber) (a : Answer) (xs : List Answer) (m n : MutationEvent)
    → KeepsToTime pool (subscription_turn pool s a).state xs
    → In m (subscription_turn pool s a).sent
    → 0 < m.timestamp
    → In n (turns pool (subscription_turn pool s a).state xs).1
    → m.timestamp + 1 < n.timestamp
turns_apart pool s a xs m n k i h j =
    let t = subscription_turn pool s a in
    omega (
      arith,
      subscription_turn-sent pool s a m i h,
      AllAfter-In t.state.last_since (turns pool t.state xs).1 n (turns-later pool t.state xs k) j,
    )
