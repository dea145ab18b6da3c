-- ===== src/Hub/Accounting.antt =====
-- What becomes of the mutations that are given to Broadcast of internal/webui/sse.go, and their order.
use loomcli.Common.{
  ℕ, zero, suc, ◌+◌, ◌≡◌, refl, ap, Bool, true, false, ◌&&◌, Option, none, some, List, [], ◌∷◌,
  ◌++◌, ltb, length, count_of, if◌then◌else◌, arith, Bool-cases, inl, inr, lt→ltb,
}
use loomcli.Hub.{
  MutationPayload, Phase, outside, connecting, streaming, leaving, unregistering, gone, Hub,
  broadcast_buf, retry_limit, new_hub,
}
use loomcli.Hub.System.{
  Move, connects, receives, disconnects, returns, registers, unregisters, broadcasts, queues,
  takes_register, takes_unregister, takes_broadcast, ticks, drains_one, exits, stops,
  register_first, register_second, receive, disconnect, unregister_first, unregister_second,
  broadcast_first, broadcast_second, pick, put_back, take_register, take_unregister, take_broadcast,
  drain_one, selects, step, run,
}

-- What a move gives to Broadcast, what Run takes in it to send it on, and what is dropped in it.
abbrev pub given : Move → List MutationPayload
given (broadcasts m) = m ∷ []
given _ = []

abbrev first : List MutationPayload → List MutationPayload
first [] = []
first (m ∷ ms) = m ∷ []

abbrev dropped : Hub → Option (MutationPayload × List MutationPayload) → List MutationPayload
dropped h none = []
dropped h (some (m, ms)) = if ltb (length h.retry_queue) retry_limit then [] else m ∷ []

abbrev pub handled : Hub → Move → List MutationPayload
handled h takes_broadcast = if selects h then first h.broadcast else []
handled h _ = []

abbrev pub lost : Hub → Move → List MutationPayload
lost h (queues n) = if h.drains then [] else dropped h (pick n h.pending)
lost h _ = []

-- In a run.
abbrev pub all_given : List Move → List MutationPayload
all_given [] = []
all_given (m ∷ ms) = given m ++ all_given ms

abbrev pub all_handled : Hub → List Move → List MutationPayload
all_handled h [] = []
all_handled h (m ∷ ms) = handled h m ++ all_handled (step h m) ms

abbrev pub all_lost : Hub → List Move → List MutationPayload
all_lost h [] = []
all_lost h (m ∷ ms) = lost h m ++ all_lost (step h m) ms

length-append : (l k : List MutationPayload) → length (l ++ k) ≡ length l + length k
length-append [] k = omega arith
length-append (m ∷ l) k = omega (arith, length-append l k)

module _ (p : MutationPayload → Bool) where
  abbrev pub many : List MutationPayload → ℕ
  many l = count_of p l

  -- In the channel, in the retry queue, or with a caller that waits for the lock.
  abbrev pub held : Hub → ℕ
  held h = many h.broadcast + many h.retry_queue + many h.pending

  abbrev Balanced :
      Hub → Hub → List MutationPayload → List MutationPayload → List MutationPayload → Type 0
  Balanced h h' g d l =
      (held h' + many d + many l ≡ held h + many g)
      × (h'.dropped_count ≡ h.dropped_count + length l)

  many-append : (l k : List MutationPayload) → many (l ++ k) ≡ many l + many k
  many-append [] k = omega arith
  many-append (m ∷ l) k = ground (arith, many-append l k)

  pick-many :
      (n : ℕ) (l ms : List MutationPayload) (m : MutationPayload)
      → pick n l ≡ some (m, ms)
      → many l ≡ many (m ∷ ms)
  pick-many n [] ms m e = absurd (cc e)
  pick-many zero (x ∷ l) ms m e = ground (arith, e)
  pick-many (suc n) (x ∷ l) ms m e = go (pick n l) (λ y ys. pick-many n l ys y) e
    where
      go :
          (o : Option (MutationPayload × List MutationPayload))
          → ((y : MutationPayload) (ys : List MutationPayload)
              → o ≡ some (y, ys)
              → many l ≡ many (y ∷ ys))
          → put_back x o ≡ some (m, ms)
          → many (x ∷ l) ≡ many (m ∷ ms)
      go none f q = absurd (cc q)
      go (some (y, ys)) f q = ground (arith, f y ys refl, q)

  same : (h : Hub) → Balanced h h [] [] []
  same h = (omega arith, omega arith)

  register_first-Balanced :
      (h : Hub) (i : ℕ) (c : Phase) → Balanced h (register_first h i c) [] [] []
  register_first-Balanced h i outside = ground (arith, same h)
  register_first-Balanced h i connecting = same h
  register_first-Balanced h i streaming = same h
  register_first-Balanced h i leaving = same h
  register_first-Balanced h i unregistering = same h
  register_first-Balanced h i gone = same h

  register_second-Balanced :
      (h : Hub) (i : ℕ) (done : Bool) (c : Phase) → Balanced h (register_second h i done c) [] [] []
  register_second-Balanced h i done outside = same h
  register_second-Balanced h i done connecting = ground (arith, same h)
  register_second-Balanced h i done streaming = same h
  register_second-Balanced h i done leaving = same h
  register_second-Balanced h i done unregistering = same h
  register_second-Balanced h i done gone = same h

  unregister_second-Balanced :
      (h : Hub) (i : ℕ) (done : Bool) (c : Phase)
      → Balanced h (unregister_second h i done c) [] [] []
  unregister_second-Balanced h i done outside = same h
  unregister_second-Balanced h i done connecting = same h
  unregister_second-Balanced h i done streaming = same h
  unregister_second-Balanced h i done leaving = same h
  unregister_second-Balanced h i done unregistering = ground (arith, same h)
  unregister_second-Balanced h i done gone = same h

  loop-Balanced :
      (h : Hub) (i : ℕ) (c : Phase)
      → Balanced h (receive h i c) [] [] []
        × Balanced h (disconnect h i c) [] [] []
        × Balanced h (unregister_first h i c) [] [] []
  loop-Balanced h i outside = (same h, same h, same h)
  loop-Balanced h i connecting = (same h, same h, same h)
  loop-Balanced h i streaming = (same h, same h, same h)
  loop-Balanced h i leaving = (same h, same h, same h)
  loop-Balanced h i unregistering = (same h, same h, same h)
  loop-Balanced h i gone = (same h, same h, same h)

  broadcast_first-Balanced :
      (h : Hub) (m : MutationPayload) → Balanced h (broadcast_first h m) (m ∷ []) [] []
  broadcast_first-Balanced h m = ground (arith, many-append h.broadcast (m ∷ []))

  broadcast_second-Balanced :
      (h : Hub) (o : Option (MutationPayload × List MutationPayload))
      → ((m : MutationPayload) (ms : List MutationPayload)
          → o ≡ some (m, ms)
          → many h.pending ≡ many (m ∷ ms))
      → Balanced h (broadcast_second h o) [] [] (dropped h o)
  broadcast_second-Balanced h none f = same h
  broadcast_second-Balanced h (some (m, ms)) f =
      ground (arith, f m ms refl, many-append h.retry_queue (m ∷ []))

  take_register-Balanced : (h : Hub) (r : List ℕ) → Balanced h (take_register h r) [] [] []
  take_register-Balanced h [] = same h
  take_register-Balanced h (i ∷ is) = same h

  take_unregister-Balanced : (h : Hub) (r : List ℕ) → Balanced h (take_unregister h r) [] [] []
  take_unregister-Balanced h [] = same h
  take_unregister-Balanced h (i ∷ is) = same h

  take_broadcast-Balanced :
      (h : Hub) (l : List MutationPayload)
      → h.broadcast ≡ l
      → Balanced h (take_broadcast h l) [] (first l) []
  take_broadcast-Balanced h [] e = same h
  take_broadcast-Balanced h (m ∷ ms) e = ground (arith, ap many e)

  drain_one-Balanced :
      (h : Hub) (l : List MutationPayload) → h.retry_queue ≡ l → Balanced h (drain_one h l) [] [] []
  drain_one-Balanced h [] e = same h
  drain_one-Balanced h (m ∷ ms) e = ground (arith, ap many e, many-append h.broadcast (m ∷ []))

  if_same :
      (b : Bool) (h k k' : Hub)
      → Balanced h k [] [] []
      → Balanced h k' [] [] []
      → Balanced h (if b then k else k') [] [] []
  if_same true h k k' x y = x
  if_same false h k k' x y = y

  unless_lost :
      (b : Bool) (h k : Hub) (l : List MutationPayload)
      → Balanced h k [] [] l
      → Balanced h (if b then h else k) [] [] (if b then [] else l)
  unless_lost true h k l x = same h
  unless_lost false h k l x = x

  step-Balanced : (h : Hub) (m : Move) → Balanced h (step h m) (given m) (handled h m) (lost h m)
  unfolding step
  step-Balanced h (connects i) = register_first-Balanced h i (h.clients i).phase
  step-Balanced h (registers i done) = register_second-Balanced h i done (h.clients i).phase
  step-Balanced h (receives i) = (loop-Balanced h i (h.clients i).phase).0
  step-Balanced h (disconnects i) = (loop-Balanced h i (h.clients i).phase).1
  step-Balanced h (returns i) = (loop-Balanced h i (h.clients i).phase).2
  step-Balanced h (unregisters i done) = unregister_second-Balanced h i done (h.clients i).phase
  step-Balanced h (broadcasts m) = broadcast_first-Balanced h m
  step-Balanced h (queues n) =
      unless_lost h.drains h _ _
        (broadcast_second-Balanced h (pick n h.pending) (λ m ms f. pick-many n h.pending ms m f))
  step-Balanced h takes_register =
      if_same (selects h) h _ _ (take_register-Balanced h h.register) (same h)
  step-Balanced h takes_unregister =
      if_same (selects h) h _ _ (take_unregister-Balanced h h.unregister) (same h)
  step-Balanced h takes_broadcast = elim (Bool-cases (selects h)) [
    | inl e ↦ rw e (take_broadcast-Balanced h h.broadcast refl)
    | inr e ↦ rw e (same h)
  ]
  step-Balanced h ticks = if_same (selects h) h _ _ (same h) (same h)
  step-Balanced h drains_one =
      if_same h.drains h _ _ (drain_one-Balanced h h.retry_queue refl) (same h)
  step-Balanced h exits = if_same (selects h && h.stopped) h _ _ (same h) (same h)
  step-Balanced h stops = same h

  run-Balanced :
      (h : Hub) (ms : List Move)
      → Balanced h (run h ms) (all_given ms) (all_handled h ms) (all_lost h ms)
  unfolding run
  run-Balanced h [] = same h
  run-Balanced h (m ∷ ms) =
      let b = step-Balanced h m in
      let r = run-Balanced (step h m) ms in
      (
        omega (
          arith,
          b.0,
          r.0,
          many-append (given m) (all_given ms),
          many-append (handled h m) (all_handled (step h m) ms),
          many-append (lost h m) (all_lost (step h m) ms),
        ),
        omega (arith, b.1, r.1, length-append (lost h m) (all_lost (step h m) ms)),
      )

-- Under every schedule, whatever kind of mutation is counted: each that was given to Broadcast has been
-- taken by Run, or is in the channel, the retry queue or with a caller that waits for the lock, or was
-- dropped, and none is twice; the counter of drops is exact.
pub run-new_hub_accounts :
    (ms : List Move) (p : MutationPayload → Bool)
    → let h = run new_hub ms in
      (count_of p (all_given ms)
        ≡ count_of p (all_handled new_hub ms)
          + count_of p h.broadcast
          + count_of p h.retry_queue
          + count_of p h.pending
          + count_of p (all_lost new_hub ms))
      × (h.dropped_count ≡ length (all_lost new_hub ms))
unfolding new_hub
run-new_hub_accounts ms p =
    let b = run-Balanced p new_hub ms in (omega (arith, b.0), omega (arith, b.1))

-- With a full channel and mutations in the retry queue, a mutation that is broadcast after Run's next
-- take stands in the channel before all of them: order is not kept.
broadcast_overtakes :
    (h : Hub) (m first_one queued : MutationPayload) (rest waiting : List MutationPayload)
    → selects h ≡ true
    → h.broadcast ≡ first_one ∷ rest
    → length h.broadcast ≡ broadcast_buf
    → h.retry_queue ≡ queued ∷ waiting
    → let h' = run h (takes_broadcast ∷ broadcasts m ∷ []) in
      (h'.broadcast ≡ rest ++ m ∷ []) × (h'.retry_queue ≡ queued ∷ waiting)
unfolding run step
broadcast_overtakes h m x q rest w s b l r =
    let short : ltb (length rest) broadcast_buf ≡ true =
      lt→ltb (length rest) broadcast_buf (omega (arith, l, ap length b)) in
    rw (s, b, short) (refl, r)
