-- ===== src/Hub/Leak.antt =====
-- A client of internal/webui/sse.go whose removal Run takes before its registration.
use loomcli.Common.{
  ℕ, ◌+◌, ◌<◌, ◌≡◌, refl, sym, ap, ◌∙◌, subst, Bool, true, false, not, ◌&&◌, ◌||◌, Option, none,
  some, List, [], ◌∷◌, ◌++◌, ltb, length, ◌==◌, if◌then◌else◌, arith, Bool-cases, inl, inr,
}
use loomcli.Hub.{
  MutationPayload, Phase, outside, connecting, streaming, leaving, unregistering, gone, Client, Hub,
  register_buf, deliver, expel, admit, in_phase, refuse, receive_from,
}
use loomcli.Hub.System.{
  Move, connects, receives, disconnects, returns, registers, unregisters, broadcasts, queues,
  takes_register, takes_unregister, takes_broadcast, ticks, drains_one, exits, stops, update,
  change, register_first, register_second, receive, disconnect, unregister_first, unregister_second,
  broadcast_second, pick, take_register, take_unregister, take_broadcast, drain_one, selects, step,
  run,
}
use loomcli.Hub.Safe.{one_if, times, times-append, same_index}

-- The handler is behind UnregisterClient, no removal of it waits, and it is in the map or on its way there.
abbrev pub Leaked : Hub → ℕ → Type 0
Leaked h i =
    ((h.clients i).phase ≡ gone)
    × (times i h.unregister ≡ 0)
    × (0 < times i h.register + one_if (h.clients i).member)

-- Another client changes, and the channels in its entries alone.
other-Leaked :
    (h : Hub) (i j : ℕ) (g : Client → Client) (r u : List ℕ)
    → (j == i) ≡ false
    → times i r ≡ times i h.register
    → times i u ≡ times i h.unregister
    → Leaked h i
    → Leaked (record h { clients = update h.clients j g; register = r; unregister = u }) i
other-Leaked h i j g r u e a b l = rw e (l.0, omega (arith, b, l.1), omega (arith, a, l.2))

-- Every move of a handler, by the phase that it is in.
abbrev handles : Hub → ℕ → Phase → Move → Hub
handles h j p (connects _) = register_first h j p
handles h j p (registers _ done) = register_second h j done p
handles h j p (receives _) = receive h j p
handles h j p (disconnects _) = disconnect h j p
handles h j p (returns _) = unregister_first h j p
handles h j p (unregisters _ done) = unregister_second h j done p
handles h j p _ = h

if_Leaked : (b : Bool) (h k : Hub) (i : ℕ) → Leaked h i → Leaked k i → Leaked (if b then h else k) i
if_Leaked true h k i x y = x
if_Leaked false h k i x y = y

module _ (h : Hub) (i j : ℕ) (n : (j == i) ≡ false) (l : Leaked h i) where
  change-Leaked : (g : Client → Client) → Leaked (change h j g) i
  change-Leaked g = other-Leaked h i j g h.register h.unregister n refl refl l

  register_first-Leaked : (p : Phase) → Leaked (register_first h j p) i
  register_first-Leaked outside =
      if_Leaked h.stopped _ _ i (change-Leaked refuse) (change-Leaked (in_phase connecting))
  register_first-Leaked connecting = l
  register_first-Leaked streaming = l
  register_first-Leaked leaving = l
  register_first-Leaked unregistering = l
  register_first-Leaked gone = l

  register_second-Leaked : (done : Bool) (p : Phase) → Leaked (register_second h j done p) i
  register_second-Leaked done connecting =
      if_Leaked (h.stopped && (done || not (ltb (length h.register) register_buf)))
        (change h j refuse)
        (if ltb (length h.register) register_buf
          then record (change h j (in_phase streaming)) { register = h.register ++ j ∷ [] }
          else h)
        i (change-Leaked refuse)
        (if_Leaked (ltb (length h.register) register_buf)
          (record (change h j (in_phase streaming)) { register = h.register ++ j ∷ [] }) h i
          (other-Leaked h i j (in_phase streaming) (h.register ++ j ∷ []) h.unregister n
            (omega (arith, times-append i j h.register, ap one_if n)) refl l)
          l)
  register_second-Leaked done outside = l
  register_second-Leaked done streaming = l
  register_second-Leaked done leaving = l
  register_second-Leaked done unregistering = l
  register_second-Leaked done gone = l

  receive-Leaked : (p : Phase) → Leaked (receive h j p) i
  receive-Leaked streaming = change-Leaked (receive_from (h.clients j).send)
  receive-Leaked outside = l
  receive-Leaked connecting = l
  receive-Leaked leaving = l
  receive-Leaked unregistering = l
  receive-Leaked gone = l

  disconnect-Leaked : (p : Phase) → Leaked (disconnect h j p) i
  disconnect-Leaked streaming = change-Leaked (in_phase leaving)
  disconnect-Leaked outside = l
  disconnect-Leaked connecting = l
  disconnect-Leaked leaving = l
  disconnect-Leaked unregistering = l
  disconnect-Leaked gone = l

  unregister_first-Leaked : (p : Phase) → Leaked (unregister_first h j p) i
  unregister_first-Leaked leaving =
      change-Leaked (in_phase (if h.stopped then gone else unregistering))
  unregister_first-Leaked outside = l
  unregister_first-Leaked connecting = l
  unregister_first-Leaked streaming = l
  unregister_first-Leaked unregistering = l
  unregister_first-Leaked gone = l

  unregister_second-Leaked : (done : Bool) (p : Phase) → Leaked (unregister_second h j done p) i
  unregister_second-Leaked done unregistering =
      if_Leaked (h.stopped && (done || not (ltb (length h.unregister) register_buf)))
        (change h j (in_phase gone))
        (if ltb (length h.unregister) register_buf
          then record (change h j (in_phase gone)) { unregister = h.unregister ++ j ∷ [] }
          else h)
        i (change-Leaked (in_phase gone))
        (if_Leaked (ltb (length h.unregister) register_buf)
          (record (change h j (in_phase gone)) { unregister = h.unregister ++ j ∷ [] }) h i
          (other-Leaked h i j (in_phase gone) h.register (h.unregister ++ j ∷ []) n refl
            (omega (arith, times-append i j h.unregister, ap one_if n)) l)
          l)
  unregister_second-Leaked done outside = l
  unregister_second-Leaked done connecting = l
  unregister_second-Leaked done streaming = l
  unregister_second-Leaked done leaving = l
  unregister_second-Leaked done gone = l

  handles-Leaked : (p : Phase) (m : Move) → Leaked (handles h j p m) i
  handles-Leaked p (connects _) = register_first-Leaked p
  handles-Leaked p (registers _ done) = register_second-Leaked done p
  handles-Leaked p (receives _) = receive-Leaked p
  handles-Leaked p (disconnects _) = disconnect-Leaked p
  handles-Leaked p (returns _) = unregister_first-Leaked p
  handles-Leaked p (unregisters _ done) = unregister_second-Leaked done p
  handles-Leaked p (broadcasts m) = l
  handles-Leaked p (queues k) = l
  handles-Leaked p takes_register = l
  handles-Leaked p takes_unregister = l
  handles-Leaked p takes_broadcast = l
  handles-Leaked p ticks = l
  handles-Leaked p drains_one = l
  handles-Leaked p exits = l
  handles-Leaked p stops = l

-- Behind UnregisterClient a handler makes no move.
gone-Leaked : (h : Hub) (i : ℕ) (m : Move) → Leaked h i → Leaked (handles h i gone m) i
gone-Leaked h i (connects _) l = l
gone-Leaked h i (registers _ done) l = l
gone-Leaked h i (receives _) l = l
gone-Leaked h i (disconnects _) l = l
gone-Leaked h i (returns _) l = l
gone-Leaked h i (unregisters _ done) l = l
gone-Leaked h i (broadcasts m) l = l
gone-Leaked h i (queues k) l = l
gone-Leaked h i takes_register l = l
gone-Leaked h i takes_unregister l = l
gone-Leaked h i takes_broadcast l = l
gone-Leaked h i ticks l = l
gone-Leaked h i drains_one l = l
gone-Leaked h i exits l = l
gone-Leaked h i stops l = l

handle-Leaked :
    (h : Hub) (i j : ℕ) (m : Move) → Leaked h i → Leaked (handles h j (h.clients j).phase m) i
handle-Leaked h i j m l = elim (Bool-cases (j == i)) [
  | inl e ↦
      subst (λ k. Leaked (handles h k (h.clients k).phase m) i) (sym (same_index j i e))
        (subst (λ p. Leaked (handles h i p m) i) (sym l.0) (gone-Leaked h i m l))
  | inr e ↦ handles-Leaked h i j e l (h.clients j).phase m
]

take_register-Leaked :
    (h : Hub) (i : ℕ) (r : List ℕ) → h.register ≡ r → Leaked h i → Leaked (take_register h r) i
take_register-Leaked h i [] e l = l
take_register-Leaked h i (j ∷ js) e l = elim (Bool-cases (j == i)) [
  | inl x ↦ rw x (l.0, l.1, omega arith)
  | inr x ↦ other-Leaked h i j admit js h.unregister x (ground (arith, ap (times i) e, x)) refl l
]

take_unregister-Leaked :
    (h : Hub) (i : ℕ) (r : List ℕ) → h.unregister ≡ r → Leaked h i → Leaked (take_unregister h r) i
take_unregister-Leaked h i [] e l = l
take_unregister-Leaked h i (j ∷ js) e l = elim (Bool-cases (j == i)) [
  | inl x ↦ absurd (ground (arith, ap (times i) e, x, l.1))
  | inr x ↦ other-Leaked h i j expel h.register js x refl (ground (arith, ap (times i) e, x)) l
]

deliver_keeps :
    (m : MutationPayload) (c : Client)
    → ((deliver m c).phase ≡ c.phase) × ((deliver m c).member ≡ c.member)
deliver_keeps m c = ground arith

take_broadcast-Leaked :
    (h : Hub) (i : ℕ) (b : List MutationPayload) → Leaked h i → Leaked (take_broadcast h b) i
take_broadcast-Leaked h i [] l = l
take_broadcast-Leaked h i (m ∷ ms) l =
    let k = deliver_keeps m (h.clients i) in (k.0 ∙ l.0, l.1, omega (arith, l.2, ap one_if k.1))

broadcast_second-Leaked :
    (h : Hub) (i : ℕ) (o : Option (MutationPayload × List MutationPayload))
    → Leaked h i
    → Leaked (broadcast_second h o) i
broadcast_second-Leaked h i none l = l
broadcast_second-Leaked h i (some (m, ms)) l = if_Leaked _ _ _ i l l

drain_one-Leaked :
    (h : Hub) (i : ℕ) (q : List MutationPayload) → Leaked h i → Leaked (drain_one h q) i
drain_one-Leaked h i [] l = l
drain_one-Leaked h i (m ∷ ms) l = if_Leaked _ _ _ i l l

-- Run has not taken the closed `done`.
abbrev pub Continues : Move → Type 0
Continues exits = ⊥
Continues _ = Unit {0}

abbrev pub AllContinue : List Move → Type 0
AllContinue [] = Unit {0}
AllContinue (m ∷ ms) = Continues m × AllContinue ms

step-Leaked : (h : Hub) (i : ℕ) (m : Move) → Continues m → Leaked h i → Leaked (step h m) i
unfolding step
step-Leaked h i (connects j) c l = handle-Leaked h i j (connects j) l
step-Leaked h i (registers j done) c l = handle-Leaked h i j (registers j done) l
step-Leaked h i (receives j) c l = handle-Leaked h i j (receives j) l
step-Leaked h i (disconnects j) c l = handle-Leaked h i j (disconnects j) l
step-Leaked h i (returns j) c l = handle-Leaked h i j (returns j) l
step-Leaked h i (unregisters j done) c l = handle-Leaked h i j (unregisters j done) l
step-Leaked h i (broadcasts m) c l = if_Leaked _ _ _ i l l
step-Leaked h i (queues n) c l =
    if_Leaked h.drains _ _ i l (broadcast_second-Leaked h i (pick n h.pending) l)
step-Leaked h i takes_register c l =
    if_Leaked (selects h) _ _ i (take_register-Leaked h i h.register refl l) l
step-Leaked h i takes_unregister c l =
    if_Leaked (selects h) _ _ i (take_unregister-Leaked h i h.unregister refl l) l
step-Leaked h i takes_broadcast c l =
    if_Leaked (selects h) _ _ i (take_broadcast-Leaked h i h.broadcast l) l
step-Leaked h i ticks c l = if_Leaked (selects h) _ _ i l l
step-Leaked h i drains_one c l = if_Leaked h.drains _ _ i (drain_one-Leaked h i h.retry_queue l) l
step-Leaked h i exits c l = absurd c
step-Leaked h i stops c l = l

-- A client whose handler has returned, while its registration waits and its removal does not, is in the
-- hub's map or in the channel to it as long as Run goes on.
pub run-Leaked :
    (h : Hub) (i : ℕ) (ms : List Move) → AllContinue ms → Leaked h i → Leaked (run h ms) i
unfolding run
run-Leaked h i [] c l = l
run-Leaked h i (m ∷ ms) c l = run-Leaked (step h m) i ms c.1 (step-Leaked h i m c.0 l)

-- Run's select takes the removal of a client before its registration, which was sent first: then the
-- handler of the client has returned, and the client stays in the hub's map as long as Run goes on.
removal_first_leaks :
    (h : Hub) (i : ℕ) (rest : List ℕ) (ms : List Move)
    → selects h ≡ true
    → (h.clients i).phase ≡ gone
    → h.unregister ≡ i ∷ rest
    → times i rest ≡ 0
    → (h.clients i).member ≡ false
    → 0 < times i h.register
    → AllContinue ms
    → Leaked (run h (takes_unregister ∷ ms)) i
unfolding run step
removal_first_leaks h i rest ms s p u t m r c =
    run-Leaked (step h takes_unregister) i ms c (rw s (taken h.unregister u))
  where
    taken : (l : List ℕ) → l ≡ i ∷ rest → Leaked (take_unregister h l) i
    taken [] e = absurd (cc e)
    taken (j ∷ js) e =
        let q : j ≡ i = cc e in
        let js_rest : js ≡ rest = cc e in rw q (ground (arith, p, r, m, ap (times i) js_rest, t))
