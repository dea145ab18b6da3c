-- ===== src/Hub/Safe.antt =====
-- No send channel of internal/webui/sse.go is closed twice or written to behind its close.
use loomcli.Common.{
  ℕ, ◌+◌, ◌≤◌, ◌<◌, ◌≡◌, refl, ap, subst, Bool, true, false, not, ◌&&◌, ◌||◌, List, [], ◌∷◌, ◌++◌,
  ltb, length, ◌==◌, count_of, if◌then◌else◌, arith, Bool-cases, inl, inr, suc, Option, none, some,
}
use loomcli.Hub.{
  MutationPayload, Phase, outside, connecting, streaming, leaving, unregistering, gone, Client, Hub,
  register_buf, broadcast_buf, retry_limit, new_hub, deliver, expel, admit, in_phase, refuse,
  receive_from,
}
use loomcli.Hub.System.{
  Move, connects, receives, disconnects, returns, registers, unregisters, broadcasts, queues,
  takes_register, takes_unregister, takes_broadcast, ticks, drains_one, exits, stops, update,
  change, register_first, register_second, receive, disconnect, unregister_first, unregister_second,
  broadcast_second, pick, take_register, take_unregister, take_broadcast, drain_one, selects, step,
  run,
}

abbrev pub one_if : Bool → ℕ
one_if true = 1
one_if false = 0

-- A handler that has not passed RegisterClient holds nothing of the hub.
abbrev budget : Phase → ℕ
budget outside = 0
budget connecting = 0
budget _ = 1

abbrev pub times : ℕ → List ℕ → ℕ
times i l = count_of (λ j. j == i) l

-- A client that is `n` times in the channel `register` is there, in the map or closed, at most once.
abbrev ClientSafe : ℕ → Client → Type 0
ClientSafe n c = (n + one_if c.member + one_if c.closed ≤ budget c.phase) × (c.panicked ≡ false)

abbrev Safe : Hub → Type 0
Safe h = (i : ℕ) → ClientSafe (times i h.register) (h.clients i)

in_phase-ClientSafe :
    (n : ℕ) (p : Phase) (c : Client)
    → budget c.phase ≤ budget p
    → ClientSafe n c
    → ClientSafe n (in_phase p c)
in_phase-ClientSafe n p c b h = (omega (arith, h.0), h.1)

refuse-ClientSafe :
    (n : ℕ) (c : Client) → budget c.phase ≡ 0 → ClientSafe n c → ClientSafe n (refuse c)
refuse-ClientSafe n c b h = ground arith

admit-ClientSafe : (n : ℕ) (c : Client) → ClientSafe (suc n) c → ClientSafe n (admit c)
admit-ClientSafe n c h = ground arith

expel-ClientSafe : (n : ℕ) (c : Client) → ClientSafe n c → ClientSafe n (expel c)
expel-ClientSafe n c h = ground arith

deliver-ClientSafe :
    (n : ℕ) (m : MutationPayload) (c : Client) → ClientSafe n c → ClientSafe n (deliver m c)
deliver-ClientSafe n m c h = ground arith

receive_from-ClientSafe :
    (n : ℕ) (l : List MutationPayload) (c : Client)
    → c.phase ≡ streaming
    → ClientSafe n c
    → ClientSafe n (receive_from l c)
receive_from-ClientSafe n [] c e h = ground arith
receive_from-ClientSafe n (m ∷ ms) c e h = h

pub times-append : (i j : ℕ) (l : List ℕ) → times i (l ++ j ∷ []) ≡ times i l + one_if (j == i)
times-append i j [] = ground arith
times-append i j (k ∷ l) = ground (arith, times-append i j l)

pub same_index : (i j : ℕ) → (i == j) ≡ true → i ≡ j
same_index i j h = ground arith

-- One client changes, and the channel `register` in its entries for that client only.
update-Safe :
    (h : Hub) (i : ℕ) (g : Client → Client) (r : List ℕ)
    → Safe h
    → ((j : ℕ) → (i == j) ≡ false → times j r ≡ times j h.register)
    → ClientSafe (times i r) (g (h.clients i))
    → (j : ℕ) → ClientSafe (times j r) (update h.clients i g j)
update-Safe h i g r s e c j = elim (Bool-cases (i == j)) [
  | inl x ↦ rw x (subst (λ k. ClientSafe (times k r) (g (h.clients k))) (same_index i j x) c)
  | inr x ↦ rw x (rw (e j x) (s j))
]

change-Safe :
    (h : Hub) (i : ℕ) (g : Client → Client)
    → Safe h
    → ((n : ℕ) → ClientSafe n (h.clients i) → ClientSafe n (g (h.clients i)))
    → Safe (change h i g)
change-Safe h i g s k = update-Safe h i g h.register s (λ j e. refl) (k (times i h.register) (s i))

register_first-Safe :
    (h : Hub) (i : ℕ) (p : Phase) → (h.clients i).phase ≡ p → Safe h → Safe (register_first h i p)
register_first-Safe h i outside e s = elim (Bool-cases h.stopped) [
  | inl d ↦ rw d (change-Safe h i refuse s (λ n c. refuse-ClientSafe n (h.clients i) (rw e refl) c))
  | inr d ↦ rw d (
      change-Safe h i (in_phase connecting) s
        (λ n c. in_phase-ClientSafe n connecting (h.clients i) (rw e (omega arith)) c))
]
register_first-Safe h i connecting e s = s
register_first-Safe h i streaming e s = s
register_first-Safe h i leaving e s = s
register_first-Safe h i unregistering e s = s
register_first-Safe h i gone e s = s

register_second-Safe :
    (h : Hub) (i : ℕ) (done : Bool) (p : Phase)
    → (h.clients i).phase ≡ p
    → Safe h
    → Safe (register_second h i done p)
register_second-Safe h i done connecting e s =
    elim (Bool-cases (h.stopped && (done || not (ltb (length h.register) register_buf)))) [
      | inl d ↦
          rw d (change-Safe h i refuse s (λ n c. refuse-ClientSafe n (h.clients i) (rw e refl) c))
      | inr d ↦ elim (Bool-cases (ltb (length h.register) register_buf)) [
        | inl l ↦
            rw (d, l)
              (update-Safe h i (in_phase streaming) (h.register ++ i ∷ []) s
                (λ j x. omega (arith, times-append j i h.register, ap one_if x))
                (ground (arith, times-append i i h.register, s i, e)))
        | inr l ↦ rw (d, l) s
      ]
    ]
register_second-Safe h i done outside e s = s
register_second-Safe h i done streaming e s = s
register_second-Safe h i done leaving e s = s
register_second-Safe h i done unregistering e s = s
register_second-Safe h i done gone e s = s

unregister_first-Safe :
    (h : Hub) (i : ℕ) (p : Phase) → (h.clients i).phase ≡ p → Safe h → Safe (unregister_first h i p)
unregister_first-Safe h i leaving e s =
    change-Safe h i (in_phase (if h.stopped then gone else unregistering)) s
      (λ n c. ground (arith, c, e))
unregister_first-Safe h i outside e s = s
unregister_first-Safe h i connecting e s = s
unregister_first-Safe h i streaming e s = s
unregister_first-Safe h i unregistering e s = s
unregister_first-Safe h i gone e s = s

unregister_second-Safe :
    (h : Hub) (i : ℕ) (done : Bool) (p : Phase)
    → (h.clients i).phase ≡ p
    → Safe h
    → Safe (unregister_second h i done p)
unregister_second-Safe h i done unregistering e s =
    let left = change-Safe h i (in_phase gone) s (λ n c. ground (arith, c, e)) in
    elim (Bool-cases (h.stopped && (done || not (ltb (length h.unregister) register_buf)))) [
      | inl d ↦ rw d left
      | inr d ↦ elim (Bool-cases (ltb (length h.unregister) register_buf)) [
        | inl l ↦ rw (d, l) left
        | inr l ↦ rw (d, l) s
      ]
    ]
unregister_second-Safe h i done outside e s = s
unregister_second-Safe h i done connecting e s = s
unregister_second-Safe h i done streaming e s = s
unregister_second-Safe h i done leaving e s = s
unregister_second-Safe h i done gone e s = s

receive-Safe :
    (h : Hub) (i : ℕ) (p : Phase) → (h.clients i).phase ≡ p → Safe h → Safe (receive h i p)
receive-Safe h i streaming e s =
    change-Safe h i (receive_from (h.clients i).send) s
      (λ n c. receive_from-ClientSafe n (h.clients i).send (h.clients i) e c)
receive-Safe h i outside e s = s
receive-Safe h i connecting e s = s
receive-Safe h i leaving e s = s
receive-Safe h i unregistering e s = s
receive-Safe h i gone e s = s

disconnect-Safe :
    (h : Hub) (i : ℕ) (p : Phase) → (h.clients i).phase ≡ p → Safe h → Safe (disconnect h i p)
disconnect-Safe h i streaming e s =
    change-Safe h i (in_phase leaving) s (λ n c. ground (arith, c, e))
disconnect-Safe h i outside e s = s
disconnect-Safe h i connecting e s = s
disconnect-Safe h i leaving e s = s
disconnect-Safe h i unregistering e s = s
disconnect-Safe h i gone e s = s

take_register-Safe : (h : Hub) (r : List ℕ) → h.register ≡ r → Safe h → Safe (take_register h r)
take_register-Safe h [] e s = s
take_register-Safe h (i ∷ is) e s =
    update-Safe h i admit is s (λ j x. ground (arith, ap (times j) e))
      (admit-ClientSafe (times i is) (h.clients i) (ground (arith, ap (times i) e, s i)))

take_unregister-Safe : (h : Hub) (r : List ℕ) → Safe h → Safe (take_unregister h r)
take_unregister-Safe h [] s = s
take_unregister-Safe h (i ∷ is) s =
    change-Safe h i expel s (λ n c. expel-ClientSafe n (h.clients i) c)

take_broadcast-Safe : (h : Hub) (l : List MutationPayload) → Safe h → Safe (take_broadcast h l)
take_broadcast-Safe h [] s = s
take_broadcast-Safe h (m ∷ ms) s =
    λ j. deliver-ClientSafe (times j h.register) m (h.clients j) (s j)

if_Safe : (b : Bool) (h k : Hub) → Safe h → Safe k → Safe (if b then h else k)
if_Safe true h k s t = s
if_Safe false h k s t = t

broadcast_second-Safe :
    (h : Hub) (o : Option (MutationPayload × List MutationPayload))
    → Safe h
    → Safe (broadcast_second h o)
broadcast_second-Safe h none s = s
broadcast_second-Safe h (some (m, ms)) s = if_Safe (ltb (length h.retry_queue) retry_limit) _ _ s s

drain_one-Safe : (h : Hub) (l : List MutationPayload) → Safe h → Safe (drain_one h l)
drain_one-Safe h [] s = s
drain_one-Safe h (m ∷ ms) s = if_Safe (ltb (length h.broadcast) broadcast_buf) _ _ s s

step-Safe : (h : Hub) (m : Move) → Safe h → Safe (step h m)
unfolding step
step-Safe h (connects i) s = register_first-Safe h i (h.clients i).phase refl s
step-Safe h (registers i done) s = register_second-Safe h i done (h.clients i).phase refl s
step-Safe h (receives i) s = receive-Safe h i (h.clients i).phase refl s
step-Safe h (disconnects i) s = disconnect-Safe h i (h.clients i).phase refl s
step-Safe h (returns i) s = unregister_first-Safe h i (h.clients i).phase refl s
step-Safe h (unregisters i done) s = unregister_second-Safe h i done (h.clients i).phase refl s
step-Safe h (broadcasts m) s = if_Safe (ltb (length h.broadcast) broadcast_buf) _ _ s s
step-Safe h (queues n) s = if_Safe h.drains _ _ s (broadcast_second-Safe h (pick n h.pending) s)
step-Safe h takes_register s = if_Safe (selects h) _ _ (take_register-Safe h h.register refl s) s
step-Safe h takes_unregister s = if_Safe (selects h) _ _ (take_unregister-Safe h h.unregister s) s
step-Safe h takes_broadcast s = if_Safe (selects h) _ _ (take_broadcast-Safe h h.broadcast s) s
step-Safe h ticks s = if_Safe (selects h) _ _ s s
step-Safe h drains_one s = if_Safe h.drains _ _ (drain_one-Safe h h.retry_queue s) s
step-Safe h exits s =
    if_Safe (selects h && h.stopped) _ _
      (λ j. expel-ClientSafe (times j h.register) (h.clients j) (s j)) s
step-Safe h stops s = s

run-Safe : (h : Hub) (ms : List Move) → Safe h → Safe (run h ms)
unfolding run
run-Safe h [] s = s
run-Safe h (m ∷ ms) s = run-Safe (step h m) ms (step-Safe h m s)

-- Under every schedule of the handlers, of callers of Broadcast, of Run and of one Stop, nothing is sent
-- on a closed channel and none is closed twice, and a client that is in the map, or will be, has its
-- channel open.
pub run-new_hub_safe :
    (ms : List Move) (i : ℕ)
    → let h = run new_hub ms in
      let c = h.clients i in
      (c.panicked ≡ false)
      × (c.member ≡ true → (c.closed ≡ false) × (times i h.register ≡ 0))
      × (times i h.register ≤ 1)
      × (0 < times i h.register → c.closed ≡ false)
unfolding new_hub
run-new_hub_safe ms i =
    let s = run-Safe new_hub ms (λ j. (omega arith, refl)) i in
    (s.1, (λ e. ground (arith, s, e)), ground (arith, s), (λ e. ground (arith, s, e)))
