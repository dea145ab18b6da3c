-- ===== src/Hub/System.antt =====
-- The goroutines of internal/webui/sse.go, cut at channel operations and locks: the handlers of
-- clients, callers of Broadcast, and Run. Stop is called once.
use loomcli.Common.{
  ℕ, zero, suc, ◌+◌, Bool, true, false, not, ◌&&◌, ◌||◌, Option, none, some, List, [], ◌∷◌, ◌++◌,
  ltb, length, ◌==◌, if◌then◌else◌,
}
use loomcli.Hub.{
  MutationPayload, Phase, outside, connecting, streaming, leaving, unregistering, gone, Client, Hub,
  register_buf, broadcast_buf, retry_limit, deliver, expel, admit, in_phase, refuse, receive_from,
}

-- A Boolean says that a select takes `done` where it could also send.
pub data Move : Type 0 where
  connects receives disconnects returns : ℕ → Move
  registers unregisters : ℕ → Bool → Move
  broadcasts : MutationPayload → Move
  queues : ℕ → Move
  takes_register takes_unregister takes_broadcast ticks drains_one exits stops : Move

abbrev pub update : (ℕ → Client) → ℕ → (Client → Client) → ℕ → Client
update f i g j = if i == j then g (f j) else f j

abbrev pub change : Hub → ℕ → (Client → Client) → Hub
change h i g = record h { clients = update h.clients i g }

-- RegisterClient, in two selects.
abbrev pub register_first : Hub → ℕ → Phase → Hub
register_first h i outside =
    if h.stopped then change h i refuse else change h i (in_phase connecting)
register_first h i _ = h

abbrev pub register_second : Hub → ℕ → Bool → Phase → Hub
register_second h i done connecting =
    let room = ltb (length h.register) register_buf in
    if h.stopped && (done || not room)
    then change h i refuse
    else if room
    then record (change h i (in_phase streaming)) { register = h.register ++ i ∷ [] }
    else h
register_second h i done _ = h

-- The loop of the handler.
abbrev pub receive : Hub → ℕ → Phase → Hub
receive h i streaming = change h i (receive_from (h.clients i).send)
receive h i _ = h

abbrev pub disconnect : Hub → ℕ → Phase → Hub
disconnect h i streaming = change h i (in_phase leaving)
disconnect h i _ = h

-- UnregisterClient, in two selects.
abbrev pub unregister_first : Hub → ℕ → Phase → Hub
unregister_first h i leaving = change h i (in_phase (if h.stopped then gone else unregistering))
unregister_first h i _ = h

abbrev pub unregister_second : Hub → ℕ → Bool → Phase → Hub
unregister_second h i done unregistering =
    let room = ltb (length h.unregister) register_buf in
    if h.stopped && (done || not room)
    then change h i (in_phase gone)
    else if room
    then record (change h i (in_phase gone)) { unregister = h.unregister ++ i ∷ [] }
    else h
unregister_second h i done _ = h

-- Broadcast's select, and what it does with the lock.
abbrev pub broadcast_first : Hub → MutationPayload → Hub
broadcast_first h m =
    if ltb (length h.broadcast) broadcast_buf
    then record h { broadcast = h.broadcast ++ m ∷ [] }
    else record h { pending = m ∷ h.pending }

abbrev pub put_back :
    MutationPayload
    → Option (MutationPayload × List MutationPayload)
    → Option (MutationPayload × List MutationPayload)
put_back x none = none
put_back x (some (m, ms)) = some (m, x ∷ ms)

-- One of the callers that wait for the lock.
abbrev pub pick : ℕ → List MutationPayload → Option (MutationPayload × List MutationPayload)
pick n [] = none
pick zero (m ∷ ms) = some (m, ms)
pick (suc n) (m ∷ ms) = put_back m (pick n ms)

abbrev pub broadcast_second : Hub → Option (MutationPayload × List MutationPayload) → Hub
broadcast_second h none = h
broadcast_second h (some (m, ms)) =
    if ltb (length h.retry_queue) retry_limit
    then record h { retry_queue = h.retry_queue ++ m ∷ []; pending = ms }
    else record h { dropped_count = h.dropped_count + 1; pending = ms }

-- The cases of Run's select.
abbrev pub take_register : Hub → List ℕ → Hub
take_register h [] = h
take_register h (i ∷ is) = record (change h i admit) { register = is }

abbrev pub take_unregister : Hub → List ℕ → Hub
take_unregister h [] = h
take_unregister h (i ∷ is) = record (change h i expel) { unregister = is }

abbrev pub take_broadcast : Hub → List MutationPayload → Hub
take_broadcast h [] = h
take_broadcast h (m ∷ ms) = record h { clients = λ j. deliver m (h.clients j); broadcast = ms }

-- drainRetryQueue's loop, at one mutation.
abbrev pub drain_one : Hub → List MutationPayload → Hub
drain_one h [] = record h { drains = false }
drain_one h (m ∷ ms) =
    if ltb (length h.broadcast) broadcast_buf
    then record h { broadcast = h.broadcast ++ m ∷ []; retry_queue = ms }
    else record h { drains = false }

abbrev pub close_all : Hub → Hub
close_all h = record h { clients = λ j. expel (h.clients j); exited = true }

-- Run is at its select.
abbrev pub selects : Hub → Bool
selects h = not h.exited && not h.drains

unfoldable pub step : Hub → Move → Hub
step h (connects i) = register_first h i (h.clients i).phase
step h (registers i done) = register_second h i done (h.clients i).phase
step h (receives i) = receive h i (h.clients i).phase
step h (disconnects i) = disconnect h i (h.clients i).phase
step h (returns i) = unregister_first h i (h.clients i).phase
step h (unregisters i done) = unregister_second h i done (h.clients i).phase
step h (broadcasts m) = broadcast_first h m
step h (queues n) = if h.drains then h else broadcast_second h (pick n h.pending)
step h takes_register = if selects h then take_register h h.register else h
step h takes_unregister = if selects h then take_unregister h h.unregister else h
step h takes_broadcast = if selects h then take_broadcast h h.broadcast else h
step h ticks = if selects h then record h { drains = true } else h
step h drains_one = if h.drains then drain_one h h.retry_queue else h
step h exits = if selects h && h.stopped then close_all h else h
step h stops = record h { stopped = true }

unfoldable pub run : Hub → List Move → Hub
run h [] = h
run h (m ∷ ms) = run (step h m) ms
