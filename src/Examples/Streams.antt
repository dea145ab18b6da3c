-- ===== src/Examples/Streams.antt =====
-- Runs of the hub of internal/webui/sse.go.
use loomcli.Common.{
  ◌≡◌, List, [], ◌∷◌, ◌+◌, ◌≤◌, ◌<◌, ℕ, zero, suc, pos, true, false, length, count_of, Bool,
}
use loomcli.Hub.{MutationPayload, new_hub}
use loomcli.Hub.System.{
  Move, connects, returns, registers, broadcasts, takes_register, receives, takes_broadcast, exits,
  stops, run,
}
use loomcli.Hub.Safe.{times, run-new_hub_safe}
use loomcli.Hub.Accounting.{all_given, all_handled, all_lost, run-new_hub_accounts}

abbrev mutation : MutationPayload
mutation = record {
  kind = "update";
  issue_id = "bd-1";
  title = "fix it";
  assignee = "";
  actor = "owl";
  timestamp = "2026-01-01T00:00:00Z";
  old_status = "";
  new_status = "";
  parent_id = "";
  step_count = pos 0;
}

-- A client that connects, gets a mutation and leaves, and the shutdown.
abbrev visit : List Move
visit =
    connects 1
    ∷ registers 1 false
    ∷ takes_register
    ∷ broadcasts mutation
    ∷ takes_broadcast
    ∷ receives 1
    ∷ stops
    ∷ exits
    ∷ receives 1
    ∷ returns 1
    ∷ []

run-new_hub_safe_example :
    let h = run new_hub visit in
    let c = h.clients 1 in
    (c.panicked ≡ false)
    × (c.member ≡ true → (c.closed ≡ false) × (times 1 h.register ≡ 0))
    × (times 1 h.register ≤ 1)
    × (0 < times 1 h.register → c.closed ≡ false)
run-new_hub_safe_example = run-new_hub_safe visit 1

abbrev any_mutation : MutationPayload → Bool
any_mutation m = true

run-new_hub_accounts_example :
    let h = run new_hub visit in
    (count_of any_mutation (all_given visit)
      ≡ count_of any_mutation (all_handled new_hub visit)
        + count_of any_mutation h.broadcast
        + count_of any_mutation h.retry_queue
        + count_of any_mutation h.pending
        + count_of any_mutation (all_lost new_hub visit))
    × (h.dropped_count ≡ length (all_lost new_hub visit))
run-new_hub_accounts_example = run-new_hub_accounts visit any_mutation

abbrev repeated : ℕ → List MutationPayload
repeated zero = []
repeated (suc n) = mutation ∷ repeated n
