-- ===== src/Kv/Requests.antt =====
-- A fleet's requests to internal/kv/client.go, in the order in which Redis serves them, and what is
-- promised for each.
use loomcli.Common.{ℕ, ◌+◌, Bool, none, List, [], ◌∷◌, String}
use loomcli.Kv.{Redis, claimed_fields}
use loomcli.Kv.Client.{
  ClaimResult, HeartbeatResult, CompleteResult, Result, ok, guarded, fst_map, validate_id,
  claim_task, heartbeat, complete_task, delete_task_owner_if_match, delete_task_owner,
  delete_worker_state, remove_active_worker,
}
use loomcli.Kv.Leases.{Leases, live, put, claim_lease, beat_session, complete_lease, clean_lease}

-- ClaimTask, Heartbeat, CompleteTask, DeleteTaskOwnerIfMatch, DeleteTaskOwner, DeleteWorkerState and
-- RemoveActiveWorker, with their arguments.
pub data Request : Type 0 where
  claims : String → String → String → String → Request
  beats : String → Request
  completes cleans : String → String → Request
  drops_owner drops_state drops_active : String → Request

pub data Response : Type 0 where
  claim : Result ClaimResult → Response
  beat : Result HeartbeatResult → Response
  complete : Result CompleteResult → Response
  cleaned : Result Bool → Response
  done : Response

module _ (r : Redis) where
  open r use {Server}

  unfoldable pub serve : Server → ℕ → Request → Server × Response
  serve s now (claims worker task title agent) =
      fst_map claim (claim_task r s now worker task title agent)
  serve s now (beats worker) = fst_map beat (heartbeat r s now worker)
  serve s now (completes worker task) = fst_map complete (complete_task r s now worker task)
  serve s now (cleans task expected) =
      fst_map cleaned (delete_task_owner_if_match r s now task expected)
  serve s now (drops_owner task) = (delete_task_owner r s task, done)
  serve s now (drops_state worker) = (delete_worker_state r s worker, done)
  serve s now (drops_active worker) = (remove_active_worker r s worker, done)

  -- Requests with the time that has passed before each.
  unfoldable pub serve_all : Server → ℕ → List (ℕ × Request) → Server × List Response
  serve_all s now [] = (s, [])
  serve_all s now ((wait, q) ∷ qs) =
      let (s', a) = serve s (now + wait) q in
      let (s'', as_) = serve_all s' (now + wait) qs in (s'', a ∷ as_)

-- The same of the leases.
unfoldable pub promise : Leases → ℕ → Request → Leases × Response
promise a now (claims worker task title agent) = fst_map claim (
    guarded a (validate_id worker) (
      guarded a (validate_id task) (
        fst_map ok (
          claim_lease a now worker task (claimed_fields now task title agent)
            (live now (a.owners task))))))
promise a now (beats worker) = fst_map beat (
    guarded a (validate_id worker)
      (fst_map ok (beat_session a now worker (live now (a.sessions worker)))))
promise a now (completes worker task) = fst_map complete (
    guarded a (validate_id worker) (
      guarded a (validate_id task)
        (fst_map ok (complete_lease a now worker task (live now (a.owners task))))))
promise a now (cleans task expected) = fst_map cleaned (
    guarded a (validate_id task) (
      guarded a (validate_id expected)
        (fst_map ok (clean_lease a task expected (live now (a.owners task))))))
promise a now (drops_owner task) = (record a { owners = put a.owners task none }, done)
promise a now (drops_state worker) = (record a { sessions = put a.sessions worker none }, done)
promise a now (drops_active worker) = (a, done)

unfoldable pub promise_all : Leases → ℕ → List (ℕ × Request) → Leases × List Response
promise_all a now [] = (a, [])
promise_all a now ((wait, q) ∷ qs) =
    let (a', x) = promise a (now + wait) q in
    let (a'', xs) = promise_all a' (now + wait) qs in (a'', x ∷ xs)
