-- ===== src/Kv/Forgets.antt =====
-- completeScript of internal/kv clears the task in the worker's state whichever task is completed.
use loomcli.Common.{
  ℕ, ◌+◌, ◌≤◌, ◌<◌, ◌≡◌, refl, ap, ◌∙◌, true, false, none, some, List, String, str_eq, eq_refl, ltb,
  lt→ltb, lookup, lookup-insert, lookup-remove, remove, arith, pos,
}
use loomcli.Kv.{Redis, get, task_owner_key, text_of}
use loomcli.Kv.Client.{ok, validate_id}
use loomcli.Kv.Leases.{Leases, lease, live, idle_fields, or_no_fields}
use loomcli.Kv.Requests.{beats, completes, beat, serve, promise}
use loomcli.Kv.Refines.{Represents, as_plain, serve-promise, wait_Represents}

idle_no_task : (fs : List (String × String)) → lookup "task_id" (idle_fields fs) ≡ none
idle_no_task fs =
    lookup-insert "state" "task_id" "idle"
      (remove "claimed_at" (remove "task_title" (remove "task_id" fs)))
    ∙ (lookup-remove "claimed_at" "task_id" (remove "task_title" (remove "task_id" fs))
        ∙ (lookup-remove "task_title" "task_id" (remove "task_id" fs)
            ∙ lookup-remove "task_id" "task_id" fs))

promise_forgets :
    (a : Leases) (now wait d : ℕ) (worker task other : String)
    → live now (a.owners task) ≡ some worker
    → validate_id worker ≡ none
    → validate_id task ≡ none
    → a.owners other ≡ some (worker, d)
    → str_eq task other ≡ false
    → wait < 300000
    → let x = promise a now (completes worker task) in
      let y = promise x.0 (now + wait) (beats worker) in
      (y.1 ≡ beat (ok (record { success = true; ttl = pos 300; error = "" })))
      × (y.0.owners other ≡ some (worker, d))
unfolding promise
promise_forgets a now wait d worker task other o vw vt b n w =
    let alive : ltb (now + wait) (now + lease) ≡ true =
      lt→ltb (now + wait) (now + lease) (omega (arith, w)) in
    rw (vw, vt, o, eq_refl worker)
      (rw (eq_refl worker, alive, idle_no_task (or_no_fields (live now (a.sessions worker))), n)
        (refl, b))

-- A worker that holds two tasks and completes one: a heartbeat after that succeeds, and does not extend the
-- lease of the other task, which has no owner from its deadline on.
pub complete_task_forgets :
    (r : Redis) (s : r.Server) (now wait d t : ℕ) (a : Leases) (worker task other : String)
    → Represents r s now a
    → live now (a.owners task) ≡ some worker
    → a.owners other ≡ some (worker, d)
    → str_eq task other ≡ false
    → validate_id worker ≡ none
    → validate_id task ≡ none
    → wait < 300000
    → now + wait ≤ t
    → d ≤ t
    → let x = serve r s now (completes worker task) in
      let y = serve r x.0 (now + wait) (beats worker) in
      (y.1 ≡ beat (ok (record { success = true; ttl = pos 300; error = "" })))
      × (get r y.0 t (task_owner_key other) ≡ none)
complete_task_forgets r s now wait d t a worker task other h o b n vw vt w le late =
    let k = serve-promise r s now a (completes worker task) h in
    let x = serve r s now (completes worker task) in
    let a' = (promise a now (completes worker task)).0 in
    let m =
      serve-promise r x.0 (now + wait) a' (beats worker) (wait_Represents r x.0 now wait a' k.0) in
    let p = promise_forgets a now wait d worker task other o vw vt b n w in
    let gone : live t (some (worker, d)) ≡ none = ground arith in
    (m.1 ∙ p.0, ap text_of (m.0.0 t le other ∙ ap (λ l. as_plain (live t l)) p.1) ∙ rw gone refl)
