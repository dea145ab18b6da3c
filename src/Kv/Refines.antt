-- ===== src/Kv/Refines.antt =====
-- The scripts of internal/kv keep the promise of leases.
use loomcli.Common.{
  ℕ, ◌+◌, ◌≤◌, ◌≡◌, refl, ap, ◌∙◌, true, Option, none, some, List, [], ◌∷◌, String, str_eq, eq_iff,
  ltb, lookup, arith, if◌then◌else◌, Bool-cases, inl, inr, pos, atoi, itoa,
}
use loomcli.Kv.{
  Redis, Value, plain, hash, fields_of, text_of, task_owner_key, worker_state_key,
  active_workers_key, claimed_fields, take_task, keep_alive, finish_task, ms, claim_script,
  claim_guarded, heartbeat_script, beat_task, beat_for, complete_script, complete_guarded,
  cleanup_owner_script, cleanup_guarded, get,
}
use loomcli.Kv.Client.{
  HeartbeatResult, Result, ok, guarded, fst_map, validate_id, IdError, claim_result,
  heartbeat_result, complete_result, read_reply, claim_task, heartbeat, complete_task,
  delete_task_owner_if_match, delete_task_owner, delete_worker_state, remove_active_worker,
  number_or_zero,
}
use loomcli.Kv.Leases.{
  Leases, lease, live, put, claim_lease, beat_session, beat_of, beat_lease, complete_lease,
  clean_lease, grant, extend_session, or_no_fields, insert_all, idle_fields,
}
use loomcli.Kv.Keys.{owner_key_eq, state_key_eq, owner_state_apart, state_owner_apart, IsHash}
use loomcli.Kv.Effects.{
  take_task_owner, take_task_state, keep_alive_owner, keep_alive_state, finish_task_owner,
  finish_task_state,
}
use loomcli.Kv.Requests.{
  Request, claims, beats, completes, cleans, drops_owner, drops_state, drops_active, claim, beat,
  complete, cleaned, serve, serve_all, promise, promise_all,
}

abbrev pub as_plain : Option String → Option Value
as_plain none = none
as_plain (some v) = some (plain v)

abbrev pub as_hash : Option (List (String × String)) → Option Value
as_hash none = none
as_hash (some fs) = some (hash fs)

-- From a time on, the server shows for each task and each worker what the leases say.
abbrev pub Represents : (r : Redis) → r.Server → ℕ → Leases → Type 0
Represents r s now a =
    ((t : ℕ)
      → now ≤ t
      → (x : String) → r.view s t (task_owner_key x) ≡ as_plain (live t (a.owners x)))
    × ((t : ℕ)
        → now ≤ t
        → (x : String) → r.view s t (worker_state_key x) ≡ as_hash (live t (a.sessions x)))

as_hash-IsHash : (o : Option (List (String × String))) → IsHash (as_hash o)
as_hash-IsHash none = tt
as_hash-IsHash (some fs) = tt

as_hash-fields : (o : Option (List (String × String))) → fields_of (as_hash o) ≡ or_no_fields o
as_hash-fields none = refl
as_hash-fields (some fs) = refl

as_plain-text : (o : Option String) → text_of (as_plain o) ≡ o
as_plain-text none = refl
as_plain-text (some v) = refl

-- An entry with a new deadline, as a server shows it.
put_owner :
    (f : String → Option (String × ℕ)) (task x worker : String) (t until : ℕ)
    → (if str_eq task x
        then (if ltb t until then some (plain worker) else none)
        else as_plain (live t (f x)))
      ≡ as_plain (live t (put f task (some (worker, until)) x))
put_owner f task x worker t until = ground arith

no_owner :
    (f : String → Option (String × ℕ)) (task x : String) (t : ℕ)
    → (if str_eq task x then none else as_plain (live t (f x)))
      ≡ as_plain (live t (put f task none x))
no_owner f task x t = ground arith

put_session :
    (f : String → Option (List (String × String) × ℕ)) (worker x : String)
    (fs : List (String × String)) (t until : ℕ)
    → (if str_eq worker x
        then (if ltb t until then some (hash fs) else none)
        else as_hash (live t (f x)))
      ≡ as_hash (live t (put f worker (some (fs, until)) x))
put_session f worker x fs t until = ground arith

no_session :
    (f : String → Option (List (String × String) × ℕ)) (worker x : String) (t : ℕ)
    → (if str_eq worker x then none else as_hash (live t (f x)))
      ≡ as_hash (live t (put f worker none x))
no_session f worker x t = ground arith

-- A call and its promise end in a server that represents the leases, with one result.
abbrev pub Keeps : {A : Type 0} (r : Redis) → ℕ → r.Server × A → Leases × A → Type 0
Keeps r now x y = Represents r x.0 now y.0 × (x.1 ≡ y.1)

module _ (r : Redis) (s : r.Server) (now : ℕ) (a : Leases) (h : Represents r s now a) where
  owner_now : (task : String) → get r s now (task_owner_key task) ≡ live now (a.owners task)
  owner_now task =
      ap text_of (h.0 now (omega arith) task) ∙ as_plain-text (live now (a.owners task))

  session_now :
      (worker : String)
      → r.view s now (worker_state_key worker) ≡ as_hash (live now (a.sessions worker))
  session_now worker = h.1 now (omega arith) worker

  session-IsHash : (worker : String) → IsHash (r.view s now (worker_state_key worker))
  session-IsHash worker = rw (session_now worker) (as_hash-IsHash (live now (a.sessions worker)))

  session_fields :
      (worker : String)
      → fields_of (r.view s now (worker_state_key worker))
        ≡ or_no_fields (live now (a.sessions worker))
  session_fields worker =
      ap fields_of (session_now worker) ∙ as_hash-fields (live now (a.sessions worker))

  same-Keeps : {A : Type 0} (x : A) → Keeps r now (s, x) (a, x)
  same-Keeps x = (h, refl)

  guarded-Keeps :
      {A : Type 0} (v : Option IdError) (x : r.Server × Result A) (y : Leases × Result A)
      → Keeps r now x y
      → Keeps r now (guarded s v x) (guarded a v y)
  guarded-Keeps none x y k = k
  guarded-Keeps (some e) x y k = (h, refl)

  take_task-Represents :
      (worker task title agent : String)
      → Represents r
          (take_task r s now worker task title agent 300)
          now
          (grant a now worker task (claimed_fields now task title agent))
  take_task-Represents worker task title agent = (
    λ t le x.
        take_task_owner r s now t le worker task title agent 300 x
        ∙ (rw (h.0 t le x) (put_owner a.owners task x worker t (now + lease))),
    λ t le x.
        take_task_state r s now t le worker task title agent 300 x (session-IsHash worker)
        ∙ (rw (h.1 t le x, session_fields worker)
            (put_session a.sessions worker x
              (insert_all (claimed_fields now task title agent)
                (or_no_fields (live now (a.sessions worker))))
              t (now + lease))),
  )

  claim_guarded-Keeps :
      (worker task title agent : String) (o : Option String)
      → Keeps r now
          (fst_map
            (λ l. claim_result (read_reply l))
            (claim_guarded r s now worker task title agent 300 o))
          (fst_map ok (claim_lease a now worker task (claimed_fields now task title agent) o))
  claim_guarded-Keeps worker task title agent none =
      (take_task-Represents worker task title agent, refl)
  claim_guarded-Keeps worker task title agent (some e) = elim (Bool-cases (str_eq e worker)) [
    | inl q ↦ rw q (take_task-Represents worker task title agent, refl)
    | inr q ↦ rw q (h, refl)
  ]

  keep_alive-Represents :
      (worker : String) (fs : List (String × String))
      → live now (a.sessions worker) ≡ some fs
      → Represents r (keep_alive r s now worker 300) now (extend_session a now worker fs)
  keep_alive-Represents worker fs e = (
    λ t le x. keep_alive_owner r s now t le worker 300 x ∙ h.0 t le x,
    λ t le x.
        keep_alive_state r s now t le worker 300 x
        ∙ (rw (h.1 t le x) (kept t x ∙ put_session a.sessions worker x fs t (now + lease))),
  )
    where
      kept :
          (t : ℕ) (x : String)
          → (if str_eq worker x
              then (if ltb t (now + 300000) then r.view s now (worker_state_key x) else none)
              else as_hash (live t (a.sessions x)))
            ≡ (if str_eq worker x
                then (if ltb t (now + lease) then some (hash fs) else none)
                else as_hash (live t (a.sessions x)))
      kept t x = elim (Bool-cases (str_eq worker x)) [
        | inl q ↦ rw q (rw (← (eq_iff worker x).0 q) (rw (session_now worker ∙ ap as_hash e) refl))
        | inr q ↦ rw q refl
      ]

  finish_task-Represents :
      (worker task : String)
      → Represents r (finish_task r s now worker task 300) now (record {
        owners = put a.owners task none;
        sessions =
            put a.sessions worker
              (some (idle_fields (or_no_fields (live now (a.sessions worker))), now + lease));
      })
  finish_task-Represents worker task = (
    λ t le x.
        finish_task_owner r s now t le worker task 300 x
        ∙ (rw (h.0 t le x) (no_owner a.owners task x t)),
    λ t le x.
        finish_task_state r s now t le worker task 300 x (session-IsHash worker)
        ∙ (rw (h.1 t le x, session_fields worker)
            (put_session a.sessions worker x
              (idle_fields (or_no_fields (live now (a.sessions worker)))) t (now + lease))),
  )

  complete_guarded-Keeps :
      (worker task : String) (o : Option String)
      → Keeps r now
          (fst_map
            (λ l. complete_result (read_reply l))
            (complete_guarded r s now worker task 300 o))
          (fst_map ok (complete_lease a now worker task o))
  complete_guarded-Keeps worker task none = (h, refl)
  complete_guarded-Keeps worker task (some e) = elim (Bool-cases (str_eq e worker)) [
    | inl q ↦ rw q (finish_task-Represents worker task, refl)
    | inr q ↦ rw q (h, refl)
  ]

  del_owner-Represents :
      (task : String)
      → Represents r
          (r.del s (task_owner_key task))
          now
          (record a { owners = put a.owners task none })
  del_owner-Represents task = (
    λ t le x.
        r.view-del s (task_owner_key task) t (task_owner_key x)
        ∙ (rw (owner_key_eq task x, h.0 t le x) (no_owner a.owners task x t)),
    λ t le x.
        r.view-del s (task_owner_key task) t (worker_state_key x)
        ∙ (rw (owner_state_apart task x) (h.1 t le x)),
  )

  pub del_state-Represents :
      (worker : String)
      → Represents r
          (r.del s (worker_state_key worker))
          now
          (record a { sessions = put a.sessions worker none })
  del_state-Represents worker = (
    λ t le x.
        r.view-del s (worker_state_key worker) t (task_owner_key x)
        ∙ (rw (state_owner_apart worker x) (h.0 t le x)),
    λ t le x.
        r.view-del s (worker_state_key worker) t (worker_state_key x)
        ∙ (rw (state_key_eq worker x, h.1 t le x) (no_session a.sessions worker x t)),
  )

  cleanup_guarded-Keeps :
      (task expected : String) (o : Option String)
      → Keeps r now
          (fst_map ok (cleanup_guarded r s task expected o))
          (fst_map ok (clean_lease a task expected o))
  cleanup_guarded-Keeps task expected none = (h, refl)
  cleanup_guarded-Keeps task expected (some e) = elim (Bool-cases (str_eq e expected)) [
    | inl q ↦ rw q (del_owner-Represents task, refl)
    | inr q ↦ rw q (h, refl)
  ]

  expire_owner-Represents :
      (task worker : String)
      → live now (a.owners task) ≡ some worker
      → Represents r
          (r.expire s now (task_owner_key task) (ms 300))
          now
          (record a { owners = put a.owners task (some (worker, now + lease)) })
  expire_owner-Represents task worker e = (
    λ t le x.
        r.view-expire s now (task_owner_key task) (ms 300) t (task_owner_key x) le
        ∙ (rw (owner_key_eq task x, h.0 t le x)
            (kept t x ∙ put_owner a.owners task x worker t (now + lease))),
    λ t le x.
        r.view-expire s now (task_owner_key task) (ms 300) t (worker_state_key x) le
        ∙ (rw (owner_state_apart task x) (h.1 t le x)),
  )
    where
      kept :
          (t : ℕ) (x : String)
          → (if str_eq task x
              then (if ltb t (now + 300000) then r.view s now (task_owner_key x) else none)
              else as_plain (live t (a.owners x)))
            ≡ (if str_eq task x
                then (if ltb t (now + lease) then some (plain worker) else none)
                else as_plain (live t (a.owners x)))
      kept t x = elim (Bool-cases (str_eq task x)) [
        | inl q ↦
            rw q (rw (← (eq_iff task x).0 q) (rw (h.0 now (omega arith) task ∙ ap as_plain e) refl))
        | inr q ↦ rw q refl
      ]

module _ (r : Redis) (s : r.Server) (now : ℕ) (a : Leases) (h : Represents r s now a) where
  ttl_read : number_or_zero (atoi (itoa (pos 300))) ≡ pos 300
  unfolding atoi itoa
  ttl_read = refl

  beat_read :
      ◌≡◌ {A = Result HeartbeatResult}
        (ok (record { success = true; ttl = number_or_zero (atoi (itoa (pos 300))); error = "" }))
        (ok (record { success = true; ttl = pos 300; error = "" }))
  beat_read = rw ttl_read refl

  beat_for-Keeps :
      (worker task : String) (fs : List (String × String)) (o : Option String)
      → live now (a.owners task) ≡ o
      → live now (a.sessions worker) ≡ some fs
      → Keeps r now
          (fst_map (λ l. heartbeat_result (read_reply l)) (beat_for r s now worker 300 task o))
          (fst_map ok (beat_lease a now worker fs task o))
  beat_for-Keeps worker task fs none e f =
      (keep_alive-Represents r s now a h worker fs f, beat_read)
  beat_for-Keeps worker task fs (some holder) e f = elim (Bool-cases (str_eq holder worker)) [
    | inl q ↦ rw q (
      keep_alive-Represents r (r.expire s now (task_owner_key task) (ms 300)) now
          (record a { owners = put a.owners task (some (worker, now + lease)) })
          (expire_owner-Represents r s now a h task worker
            (e ∙ ap some ((eq_iff holder worker).0 q)))
          worker fs f,
      beat_read,
    )
    | inr q ↦ rw q (h, refl)
  ]

  beat_task-Keeps :
      (worker : String) (fs : List (String × String)) (o : Option String)
      → live now (a.sessions worker) ≡ some fs
      → Keeps r now
          (fst_map (λ l. heartbeat_result (read_reply l)) (beat_task r s now worker 300 o))
          (fst_map ok (beat_of a now worker fs o))
  beat_task-Keeps worker fs none f = (keep_alive-Represents r s now a h worker fs f, beat_read)
  beat_task-Keeps worker fs (some task) f =
      rw (owner_now r s now a h task)
        (beat_for-Keeps worker task fs (live now (a.owners task)) refl f)

  heartbeat-Keeps :
      (worker : String) (o : Option (List (String × String)))
      → live now (a.sessions worker) ≡ o
      → Keeps r now
          (fst_map (λ l. heartbeat_result (read_reply l)) (heartbeat_script r s now worker 300))
          (fst_map ok (beat_session a now worker o))
  unfolding heartbeat_script
  heartbeat-Keeps worker none e = rw (session_now r s now a h worker ∙ ap as_hash e) (h, refl)
  heartbeat-Keeps worker (some fs) e =
      rw (session_now r s now a h worker ∙ ap as_hash e)
        (beat_task-Keeps worker fs (lookup "task_id" fs) e)

  claim_task-Keeps :
      (worker task title agent : String)
      → Keeps r now (claim_task r s now worker task title agent) (
          guarded a (validate_id worker) (
            guarded a (validate_id task) (
              fst_map ok (
                claim_lease a now worker task
                  (claimed_fields now task title agent)
                  (live now (a.owners task))))))
  unfolding claim_task claim_script
  claim_task-Keeps worker task title agent = guarded-Keeps r s now a h (validate_id worker) _ _ (
      guarded-Keeps r s now a h (validate_id task) _ _ (
        rw (owner_now r s now a h task)
          (claim_guarded-Keeps r s now a h worker task title agent (live now (a.owners task)))))

  heartbeat_op-Keeps :
      (worker : String)
      → Keeps r now (heartbeat r s now worker) (
          guarded a
            (validate_id worker)
            (fst_map ok (beat_session a now worker (live now (a.sessions worker)))))
  unfolding heartbeat
  heartbeat_op-Keeps worker =
      guarded-Keeps r s now a h (validate_id worker) _ _
        (heartbeat-Keeps worker (live now (a.sessions worker)) refl)

  complete_task-Keeps :
      (worker task : String)
      → Keeps r now (complete_task r s now worker task) (
          guarded a (validate_id worker) (
            guarded a
              (validate_id task)
              (fst_map ok (complete_lease a now worker task (live now (a.owners task))))))
  unfolding complete_task complete_script
  complete_task-Keeps worker task = guarded-Keeps r s now a h (validate_id worker) _ _ (
      guarded-Keeps r s now a h (validate_id task) _ _ (
        rw (owner_now r s now a h task)
          (complete_guarded-Keeps r s now a h worker task (live now (a.owners task)))))

  pub cleanup-Keeps :
      (task expected : String)
      → Keeps r now (delete_task_owner_if_match r s now task expected) (
          guarded a (validate_id task) (
            guarded a
              (validate_id expected)
              (fst_map ok (clean_lease a task expected (live now (a.owners task))))))
  unfolding delete_task_owner_if_match cleanup_owner_script
  cleanup-Keeps task expected = guarded-Keeps r s now a h (validate_id task) _ _ (
      guarded-Keeps r s now a h (validate_id expected) _ _ (
        rw (owner_now r s now a h task)
          (cleanup_guarded-Keeps r s now a h task expected (live now (a.owners task)))))

mapped-Keeps :
    {A B : Type 0} (r : Redis) (now : ℕ) (f : A → B) (x : r.Server × A) (y : Leases × A)
    → Keeps r now x y
    → Keeps r now (fst_map f x) (fst_map f y)
mapped-Keeps r now f (s, v) (a, w) k = (k.0, ap f k.1)

-- One request.
pub serve-promise :
    (r : Redis) (s : r.Server) (now : ℕ) (a : Leases) (q : Request)
    → Represents r s now a
    → Keeps r now (serve r s now q) (promise a now q)
unfolding serve promise
serve-promise r s now a (claims worker task title agent) h =
    mapped-Keeps r now claim _ _ (claim_task-Keeps r s now a h worker task title agent)
serve-promise r s now a (beats worker) h =
    mapped-Keeps r now beat _ _ (heartbeat_op-Keeps r s now a h worker)
serve-promise r s now a (completes worker task) h =
    mapped-Keeps r now complete _ _ (complete_task-Keeps r s now a h worker task)
serve-promise r s now a (cleans task expected) h =
    mapped-Keeps r now cleaned _ _ (cleanup-Keeps r s now a h task expected)
serve-promise r s now a (drops_owner task) h =
    (unfold delete_task_owner in del_owner-Represents r s now a h task, refl)
serve-promise r s now a (drops_state worker) h =
    (unfold delete_worker_state in del_state-Represents r s now a h worker, refl)
serve-promise r s now a (drops_active worker) h = (
  (
    λ t le x.
        unfold remove_active_worker in
        r.view-zrem s active_workers_key worker t (task_owner_key x) ∙ h.0 t le x,
    λ t le x.
        unfold remove_active_worker in
        r.view-zrem s active_workers_key worker t (worker_state_key x) ∙ h.1 t le x,
  ),
  refl,
)

pub wait_Represents :
    (r : Redis) (s : r.Server) (now wait : ℕ) (a : Leases)
    → Represents r s now a
    → Represents r s (now + wait) a
wait_Represents r s now wait a h =
    (λ t le x. h.0 t (omega arith) x, λ t le x. h.1 t (omega arith) x)

-- When the last request is served.
abbrev pub end_of : ℕ → List (ℕ × Request) → ℕ
end_of now [] = now
end_of now ((wait, q) ∷ qs) = end_of (now + wait) qs

-- For every sequence of claims, heartbeats, completions and removals of any workers, with any time between
-- them: on a server that represents the leases, each call has the result that the leases promise, and
-- the server represents the leases behind it, from the time of the last call on.
pub serve_all-promise_all :
    (r : Redis) (s : r.Server) (now : ℕ) (a : Leases) (qs : List (ℕ × Request))
    → Represents r s now a
    → ((serve_all r s now qs).1 ≡ (promise_all a now qs).1)
      × Represents r (serve_all r s now qs).0 (end_of now qs) (promise_all a now qs).0
unfolding serve_all promise_all
serve_all-promise_all r s now a [] h = (refl, h)
serve_all-promise_all r s now a ((wait, q) ∷ qs) h =
    let k = serve-promise r s (now + wait) a q (wait_Represents r s now wait a h) in
    let rest =
      serve_all-promise_all r (serve r s (now + wait) q).0 (now + wait) (promise a (now + wait) q).0
        qs k.0 in
    (
      ap (λ x. x ∷ (serve_all r (serve r s (now + wait) q).0 (now + wait) qs).1) k.1
          ∙ ap (λ l. (promise a (now + wait) q).1 ∷ l) rest.0,
      rest.1,
    )
