-- ===== src/Kv/Stale/Late.antt =====
-- When internal/kv finds a worker stale, and what it then takes from the worker.
use loomcli.Common.{
  ℕ, ◌+◌, ◌-◌, ◌≤◌, ◌<◌, ◌≡◌, refl, ap, sym, ◌∙◌, Bool, true, false, Option, none, some, List,
  String, str_eq, eq_refl, leb, arith, Bool-cases, inl, inr, is_some,
}
use loomcli.Fleet.{is_recorded}
use loomcli.Kv.{
  Redis, get, hget, ms, Reply, task_owner_key, worker_state_key, active_workers_key, keep_alive,
  heartbeat_script, beat_task, beat_for, text_of,
}
use loomcli.Kv.Client.{
  Result, ok, err, guarded, fst_map, validate_id, IdError, HeartbeatResult, heartbeat_result,
  read_reply, heartbeat, get_stale_workers, delete_task_owner_if_match, delete_worker_state,
  remove_active_worker,
}
use loomcli.Kv.Leases.{Leases, lease, live, clean_lease}
use loomcli.Kv.Requests.{Request, claims, claim, serve, serve_all, promise}
use loomcli.Kv.Listed.{AllByOthers, serve_all-Stays}
use loomcli.Kv.Refines.{Represents, end_of, serve-promise, wait_Represents, cleanup-Keeps}
use loomcli.Kv.Exclusion.{claimed-Held, live-Held}
use loomcli.Kv.Keys.{state_owner_apart}
use loomcli.Kv.Stale.{StaleWorker, cleanup_worker, forget_unless}

abbrev has_succeeded : Result HeartbeatResult → Bool
has_succeeded (ok x) = x.success
has_succeeded (err e) = false

module _ (r : Redis) (now max : ℕ) (worker : String) where
  open r use {Server, zrange, zrange-zadd}

  abbrev Listed : Server → Type 0
  Listed s = is_recorded worker (zrange s active_workers_key max) ≡ leb now max

  keep_alive-Listed : (s : Server) (ttl : ℕ) → Listed (keep_alive r s now worker ttl)
  unfolding keep_alive
  keep_alive-Listed s ttl =
      zrange-zadd _ active_workers_key now worker max worker ∙ rw (eq_refl worker) refl

  -- A heartbeat that succeeds is listed.
  abbrev Told : Server × List Reply → Type 0
  Told x = has_succeeded (heartbeat_result (read_reply x.1)) ≡ true → Listed x.0

  beat_for-Told :
      (s : Server) (task : String) (o : Option String) → Told (beat_for r s now worker 300 task o)
  beat_for-Told s task none = λ e. keep_alive-Listed s 300
  beat_for-Told s task (some x) = elim (Bool-cases (str_eq x worker)) [
    | inl q ↦ rw q (λ e. keep_alive-Listed (r.expire s now (task_owner_key task) (ms 300)) 300)
    | inr q ↦ rw q (λ e. absurd (cc e))
  ]

  beat_task-Told : (s : Server) (o : Option String) → Told (beat_task r s now worker 300 o)
  beat_task-Told s none = λ e. keep_alive-Listed s 300
  beat_task-Told s (some task) = beat_for-Told s task (get r s now (task_owner_key task))

  heartbeat-Told : (s : Server) → Told (heartbeat_script r s now worker 300)
  unfolding heartbeat_script
  heartbeat-Told s = elim (Bool-cases (is_some (r.view s now (worker_state_key worker)))) [
    | inl q ↦ rw q (beat_task-Told s (hget r s now (worker_state_key worker) "task_id"))
    | inr q ↦ rw q (λ e. absurd (cc e))
  ]

-- Of a check on the state right after the heartbeat.
heartbeat_listed :
    (r : Redis) (s : r.Server) (now t threshold : ℕ) (worker : String)
    → has_succeeded (heartbeat r s now worker).1 ≡ true
    → 0 < now
    → is_recorded worker (get_stale_workers r (heartbeat r s now worker).0 t threshold)
      ≡ leb (now + threshold) t
unfolding heartbeat get_stale_workers
heartbeat_listed r s now t threshold worker e p = go (validate_id worker) e
  where
    go :
        (v : Option IdError)
        → has_succeeded
            (guarded s v (
              fst_map
                (λ l. heartbeat_result (read_reply l))
                (heartbeat_script r s now worker 300))).1
          ≡ true
        → is_recorded worker (
            r.zrange
              (guarded s v (
                fst_map
                  (λ l. heartbeat_result (read_reply l))
                  (heartbeat_script r s now worker 300))).0
              active_workers_key
              (t - threshold))
          ≡ leb (now + threshold) t
    go (some x) q = absurd (cc q)
    go none q = heartbeat-Told r now (t - threshold) worker s q ∙ ground arith

-- After a heartbeat that succeeds, whatever other workers request since and whatever owners and states are removed, a
-- check finds the worker stale exactly if at least the threshold has passed since the heartbeat, also if it
-- is the threshold to the millisecond; time starts later than 0.
pub heartbeat_defers :
    (r : Redis) (s : r.Server) (now wait threshold : ℕ) (worker : String) (qs : List (ℕ × Request))
    → has_succeeded (heartbeat r s now worker).1 ≡ true
    → 0 < now
    → AllByOthers worker qs
    → is_recorded worker (
        get_stale_workers r
          (serve_all r (heartbeat r s now worker).0 now qs).0
          (end_of now qs + wait)
          threshold)
      ≡ leb (now + threshold) (end_of now qs + wait)
unfolding get_stale_workers
heartbeat_defers r s now wait threshold worker qs e p others =
    let t = end_of now qs + wait in
    serve_all-Stays r worker (t - threshold) (heartbeat r s now worker).0 now qs others
    ∙ heartbeat_listed r s now t threshold worker e p

-- Forgetting a worker leaves the owners alone.
forget_unless_owner :
    (r : Redis) (t : ℕ) (worker task : String) (x : r.Server × Result Bool)
    → get r (forget_unless r x worker).0 t (task_owner_key task) ≡ get r x.0 t (task_owner_key task)
unfolding delete_worker_state remove_active_worker
forget_unless_owner r t worker task (s, err e) = refl
forget_unless_owner r t worker task (s, ok b) = ap text_of (
    r.view-zrem (r.del s (worker_state_key worker)) active_workers_key worker t
      (task_owner_key task)
    ∙ (r.view-del s (worker_state_key worker) t (task_owner_key task)
        ∙ rw (state_owner_apart worker task) refl))

-- A worker that was found stale and claims its task again before the cleanup: the claim succeeds, and the
-- cleanup then takes the task from it, so that it has no owner, however early in the lease.
pub cleanup_worker_takes :
    (r : Redis) (s : r.Server) (now wait t : ℕ) (a : Leases) (title agent : String)
    (w : StaleWorker)
    → Represents r s now a
    → (serve r s now (claims w.worker_id w.task_id title agent)).1
      ≡ claim (ok (record { success = true; existing_owner = "" }))
    → validate_id w.worker_id ≡ none
    → str_eq w.task_id "" ≡ false
    → wait < 300000
    → now + wait ≤ t
    → let s' = (serve r s now (claims w.worker_id w.task_id title agent)).0 in
      get r (cleanup_worker r s' (now + wait) w).0 t (task_owner_key w.task_id) ≡ none
unfolding cleanup_worker
cleanup_worker_takes r s now wait t a title agent w h c vw n early le =
    let k = serve-promise r s now a (claims w.worker_id w.task_id title agent) h in
    let s' = (serve r s now (claims w.worker_id w.task_id title agent)).0 in
    let a' = (promise a now (claims w.worker_id w.task_id title agent)).0 in
    let (vt, held) = claimed-Held a now w.task_id w.worker_id title agent (sym k.1 ∙ c) in
    let o =
      live-Held (now + lease) (now + wait) w.task_id w.worker_id (omega (arith, early)) a' held in
    let x = delete_task_owner_if_match r s' (now + wait) w.task_id w.worker_id in
    let cl =
      cleanup-Keeps r s' (now + wait) a' (wait_Represents r s' now wait a' k.0) w.task_id
        w.worker_id in
    let gone : live t (
          (guarded a' (validate_id w.task_id) (
              guarded a' (validate_id w.worker_id) (
                fst_map ok (
                  clean_lease a' w.task_id w.worker_id
                    (live (now + wait) (a'.owners w.task_id)))))).0.owners
            w.task_id)
        ≡ none =
      rw (vt, vw, o, eq_refl w.worker_id) (rw (eq_refl w.task_id) refl) in
    rw n (
      forget_unless_owner r t w.worker_id w.task_id x
      ∙ (ap text_of (cl.0.0 t le w.task_id) ∙ rw gone refl))
