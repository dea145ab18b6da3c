-- ===== src/Kv/Listed.antt =====
-- What the requests of other workers to internal/kv make of a worker's place among the active ones: nothing.
use Prim.Native.String.{◌++◌}
use loomcli.Common.{
  ℕ, ◌+◌, ◌≡◌, ◌≢◌, refl, ap, ◌∙◌, false, Option, none, some, List, [], ◌∷◌, String, str_eq, str_ne,
  is_some, strip, strip-append, Bool-cases, inl, inr,
}
use loomcli.Fleet.{is_recorded}
use loomcli.Kv.{
  Redis, get, hget, ms, task_owner_key, worker_state_key, active_workers_key, keep_alive, take_task,
  finish_task, hset_all, hdel_all, claim_script, claim_guarded, heartbeat_script, beat_for,
  beat_task, complete_script, complete_guarded, cleanup_owner_script, cleanup_guarded,
  claimed_fields, cleared_fields,
}
use loomcli.Kv.Client.{
  Result, guarded, validate_id, IdError, claim_task, heartbeat, complete_task,
  delete_task_owner_if_match, delete_task_owner, delete_worker_state, remove_active_worker,
}
use loomcli.Kv.Requests.{
  Request, claims, beats, completes, cleans, drops_owner, drops_state, drops_active, serve,
  serve_all,
}

owner_active_apart : (t : String) → str_eq (task_owner_key t) active_workers_key ≡ false
unfolding strip
owner_active_apart t =
    let missing : strip "loom:task:" active_workers_key ≡ none = refl in
    str_ne (task_owner_key t) active_workers_key
      (λ e. cc (strip-append "loom:task:" (t ++ ":owner"), missing, e))

state_active_apart : (w : String) → str_eq (worker_state_key w) active_workers_key ≡ false
unfolding strip
state_active_apart w =
    let missing : strip "loom:worker:" active_workers_key ≡ none = refl in
    str_ne (worker_state_key w) active_workers_key
      (λ e. cc (strip-append "loom:worker:" (w ++ ":state"), missing, e))

-- A request that is not made by the worker, nor removes it from the active ones.
abbrev pub IsByOther : String → Request → Type 0
IsByOther worker (claims w task title agent) = w ≢ worker
IsByOther worker (beats w) = w ≢ worker
IsByOther worker (completes w task) = w ≢ worker
IsByOther worker (drops_active w) = w ≢ worker
IsByOther worker _ = Unit {0}

abbrev pub AllByOthers : String → List (ℕ × Request) → Type 0
AllByOthers worker [] = Unit {0}
AllByOthers worker ((_, q) ∷ qs) = IsByOther worker q × AllByOthers worker qs

module _ (r : Redis) (worker : String) (max : ℕ) where
  open r use {Server, zrange}

  abbrev Stays : Server → Server → Type 0
  Stays s t =
      is_recorded worker (zrange t active_workers_key max)
      ≡ is_recorded worker (zrange s active_workers_key max)

  same_range :
      (s t : Server) → zrange t active_workers_key max ≡ zrange s active_workers_key max → Stays s t
  same_range s t e = ap (is_recorded worker) e

  module _ (now : ℕ) (k : String) (n : str_eq k active_workers_key ≡ false) where
    hset_all-Stays : (s : Server) (fs : List (String × String)) → Stays s (hset_all r s now k fs)
    hset_all-Stays s [] = refl
    hset_all-Stays s ((f, v) ∷ fs) =
        hset_all-Stays (r.hset s now k f v) fs
        ∙ same_range s (r.hset s now k f v) (r.zrange-hset s now k f v active_workers_key max n)

    hdel_all-Stays : (s : Server) (fs : List String) → Stays s (hdel_all r s now k fs)
    hdel_all-Stays s [] = refl
    hdel_all-Stays s (f ∷ fs) =
        hdel_all-Stays (r.hdel s now k f) fs
        ∙ same_range s (r.hdel s now k f) (r.zrange-hdel s now k f active_workers_key max n)

  del-Stays : (s : Server) (k : String) → str_eq k active_workers_key ≡ false → Stays s (r.del s k)
  del-Stays s k n = same_range s (r.del s k) (r.zrange-del s k active_workers_key max n)

  expire-Stays :
      (s : Server) (now : ℕ) (k : String) (ttl : ℕ)
      → str_eq k active_workers_key ≡ false
      → Stays s (r.expire s now k ttl)
  expire-Stays s now k ttl n =
      same_range s (r.expire s now k ttl) (r.zrange-expire s now k ttl active_workers_key max n)

  cleanup_guarded-Stays :
      (s : Server) (task w : String) (o : Option String) → Stays s (cleanup_guarded r s task w o).0
  cleanup_guarded-Stays s task w none = refl
  cleanup_guarded-Stays s task w (some owner) = elim (Bool-cases (str_eq owner w)) [
    | inl e ↦ rw e (del-Stays s (task_owner_key task) (owner_active_apart task))
    | inr e ↦ rw e refl
  ]

  guarded-Stays :
      {A : Type 0} (s : Server) (v : Option IdError) (x : Server × Result A)
      → Stays s x.0
      → Stays s (guarded s v x).0
  guarded-Stays s none x h = h
  guarded-Stays s (some e) x h = refl

  module _ (now : ℕ) (w : String) (other : w ≢ worker) where
    keep_alive-Stays : (s : Server) (ttl : ℕ) → Stays s (keep_alive r s now w ttl)
    unfolding keep_alive
    keep_alive-Stays s ttl =
        let k = worker_state_key w in
        r.zrange-zadd (r.expire s now k (ms ttl)) active_workers_key now w max worker
        ∙ rw (str_ne w worker other) (expire-Stays s now k (ms ttl) (state_active_apart w))

    take_task-Stays :
        (s : Server) (task title agent : String) (ttl : ℕ)
        → Stays s (take_task r s now w task title agent ttl)
    unfolding take_task
    take_task-Stays s task title agent ttl =
        let owned = r.set_ex s now (task_owner_key task) w (ms ttl) in
        let fs = claimed_fields now task title agent in
        keep_alive-Stays (hset_all r owned now (worker_state_key w) fs) ttl
        ∙ (hset_all-Stays now (worker_state_key w) (state_active_apart w) owned fs
            ∙ same_range s owned (
                r.zrange-set_ex s now (task_owner_key task) w (ms ttl) active_workers_key max
                  (owner_active_apart task)))

    claim_guarded-Stays :
        (s : Server) (task title agent : String) (o : Option String)
        → Stays s (claim_guarded r s now w task title agent 300 o).0
    claim_guarded-Stays s task title agent none = take_task-Stays s task title agent 300
    claim_guarded-Stays s task title agent (some x) = elim (Bool-cases (str_eq x w)) [
      | inl e ↦ rw e (take_task-Stays s task title agent 300)
      | inr e ↦ rw e refl
    ]

    beat_for-Stays :
        (s : Server) (task : String) (o : Option String) → Stays s (beat_for r s now w 300 task o).0
    beat_for-Stays s task none = keep_alive-Stays s 300
    beat_for-Stays s task (some x) = elim (Bool-cases (str_eq x w)) [
      | inl e ↦ rw e (
          keep_alive-Stays (r.expire s now (task_owner_key task) (ms 300)) 300
          ∙ expire-Stays s now (task_owner_key task) (ms 300) (owner_active_apart task))
      | inr e ↦ rw e refl
    ]

    beat_task-Stays : (s : Server) (o : Option String) → Stays s (beat_task r s now w 300 o).0
    beat_task-Stays s none = keep_alive-Stays s 300
    beat_task-Stays s (some task) = beat_for-Stays s task (get r s now (task_owner_key task))

    heartbeat_script-Stays : (s : Server) → Stays s (heartbeat_script r s now w 300).0
    unfolding heartbeat_script
    heartbeat_script-Stays s = elim (Bool-cases (is_some (r.view s now (worker_state_key w)))) [
      | inl e ↦ rw e (beat_task-Stays s (hget r s now (worker_state_key w) "task_id"))
      | inr e ↦ rw e refl
    ]

    finish_task-Stays : (s : Server) (task : String) → Stays s (finish_task r s now w task 300)
    unfolding finish_task
    finish_task-Stays s task =
        let k = worker_state_key w in
        let freed = r.del s (task_owner_key task) in
        let dropped = hdel_all r freed now k cleared_fields in
        let idle = r.hset dropped now k "state" "idle" in
        keep_alive-Stays idle 300
        ∙ (hset_all-Stays now k (state_active_apart w) dropped (("state", "idle") ∷ [])
            ∙ (hdel_all-Stays now k (state_active_apart w) freed cleared_fields
                ∙ del-Stays s (task_owner_key task) (owner_active_apart task)))

    complete_guarded-Stays :
        (s : Server) (task : String) (o : Option String)
        → Stays s (complete_guarded r s now w task 300 o).0
    complete_guarded-Stays s task none = refl
    complete_guarded-Stays s task (some x) = elim (Bool-cases (str_eq x w)) [
      | inl e ↦ rw e (finish_task-Stays s task)
      | inr e ↦ rw e refl
    ]

  serve-Stays :
      (s : Server) (now : ℕ) (q : Request) → IsByOther worker q → Stays s (serve r s now q).0
  unfolding serve claim_task heartbeat complete_task delete_task_owner_if_match delete_task_owner
      delete_worker_state remove_active_worker claim_script complete_script cleanup_owner_script
  serve-Stays s now (claims w task title agent) h = guarded-Stays s (validate_id w) _ (
      guarded-Stays s (validate_id task) _
        (claim_guarded-Stays now w h s task title agent (get r s now (task_owner_key task))))
  serve-Stays s now (beats w) h =
      guarded-Stays s (validate_id w) _ (heartbeat_script-Stays now w h s)
  serve-Stays s now (completes w task) h = guarded-Stays s (validate_id w) _ (
      guarded-Stays s (validate_id task) _
        (complete_guarded-Stays now w h s task (get r s now (task_owner_key task))))
  serve-Stays s now (cleans task w) h = guarded-Stays s (validate_id task) _ (
      guarded-Stays s (validate_id w) _
        (cleanup_guarded-Stays s task w (get r s now (task_owner_key task))))
  serve-Stays s now (drops_owner task) h =
      del-Stays s (task_owner_key task) (owner_active_apart task)
  serve-Stays s now (drops_state w) h = del-Stays s (worker_state_key w) (state_active_apart w)
  serve-Stays s now (drops_active w) h =
      r.zrange-zrem s active_workers_key w max worker ∙ rw (str_ne w worker h) refl

  pub serve_all-Stays :
      (s : Server) (now : ℕ) (qs : List (ℕ × Request))
      → AllByOthers worker qs
      → is_recorded worker (zrange (serve_all r s now qs).0 active_workers_key max)
        ≡ is_recorded worker (zrange s active_workers_key max)
  unfolding serve_all
  serve_all-Stays s now [] h = refl
  serve_all-Stays s now ((wait, q) ∷ qs) h =
      serve_all-Stays (serve r s (now + wait) q).0 (now + wait) qs h.1
      ∙ serve-Stays s (now + wait) q h.0
