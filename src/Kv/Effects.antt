-- ===== src/Kv/Effects.antt =====
-- What the scripts of internal/kv do to the owners of tasks and to the sessions of workers.
use loomcli.Common.{
  ℕ, ◌+◌, ◌≤◌, ◌≡◌, refl, ap, ◌∙◌, false, Option, none, some, [], ◌∷◌, String, str_eq, eq_iff, ltb,
  insert, itoa, pos, arith, if◌then◌else◌, Bool-cases, inl, inr,
}
use loomcli.Kv.{
  Redis, Value, plain, hash, fields_of, task_owner_key, worker_state_key, active_workers_key,
  hset_all, hdel_all, claimed_fields, cleared_fields, take_task, keep_alive, finish_task, ms,
}
use loomcli.Kv.Leases.{insert_all, idle_fields}
use loomcli.Kv.Keys.{
  owner_key_eq, state_key_eq, owner_state_apart, state_owner_apart, hset_all_other, hdel_all_other,
  IsHash, hset_now, hset_some_now, hdel_all_now, remove_all,
}

module _ (r : Redis) (s : r.Server) (now t : ℕ) (le : now ≤ t) where
  open r use {view, view-set_ex, view-expire, view-del, view-hset, view-zadd}

  abbrev pub owner_view : r.Server → String → Option Value
  owner_view s' x = view s' t (task_owner_key x)

  abbrev pub state_view : r.Server → String → Option Value
  state_view s' x = view s' t (worker_state_key x)

  pub keep_alive_owner :
      (worker : String) (ttl : ℕ) (x : String)
      → owner_view (keep_alive r s now worker ttl) x ≡ owner_view s x
  unfolding keep_alive
  keep_alive_owner worker ttl x =
      view-zadd _ active_workers_key now worker t (task_owner_key x)
      ∙ (view-expire s now (worker_state_key worker) (ms ttl) t (task_owner_key x) le
          ∙ rw (state_owner_apart worker x) refl)

  pub keep_alive_state :
      (worker : String) (ttl : ℕ) (x : String)
      → state_view (keep_alive r s now worker ttl) x ≡ (
          if str_eq worker x
          then (if ltb t (now + ms ttl) then view s now (worker_state_key x) else none)
          else state_view s x)
  unfolding keep_alive
  keep_alive_state worker ttl x =
      view-zadd _ active_workers_key now worker t (worker_state_key x)
      ∙ (view-expire s now (worker_state_key worker) (ms ttl) t (worker_state_key x) le
          ∙ rw (state_key_eq worker x) refl)

-- The fields of a worker's session after claimScript, and after completeScript.
module _ (r : Redis) (s : r.Server) (now t : ℕ) (le : now ≤ t) where
  open r use {view, view-set_ex, view-expire, view-del, view-hset, view-zadd, set_ex, del, hset}

  pub take_task_owner :
      (worker task title agent : String) (ttl : ℕ) (x : String)
      → owner_view r s now t le (take_task r s now worker task title agent ttl) x ≡ (
          if str_eq task x
          then (if ltb t (now + ms ttl) then some (plain worker) else none)
          else owner_view r s now t le s x)
  unfolding take_task
  take_task_owner worker task title agent ttl x =
      let owned = set_ex s now (task_owner_key task) worker (ms ttl) in
      let stated =
        hset_all r owned now (worker_state_key worker) (claimed_fields now task title agent) in
      keep_alive_owner r stated now t le worker ttl x
      ∙ (hset_all_other r now t (worker_state_key worker) (task_owner_key x) le
            (state_owner_apart worker x) owned (claimed_fields now task title agent)
          ∙ (view-set_ex s now (task_owner_key task) worker (ms ttl) t (task_owner_key x) le
              ∙ rw (owner_key_eq task x) refl))

  -- A claim leaves the states alone up to the fields.
  owned_state :
      (worker task : String) (ttl u : ℕ) (x : String)
      → now ≤ u
      → view (set_ex s now (task_owner_key task) worker ttl) u (worker_state_key x)
        ≡ view s u (worker_state_key x)
  owned_state worker task ttl u x h =
      view-set_ex s now (task_owner_key task) worker ttl u (worker_state_key x) h
      ∙ rw (owner_state_apart task x) refl

  pub take_task_state :
      (worker task title agent : String) (ttl : ℕ) (x : String)
      → IsHash (view s now (worker_state_key worker))
      → state_view r s now t le (take_task r s now worker task title agent ttl) x ≡ (
          if str_eq worker x
          then (if ltb t (now + ms ttl)
              then some (
                  hash (
                    insert_all
                      (claimed_fields now task title agent)
                      (fields_of (view s now (worker_state_key worker)))))
              else none)
          else state_view r s now t le s x)
  unfolding take_task
  take_task_state worker task title agent ttl x h =
      keep_alive_state r stated now t le worker ttl x ∙ go
    where
      owned : r.Server
      owned = set_ex s now (task_owner_key task) worker (ms ttl)

      stated : r.Server
      stated = hset_all r owned now (worker_state_key worker) (claimed_fields now task title agent)

      as_before : view owned now (worker_state_key worker) ≡ view s now (worker_state_key worker)
      as_before = owned_state worker task (ms ttl) now worker (omega arith)

      own_fields :
          view stated now (worker_state_key worker)
          ≡ some (
              hash (
                insert_all
                  (claimed_fields now task title agent)
                  (fields_of (view s now (worker_state_key worker)))))
      own_fields =
          hset_some_now r now (worker_state_key worker) owned "task_id" task
            (("task_title", title)
              ∷ ("state", "working")
              ∷ ("claimed_at", itoa (pos now))
              ∷ ("agent_type", agent)
              ∷ [])
            (rw as_before h)
          ∙ ap (λ o. some (hash (insert_all (claimed_fields now task title agent) (fields_of o))))
              as_before

      go :
          (if str_eq worker x
            then (if ltb t (now + ms ttl) then view stated now (worker_state_key x) else none)
            else view stated t (worker_state_key x))
          ≡ (if str_eq worker x
              then (if ltb t (now + ms ttl)
                  then some (
                      hash (
                        insert_all
                          (claimed_fields now task title agent)
                          (fields_of (view s now (worker_state_key worker)))))
                  else none)
              else state_view r s now t le s x)
      go = elim (Bool-cases (str_eq worker x)) [
        | inl e ↦ rw e (rw (← (eq_iff worker x).0 e) (rw own_fields refl))
        | inr e ↦ rw e (
            hset_all_other r now t (worker_state_key worker) (worker_state_key x) le
              (state_key_eq worker x ∙ e) owned (claimed_fields now task title agent)
            ∙ owned_state worker task (ms ttl) t x le)
      ]

  pub finish_task_owner :
      (worker task : String) (ttl : ℕ) (x : String)
      → owner_view r s now t le (finish_task r s now worker task ttl) x
        ≡ (if str_eq task x then none else owner_view r s now t le s x)
  unfolding finish_task
  finish_task_owner worker task ttl x =
      let freed = del s (task_owner_key task) in
      let dropped = hdel_all r freed now (worker_state_key worker) cleared_fields in
      let idle = hset dropped now (worker_state_key worker) "state" "idle" in
      keep_alive_owner r idle now t le worker ttl x
      ∙ (view-hset dropped now (worker_state_key worker) "state" "idle" t (task_owner_key x) le
          ∙ (rw (state_owner_apart worker x) (
              hdel_all_other r now t (worker_state_key worker) (task_owner_key x) le
                (state_owner_apart worker x) freed cleared_fields
              ∙ (view-del s (task_owner_key task) t (task_owner_key x)
                  ∙ rw (owner_key_eq task x) refl))))

  freed_state :
      (task : String) (u : ℕ) (x : String)
      → view (del s (task_owner_key task)) u (worker_state_key x) ≡ view s u (worker_state_key x)
  freed_state task u x =
      view-del s (task_owner_key task) u (worker_state_key x) ∙ rw (owner_state_apart task x) refl

  pub finish_task_state :
      (worker task : String) (ttl : ℕ) (x : String)
      → IsHash (view s now (worker_state_key worker))
      → state_view r s now t le (finish_task r s now worker task ttl) x ≡ (
          if str_eq worker x
          then (if ltb t (now + ms ttl)
              then some (hash (idle_fields (fields_of (view s now (worker_state_key worker)))))
              else none)
          else state_view r s now t le s x)
  unfolding finish_task
  finish_task_state worker task ttl x h = keep_alive_state r idle now t le worker ttl x ∙ go
    where
      freed : r.Server
      freed = del s (task_owner_key task)

      dropped : r.Server
      dropped = hdel_all r freed now (worker_state_key worker) cleared_fields

      idle : r.Server
      idle = hset dropped now (worker_state_key worker) "state" "idle"

      as_before : view freed now (worker_state_key worker) ≡ view s now (worker_state_key worker)
      as_before = freed_state task now worker

      own_fields :
          view idle now (worker_state_key worker)
          ≡ some (hash (idle_fields (fields_of (view s now (worker_state_key worker)))))
      own_fields =
          let d =
            hdel_all_now r now (worker_state_key worker) freed cleared_fields (rw as_before h) in
          hset_now r now (worker_state_key worker) dropped "state" "idle" d.0
          ∙ ap (λ fs. some (hash (insert "state" "idle" fs)))
              (d.1 ∙ ap (λ o. remove_all cleared_fields (fields_of o)) as_before)

      go :
          (if str_eq worker x
            then (if ltb t (now + ms ttl) then view idle now (worker_state_key x) else none)
            else view idle t (worker_state_key x))
          ≡ (if str_eq worker x
              then (if ltb t (now + ms ttl)
                  then some (hash (idle_fields (fields_of (view s now (worker_state_key worker)))))
                  else none)
              else state_view r s now t le s x)
      go = elim (Bool-cases (str_eq worker x)) [
        | inl e ↦ rw e (rw (← (eq_iff worker x).0 e) (rw own_fields refl))
        | inr e ↦
            let n : str_eq (worker_state_key worker) (worker_state_key x) ≡ false =
              state_key_eq worker x ∙ e in
            rw e (
              view-hset dropped now (worker_state_key worker) "state" "idle" t (worker_state_key x)
                le
              ∙ (rw n (
                  hdel_all_other r now t (worker_state_key worker) (worker_state_key x) le n freed
                    cleared_fields
                  ∙ freed_state task t x)))
      ]
