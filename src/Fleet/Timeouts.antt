-- ===== src/Fleet/Timeouts.antt =====
-- The enforcement of time-outs, internal/webui/fleet/timeout.go. A check runs at one time.
use loomcli.Common.{
  ℕ, ◌+◌, ◌-◌, ◌<◌, ◌≤◌, ◌≡◌, leb, eq_refl, refl, ap, sym, ◌∙◌, Bool, true, false, ◌&&◌, ◌||◌,
  Option, none, some, List, [], ◌∷◌, String, str_eq, eq_iff, arith, if◌then◌else◌, inl, inr,
  Bool-cases, Option-cases, is_some,
}
use loomcli.Fleet.{
  IdError, claimed, taken, claim_on, claim_checked, recorded, record_claim_time, try_claim,
  is_recorded, Redis, claimed_task_key, claim_times_key, validate_id, timed_out_from,
  find_timed_out_tasks, release_claim, release_all, check_timeouts,
}
use loomcli.Fleet.Lease.{owner, key_eq, claim_checked-free, try_claim_claimed}

-- The task is among those that were found.
abbrev is_found : String → List (String × String × ℕ) → Bool
is_found task [] = false
is_found task ((other, _, _) ∷ ts) = str_eq other task || is_found task ts

only_held :
    (b : Bool) (o : Option String) → (if b && is_some o then none else o) ≡ (if b then none else o)
only_held true none = refl
only_held true (some w) = refl
only_held false o = refl

module _ (r : Redis) where
  open r use {Server, get, zrem, zrange, get-zrem, get-del}

  timed_out_from_owner :
      (s : Server) (now t : ℕ) (zs : List (String × ℕ)) (task : String)
      → owner r (timed_out_from r s now zs).0 t task ≡ owner r s t task
  unfolding timed_out_from
  timed_out_from_owner s now t [] task = refl
  timed_out_from_owner s now t ((other, at) ∷ zs) task = elim (Option-cases (owner r s now other)) [
    | inl e ↦
        rw (timed_out_from, e)
          (timed_out_from_owner (zrem s claim_times_key other) now t zs task
            ∙ get-zrem s claim_times_key other t (claimed_task_key task))
    | inr (w, e) ↦ rw (timed_out_from, e) (timed_out_from_owner s now t zs task)
  ]

  is_found-timed_out_from :
      (s : Server) (now : ℕ) (zs : List (String × ℕ)) (task : String)
      → is_found task (timed_out_from r s now zs).1
        ≡ (is_recorded task zs && is_some (owner r s now task))
  unfolding timed_out_from
  is_found-timed_out_from s now [] task = refl
  is_found-timed_out_from s now ((other, at) ∷ zs) task =
      elim (Option-cases (owner r s now other)) [
        | inl e ↦
            rw (timed_out_from, e)
              (is_found-timed_out_from (zrem s claim_times_key other) now zs task
                ∙ rw (get-zrem s claim_times_key other now (claimed_task_key task))
                    (unheld other zs task e))
        | inr (w, e) ↦
            rw (timed_out_from, is_found, e)
              (rw (is_found-timed_out_from s now zs task) (held other w zs task e))
      ]
    where
      unheld :
          (other : String) (zs : List (String × ℕ)) (task : String)
          → owner r s now other ≡ none
          → (is_recorded task zs && is_some (owner r s now task))
            ≡ ((str_eq other task || is_recorded task zs) && is_some (owner r s now task))
      unheld other zs task e = elim (Bool-cases (str_eq other task)) [
        | inl p ↦
            let o : owner r s now task ≡ none =
              ap (λ k. owner r s now k) (sym ((eq_iff other task).0 p)) ∙ e in
            rw o (ground arith)
        | inr p ↦ rw p refl
      ]

      held :
          (other w : String) (zs : List (String × ℕ)) (task : String)
          → owner r s now other ≡ some w
          → (str_eq other task || (is_recorded task zs && is_some (owner r s now task)))
            ≡ ((str_eq other task || is_recorded task zs) && is_some (owner r s now task))
      held other w zs task e = elim (Bool-cases (str_eq other task)) [
        | inl p ↦
            let o : owner r s now task ≡ some w =
              ap (λ k. owner r s now k) (sym ((eq_iff other task).0 p)) ∙ e in
            rw o (ground arith)
        | inr p ↦ rw p refl
      ]

  release_claim_owner :
      (s : Server) (t : ℕ) (other task : String)
      → validate_id task ≡ none
      → owner r (release_claim r s other) t task
        ≡ (if str_eq other task then none else owner r s t task)
  unfolding release_claim
  release_claim_owner s t other task v = elim (Bool-cases (is_some (validate_id other))) [
    | inl e ↦ rw (release_claim, e) (invalid e)
    | inr e ↦
        rw
          (
            release_claim,
            e,
            get-zrem,
            get-del s (claimed_task_key other) t (claimed_task_key task),
            key_eq other task,
          )
          refl
  ]
    where
      invalid :
          is_some (validate_id other) ≡ true
          → owner r s t task ≡ (if str_eq other task then none else owner r s t task)
      invalid e = elim (Bool-cases (str_eq other task)) [
        | inl p ↦
            let q : is_some (validate_id task) ≡ true =
              ap (λ k. is_some (validate_id k)) (sym ((eq_iff other task).0 p)) ∙ e in
            absurd (cc (q, v))
        | inr p ↦ rw p refl
      ]

  release_all_owner :
      (s : Server) (t : ℕ) (ts : List (String × String × ℕ)) (task : String)
      → validate_id task ≡ none
      → owner r (release_all r s ts) t task ≡ (if is_found task ts then none else owner r s t task)
  unfolding release_all
  release_all_owner s t [] task v = refl
  release_all_owner s t ((other, w, at) ∷ ts) task v =
      release_all_owner (release_claim r s other) t ts task v
      ∙ rw (release_claim_owner s t other task v) (ground arith)

  -- A check ends the claims of the tasks recorded at or before the cutoff, which is the timeout ago or 0,
  -- and at its time every other claim is as it was, for tasks with a valid id.
  check_timeouts_owner :
      (s : Server) (now timeout : ℕ) (task : String)
      → validate_id task ≡ none
      → owner r (check_timeouts r s now timeout) now task ≡ (
          if is_recorded task (zrange s claim_times_key (now - timeout))
          then none
          else owner r s now task)
  unfolding check_timeouts find_timed_out_tasks
  check_timeouts_owner s now timeout task v =
      let zs = zrange s claim_times_key (now - timeout) in
      release_all_owner (timed_out_from r s now zs).0 now (timed_out_from r s now zs).1 task v
      ∙ rw (is_found-timed_out_from s now zs task, timed_out_from_owner s now now zs task)
          (only_held (is_recorded task zs) (owner r s now task))

recorded_time :
    (r : Redis) (s : r.Server) (now max : ℕ) (task worker : String) (o : Option String)
    → (recorded r now task (claim_on r s now task worker o)).1 ≡ claimed
    → is_recorded task
        (r.zrange (recorded r now task (claim_on r s now task worker o)).0 claim_times_key max)
      ≡ leb now max
unfolding claim_on recorded record_claim_time
recorded_time r s now max task worker none c = rw (r.zrange-zadd, eq_refl task) refl
recorded_time r s now max task worker (some holder) c = elim (Bool-cases (str_eq holder worker)) [
  | inl e ↦ rw e (rw (r.zrange-zadd, eq_refl task) refl)
  | inr e ↦
      let q : (recorded r now task (claim_on r s now task worker (some holder))).1 ≡ taken holder =
        rw e refl in
      absurd (cc (q, c))
]

claimed_time :
    (r : Redis) (s : r.Server) (now max : ℕ) (task worker : String) (a b : Option IdError)
    → (claim_checked r s now task worker a b).1 ≡ claimed
    → is_recorded task (r.zrange (claim_checked r s now task worker a b).0 claim_times_key max)
      ≡ leb now max
unfolding claim_checked
claimed_time r s now max task worker (some e) b c = absurd (cc c)
claimed_time r s now max task worker none (some e) c = absurd (cc c)
claimed_time r s now max task worker none none c =
    recorded_time r s now max task worker (owner r s now task) c

-- A check within 300 seconds of a claim, made later than at time 0, ends the claim when the timeout has
-- passed since, and otherwise the worker has it still.
check_timeouts_claimed :
    (r : Redis) (s : r.Server) (now t timeout : ℕ) (task worker : String)
    → (try_claim r s now task worker).1 ≡ claimed
    → 0 < now
    → now ≤ t
    → t < now + 300
    → owner r (check_timeouts r (try_claim r s now task worker).0 t timeout) t task
      ≡ (if leb (now + timeout) t then none else some worker)
unfolding try_claim
check_timeouts_claimed r s now t timeout task worker c p x y =
    let (v, w, f) =
      claim_checked-free r s now task worker (validate_id task) (validate_id worker) c in
    check_timeouts_owner r (try_claim r s now task worker).0 t timeout task v
    ∙ rw
        (
          claimed_time r s now (t - timeout) task worker (validate_id task) (validate_id worker) c,
          try_claim_claimed r s now t task worker c x y,
        )
        (ground arith)
