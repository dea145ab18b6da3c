-- ===== src/Fleet/Lease.antt =====
-- The claim of a task, internal/webui/fleet/store.go, as a lease.
pub mod Runs
use text.Mathlib.TextLemmas.{append_cancel_left}
use loomcli.Common.{
  ℕ, ◌+◌, ◌<◌, ◌≤◌, ◌≡◌, ◌≢◌, refl, ap, sym, ◌∙◌, Bool, true, ◌&&◌, Option, none, some, List, [],
  ◌∷◌, String, ℤ, str_eq, eq_iff, eq_refl, str_ne, ltb, arith, if◌then◌else◌, inl, inr, Bool-cases,
  Option-cases, lt→ltb, is_some, pos_part, ◌*◌,
}
use loomcli.Fleet.{
  Redis, claimed_task_key, validate_id, claimed, taken, IdError, claim_on, claim_checked, recorded,
  record_claim_time, try_claim, release_claim, extend_claim_ttl,
}

pub key_eq : (a b : String) → str_eq (claimed_task_key a) (claimed_task_key b) ≡ str_eq a b
key_eq a b = ground (
  arith,
  eq_iff a b,
  eq_iff (claimed_task_key a) (claimed_task_key b),
  append_cancel_left "fleet:tasks:claimed:" a b,
)

-- A task that nobody holds, or the worker itself.
abbrev pub is_free : Option String → String → Bool
is_free none worker = true
is_free (some holder) worker = str_eq holder worker

module _ (r : Redis) where
  open r use {Server, get, get-set_ex, get-expire, get-zadd, get-zrem, get-del}

  -- Who holds a task at a time.
  abbrev pub owner : Server → ℕ → String → Option String
  owner s t task = get s t (claimed_task_key task)

  -- After a claim for a valid task and worker, the task is its for 300 seconds if it was free or its own,
  -- and otherwise nothing has changed; other tasks keep their owners.
  pub try_claim_owner :
      (s : Server) (now t : ℕ) (task worker other : String)
      → now ≤ t
      → validate_id task ≡ none
      → validate_id worker ≡ none
      → owner (try_claim r s now task worker).0 t other ≡ (
          if str_eq task other && is_free (owner s now task) worker
          then (if ltb t (now + 300) then some worker else none)
          else owner s t other)
  unfolding try_claim
  try_claim_owner s now t task worker other h v w = rw (v, w) (go (owner s now task) refl)
    where
      its_own :
          (holder : String)
          → owner s now task ≡ some holder
          → str_eq holder worker ≡ true
          → (if str_eq task other
              then (if ltb t (now + 300) then owner s now other else none)
              else owner s t other)
            ≡ (if str_eq task other && true
                then (if ltb t (now + 300) then some worker else none)
                else owner s t other)
      its_own holder e q = elim (Bool-cases (str_eq task other)) [
        | inl p ↦
            let x : owner s now other ≡ some worker =
              ap (λ k. owner s now k) (sym ((eq_iff task other).0 p))
              ∙ e
              ∙ ap some ((eq_iff holder worker).0 q) in
            rw (p, x) refl
        | inr p ↦ rw p refl
      ]

      go :
          (o : Option String)
          → owner s now task ≡ o
          → owner (recorded r now task (claim_on r s now task worker o)).0 t other ≡ (
              if str_eq task other && is_free o worker
              then (if ltb t (now + 300) then some worker else none)
              else owner s t other)
      go none e =
          unfold recorded record_claim_time claim_on in
          rw
            (
              get-zadd,
              get-set_ex s now (claimed_task_key task) worker 300 t (claimed_task_key other) h,
              key_eq task other,
            )
            (ground arith)
      go (some holder) e = elim (Bool-cases (str_eq holder worker)) [
        | inl q ↦
            unfold recorded record_claim_time claim_on in
            rw
              (
                q,
                get-zadd,
                get-expire s now (claimed_task_key task) 300 t (claimed_task_key other) h,
                key_eq task other,
              )
              (its_own holder e q)
        | inr q ↦ unfold recorded record_claim_time claim_on in rw q (ground arith)
      ]

  -- Another worker's claim is refused while the task is held.
  pub try_claim_taken :
      (s : Server) (now : ℕ) (task worker holder : String)
      → validate_id task ≡ none
      → validate_id worker ≡ none
      → owner s now task ≡ some holder
      → holder ≢ worker
      → (try_claim r s now task worker).1 ≡ taken holder
  unfolding try_claim
  try_claim_taken s now task worker holder v w o n =
      rw (v, w, o) (unfold claim_on recorded in rw (str_ne holder worker n) refl)

claim_on-free :
    (r : Redis) (s : r.Server) (now : ℕ) (task worker : String) (o : Option String)
    → (recorded r now task (claim_on r s now task worker o)).1 ≡ claimed
    → is_free o worker ≡ true
claim_on-free r s now task worker none c = refl
claim_on-free r s now task worker (some holder) c = elim (Bool-cases (str_eq holder worker)) [
  | inl e ↦ e
  | inr e ↦
      let q : (recorded r now task (claim_on r s now task worker (some holder))).1 ≡ taken holder =
        unfold recorded claim_on in rw e refl in
      absurd (cc (q, c))
]

pub claim_checked-free :
    (r : Redis) (s : r.Server) (now : ℕ) (task worker : String) (a b : Option IdError)
    → (claim_checked r s now task worker a b).1 ≡ claimed
    → (a ≡ none) × (b ≡ none) × (is_free (owner r s now task) worker ≡ true)
unfolding claim_checked
claim_checked-free r s now task worker (some e) b c = absurd (cc c)
claim_checked-free r s now task worker none (some e) c = absurd (cc c)
claim_checked-free r s now task worker none none c =
    (refl, refl, claim_on-free r s now task worker (owner r s now task) c)

-- A claim that succeeds makes the worker the task's owner for 300 seconds.
pub try_claim_claimed :
    (r : Redis) (s : r.Server) (now t : ℕ) (task worker : String)
    → (try_claim r s now task worker).1 ≡ claimed
    → now ≤ t
    → t < now + 300
    → owner r (try_claim r s now task worker).0 t task ≡ some worker
try_claim_claimed r s now t task worker c x y =
    let (v, w, f) =
      claim_checked-free r s now task worker (validate_id task) (validate_id worker)
        (unfold try_claim in c) in
    try_claim_owner r s now t task worker task x v w
    ∙ rw (eq_refl task, f, lt→ltb t (now + 300) y) refl

-- A release asks for no holder: whoever releases a task ends the claim of another worker, and the next
-- claim takes it.
release_claim_steals :
    (r : Redis) (s : r.Server) (now : ℕ) (task worker other : String)
    → validate_id task ≡ none
    → validate_id other ≡ none
    → owner r s now task ≡ some worker
    → worker ≢ other
    → ((try_claim r s now task other).1 ≡ taken worker)
      × ((try_claim r (release_claim r s task) now task other).1 ≡ claimed)
unfolding release_claim
release_claim_steals r s now task worker other v w o n = (
  try_claim_taken r s now task other worker v w o n,
  unfold try_claim claim_on recorded in
      rw
        (
          v,
          w,
          r.get-zrem,
          r.get-del s (claimed_task_key task) now (claimed_task_key task),
          eq_refl (claimed_task_key task),
        )
        refl,
)
