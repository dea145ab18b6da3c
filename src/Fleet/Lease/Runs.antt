-- ===== src/Fleet/Lease/Runs.antt =====
-- Runs of claims, extensions and releases, internal/webui/fleet/store.go.
use loomcli.Common.{
  ℕ, ◌+◌, ◌<◌, ◌≤◌, ◌≡◌, ◌≢◌, ap, ◌∙◌, ◌&&◌, none, some, List, [], ◌∷◌, String, ℤ, str_eq, eq_iff,
  str_ne, ltb, arith, if◌then◌else◌, inl, inr, Bool-cases, Option-cases, is_some, pos_part, ◌*◌,
}
use loomcli.Fleet.{
  Redis, claimed_task_key, validate_id, claimed, taken, try_claim, release_claim, extend_claim_ttl,
}
use loomcli.Fleet.Lease.{
  owner, is_free, key_eq, try_claim_owner, try_claim_taken, try_claim_claimed, claim_checked-free,
}

-- What the workers and the server do: each with its time.
pub data Event : Type 0 where
  claims : ℕ → String → String → Event
  extends : ℕ → String → ℤ → Event
  releases : String → Event

module _ (r : Redis) where
  open r use {Server, get-expire, get-del, get-zrem}

  pub step : Server → Event → Server
  step s (claims now task worker) = (try_claim r s now task worker).0
  step s (extends now task minutes) = (extend_claim_ttl r s now task minutes).0
  step s (releases task) = release_claim r s task

  pub run : Server → List Event → Server
  unfolding step
  run s [] = s
  run s (e ∷ es) = run (step s e) es

  -- An event, not before a time, that leaves the lease of a task alone until its end.
  abbrev pub Quiet : ℕ → ℕ → String → Event → Type 0
  Quiet from until task (claims now _ _) = (from ≤ now) × (now < until)
  Quiet from until task (extends now other _) = (from ≤ now) × (other ≢ task)
  Quiet from until task (releases other) = other ≢ task

  abbrev pub time_of : ℕ → Event → ℕ
  time_of from (claims now _ _) = now
  time_of from (extends now _ _) = now
  time_of from (releases _) = from

  -- The time after the events.
  abbrev pub last_time : ℕ → List Event → ℕ
  last_time from [] = from
  last_time from (e ∷ es) = last_time (time_of from e) es

  abbrev pub AllQuiet : ℕ → ℕ → String → List Event → Type 0
  AllQuiet from until task [] = Unit {0}
  AllQuiet from until task (e ∷ es) =
      Quiet from until task e × AllQuiet (time_of from e) until task es

  -- The task is the worker's from a time on, until another.
  abbrev Held : Server → ℕ → ℕ → String → String → Type 0
  Held s from until task worker = (t : ℕ) → from ≤ t → t < until → owner r s t task ≡ some worker

  -- A claim of the task itself, by its holder or another worker.
  claim-Held :
      (s : Server) (now from until : ℕ) (other task worker v : String)
      → from ≤ now
      → now < until
      → until ≤ now + 300
      → Held s from until task worker
      → Held (try_claim r s now other v).0 now until task worker
  claim-Held s now from until other task worker v a b c h t x y =
      elim (Option-cases (validate_id other)) [
        | inl p ↦ elim (Option-cases (validate_id v)) [
          | inl q ↦ try_claim_owner r s now t other v task x p q ∙ kept
          | inr (e, q) ↦ unfold try_claim in rw (p, q) old
        ]
        | inr (e, p) ↦ unfold try_claim in rw p old
      ]
    where
      old : owner r s t task ≡ some worker
      old = h t (omega arith) y

      mine :
          (if is_free (some worker) v
            then (if ltb t (now + 300) then some v else none)
            else owner r s t task)
          ≡ some worker
      mine = elim (Bool-cases (str_eq worker v)) [
        | inl n ↦ rw n (rw (← (eq_iff worker v).0 n) (ground arith))
        | inr n ↦ rw n old
      ]

      kept :
          (if str_eq other task && is_free (owner r s now other) v
            then (if ltb t (now + 300) then some v else none)
            else owner r s t task)
          ≡ some worker
      kept = elim (Bool-cases (str_eq other task)) [
        | inl m ↦
            let o : owner r s now other ≡ some worker =
              ap (λ k. owner r s now k) ((eq_iff other task).0 m) ∙ h now a b in
            rw (m, o) mine
        | inr m ↦ rw m old
      ]

  extend-Held :
      (s : Server) (now from until : ℕ) (other task worker : String) (m : ℤ)
      → from ≤ now
      → other ≢ task
      → Held s from until task worker
      → Held (extend_claim_ttl r s now other m).0 now until task worker
  unfolding extend_claim_ttl
  extend-Held s now from until other task worker m a n h t x y =
      elim (Bool-cases (is_some (validate_id other))) [
        | inl e ↦ rw (e, extend_claim_ttl) old
        | inr e ↦ elim (Bool-cases (is_some (owner r s now other))) [
          | inl f ↦
              rw
                (
                  e,
                  f,
                  extend_claim_ttl,
                  get-expire s now (claimed_task_key other) (pos_part m * 60) t
                      (claimed_task_key task) x,
                  key_eq other task,
                  str_ne other task n,
                )
                old
          | inr f ↦ rw (e, f, extend_claim_ttl) old
        ]
      ]
    where
      old : owner r s t task ≡ some worker
      old = h t (omega arith) y

  release-Held :
      (s : Server) (from until : ℕ) (other task worker : String)
      → other ≢ task
      → Held s from until task worker
      → Held (release_claim r s other) from until task worker
  unfolding release_claim
  release-Held s from until other task worker n h t x y =
      elim (Bool-cases (is_some (validate_id other))) [
        | inl e ↦ rw (e, release_claim) (h t x y)
        | inr e ↦
            rw
              (
                e,
                release_claim,
                get-zrem,
                get-del s (claimed_task_key other) t (claimed_task_key task),
                key_eq other task,
                str_ne other task n,
              )
              (h t x y)
      ]

  step-Held :
      (s : Server) (e : Event) (from until start : ℕ) (task worker : String)
      → start ≤ from
      → until ≤ start + 300
      → Quiet from until task e
      → Held s from until task worker
      → Held (step s e) (time_of from e) until task worker
  unfolding step
  step-Held s (claims now other v) from until start task worker k l q h =
      claim-Held s now from until other task worker v q.0 q.1 (omega (arith, q.0)) h
  step-Held s (extends now other m) from until start task worker k l q h =
      extend-Held s now from until other task worker m q.0 q.1 h
  step-Held s (releases other) from until start task worker k l q h =
      release-Held s from until other task worker q h

  time_of-le :
      (from until : ℕ) (task : String) (e : Event) → Quiet from until task e → from ≤ time_of from e
  time_of-le from until task (claims now o v) q = q.0
  time_of-le from until task (extends now o m) q = q.0
  time_of-le from until task (releases o) q = omega arith

  run-Held :
      (es : List Event) (s : Server) (from until start : ℕ) (task worker : String)
      → start ≤ from
      → until ≤ start + 300
      → AllQuiet from until task es
      → Held s from until task worker
      → Held (run s es) (last_time from es) until task worker
  unfolding run
  run-Held [] s from until start task worker k l q h = h
  run-Held (e ∷ es) s from until start task worker k l q h =
      run-Held es (step s e) (time_of from e) until start task worker
        (omega (arith, time_of-le from until task e q.0)) l q.1
        (step-Held s e from until start task worker k l q.0 h)

-- A claim is a lease: for 300 seconds after a worker's successful claim of a task, whatever claims are
-- made for any task and whatever other tasks are released or extended in the meantime, the claim of
-- the task by another worker is refused with the name of its holder.
pub lease_excludes :
    (r : Redis) (s : r.Server) (now t : ℕ) (task worker other : String) (es : List Event)
    → (try_claim r s now task worker).1 ≡ claimed
    → AllQuiet r now (now + 300) task es
    → last_time r now es ≤ t
    → t < now + 300
    → validate_id other ≡ none
    → worker ≢ other
    → (try_claim r (run r (try_claim r s now task worker).0 es) t task other).1 ≡ taken worker
lease_excludes r s now t task worker other es c q a b vo n =
    let v =
      (claim_checked-free r s now task worker (validate_id task) (validate_id worker)
        (unfold try_claim in c)).0 in
    let first : Held r (try_claim r s now task worker).0 now (now + 300) task worker =
      λ u x y. try_claim_claimed r s now u task worker c x y in
    try_claim_taken r (run r (try_claim r s now task worker).0 es) t task other worker v vo
      (run-Held r es (try_claim r s now task worker).0 now (now + 300) now task worker (omega arith)
        (omega arith) q first t a b)
      n
