-- ===== src/Kv/Exclusion.antt =====
-- What the promise of leases in internal/kv gives to a worker that has claimed a task.
use loomcli.Common.{
  ℕ, ◌+◌, ◌≤◌, ◌<◌, ◌≡◌, ◌≢◌, refl, ap, sym, ◌∙◌, true, false, Option, none, some, List, [], ◌∷◌,
  String, str_eq, eq_iff, eq_refl, str_ne, lt→ltb, lookup, arith, Bool-cases, inl, inr, ◌⊎◌,
}
use loomcli.Kv.{Redis, claimed_fields}
use loomcli.Kv.Client.{Result, ok, guarded, fst_map, validate_id, IdError}
use loomcli.Kv.Leases.{
  Leases, lease, live, put, claim_lease, beat_session, beat_of, beat_lease, complete_lease,
  clean_lease,
}
use loomcli.Kv.Requests.{
  Request, claims, beats, completes, cleans, drops_owner, drops_state, drops_active, Response,
  claim, beat, complete, cleaned, serve, serve_all, promise, promise_all,
}
use loomcli.Kv.Refines.{Represents, end_of, serve-promise, serve_all-promise_all, wait_Represents}

abbrev pub Owners : Type 0
Owners = String → Option (String × ℕ)

-- The task is the worker's, at least until a time.
abbrev pub HeldUntil : Owners → ℕ → String → String → Type 0
HeldUntil f until task worker = (d : ℕ) × (f task ≡ some (worker, d)) × (until ≤ d)

-- A request that does not end the worker's lease on purpose: it may be anyone's claim or heartbeat, the
-- completion of another task or by another worker, and a removal for another task or worker.
abbrev pub Spares : String → String → Request → Type 0
Spares task worker (completes w k) = (str_eq k task ≡ false) ⊎ (w ≢ worker)
Spares task worker (cleans k w) = (str_eq k task ≡ false) ⊎ (w ≢ worker)
Spares task worker (drops_owner k) = str_eq k task ≡ false
Spares task worker _ = Unit {0}

abbrev pub AllSpare : String → String → List (ℕ × Request) → Type 0
AllSpare task worker [] = Unit {0}
AllSpare task worker ((_, q) ∷ qs) = Spares task worker q × AllSpare task worker qs

module _ (until now : ℕ) (task worker : String) (early : now < until) where
  abbrev pub Held : Leases → Type 0
  Held a = HeldUntil a.owners until task worker

  pub live-Held : (a : Leases) → Held a → live now (a.owners task) ≡ some worker
  live-Held a (d, e, u) = rw e (rw (lt→ltb now d (omega (arith, early, u))) refl)

  other-Held :
      (f : Owners) (k : String) (v : Option (String × ℕ))
      → str_eq k task ≡ false
      → HeldUntil f until task worker
      → HeldUntil (put f k v) until task worker
  other-Held f k v n (d, e, u) = (d, rw n e, u)

  put-Held :
      (a : Leases) (k v : String)
      → until ≤ now + lease
      → Held a
      → live now (a.owners k) ≡ none ⊎ (live now (a.owners k) ≡ some v)
      → HeldUntil (put a.owners k (some (v, now + lease))) until task worker
  put-Held a k v l h free = elim (Bool-cases (str_eq k task)) [
    | inr n ↦ other-Held a.owners k (some (v, now + lease)) n h
    | inl n ↦
        let same : live now (a.owners k) ≡ some worker =
          ap (λ x. live now (a.owners x)) ((eq_iff k task).0 n) ∙ live-Held a h in
        (now + lease, rw n (ap (λ x. some (x, now + lease)) (holder same free)), l)
  ]
    where
      holder :
          live now (a.owners k) ≡ some worker
          → live now (a.owners k) ≡ none ⊎ (live now (a.owners k) ≡ some v)
          → v ≡ worker
      holder s (inl e) = absurd (cc (s, e))
      holder s (inr e) = cc (s, e)

  claim_lease-Held :
      (a : Leases) (k v : String) (c : List (String × String)) (o : Option String)
      → live now (a.owners k) ≡ o
      → until ≤ now + lease
      → Held a
      → Held (claim_lease a now v k c o).0
  claim_lease-Held a k v c none e l h = put-Held a k v l h (inl e)
  claim_lease-Held a k v c (some x) e l h = elim (Bool-cases (str_eq x v)) [
    | inl q ↦ rw q (put-Held a k v l h (inr (e ∙ ap some ((eq_iff x v).0 q))))
    | inr q ↦ rw q h
  ]

  beat_lease-Held :
      (a : Leases) (k v : String) (fs : List (String × String)) (o : Option String)
      → live now (a.owners k) ≡ o
      → until ≤ now + lease
      → Held a
      → Held (beat_lease a now v fs k o).0
  beat_lease-Held a k v fs none e l h = h
  beat_lease-Held a k v fs (some x) e l h = elim (Bool-cases (str_eq x v)) [
    | inl q ↦ rw q (put-Held a k v l h (inr (e ∙ ap some ((eq_iff x v).0 q))))
    | inr q ↦ rw q h
  ]

  beat_session-Held :
      (a : Leases) (v : String) (o : Option (List (String × String)))
      → until ≤ now + lease
      → Held a
      → Held (beat_session a now v o).0
  beat_session-Held a v none l h = h
  beat_session-Held a v (some fs) l h = go (lookup "task_id" fs)
    where
      go : (o : Option String) → Held (beat_of a now v fs o).0
      go none = h
      go (some k) = beat_lease-Held a k v fs (live now (a.owners k)) refl l h

  -- What only the holder of `k` can do leaves the lease alone, for another task or holder.
  removed-Held :
      (a : Leases) (k v x : String)
      → live now (a.owners k) ≡ some x
      → str_eq x v ≡ true
      → (str_eq k task ≡ false) ⊎ (v ≢ worker)
      → Held a
      → HeldUntil (put a.owners k none) until task worker
  removed-Held a k v x e q (inl n) h = other-Held a.owners k none n h
  removed-Held a k v x e q (inr n) h = elim (Bool-cases (str_eq k task)) [
    | inr m ↦ other-Held a.owners k none m h
    | inl m ↦
        let same : live now (a.owners k) ≡ some worker =
          ap (λ y. live now (a.owners y)) ((eq_iff k task).0 m) ∙ live-Held a h in
        absurd (n (sym ((eq_iff x v).0 q) ∙ cc (e, same)))
  ]

  complete_lease-Held :
      (a : Leases) (k v : String) (o : Option String)
      → live now (a.owners k) ≡ o
      → (str_eq k task ≡ false) ⊎ (v ≢ worker)
      → Held a
      → Held (complete_lease a now v k o).0
  complete_lease-Held a k v none e n h = h
  complete_lease-Held a k v (some x) e n h = elim (Bool-cases (str_eq x v)) [
    | inl q ↦ rw q (removed-Held a k v x e q n h)
    | inr q ↦ rw q h
  ]

  clean_lease-Held :
      (a : Leases) (k v : String) (o : Option String)
      → live now (a.owners k) ≡ o
      → (str_eq k task ≡ false) ⊎ (v ≢ worker)
      → Held a
      → Held (clean_lease a k v o).0
  clean_lease-Held a k v none e n h = h
  clean_lease-Held a k v (some x) e n h = elim (Bool-cases (str_eq x v)) [
    | inl q ↦ rw q (removed-Held a k v x e q n h)
    | inr q ↦ rw q h
  ]

  guard-Held :
      {A : Type 0} (f : Result A → Response) (a : Leases) (v : Option IdError) (x : Leases × A)
      → Held a
      → Held x.0
      → Held (fst_map f (guarded a v (fst_map ok x))).0
  guard-Held f a none (b, y) h k = k
  guard-Held f a (some e) x h k = h

  guards-Held :
      {A : Type 0} (f : Result A → Response) (a : Leases) (v w : Option IdError) (x : Leases × A)
      → Held a
      → Held x.0
      → Held (fst_map f (guarded a v (guarded a w (fst_map ok x)))).0
  guards-Held f a none w x h k = guard-Held f a w x h k
  guards-Held f a (some e) w x h k = h

  promise-Held :
      (a : Leases) (q : Request)
      → Spares task worker q
      → until ≤ now + lease
      → Held a
      → Held (promise a now q).0
  unfolding promise
  promise-Held a (claims v k title agent) n l h =
      let c = claimed_fields now k title agent in
      guards-Held claim a (validate_id v) (validate_id k)
        (claim_lease a now v k c (live now (a.owners k))) h
        (claim_lease-Held a k v c (live now (a.owners k)) refl l h)
  promise-Held a (beats v) n l h =
      guard-Held beat a (validate_id v) (beat_session a now v (live now (a.sessions v))) h
        (beat_session-Held a v (live now (a.sessions v)) l h)
  promise-Held a (completes v k) n l h =
      guards-Held complete a (validate_id v) (validate_id k)
        (complete_lease a now v k (live now (a.owners k))) h
        (complete_lease-Held a k v (live now (a.owners k)) refl n h)
  promise-Held a (cleans k v) n l h =
      guards-Held cleaned a (validate_id k) (validate_id v)
        (clean_lease a k v (live now (a.owners k))) h
        (clean_lease-Held a k v (live now (a.owners k)) refl n h)
  promise-Held a (drops_owner k) n l h = other-Held a.owners k none n h
  promise-Held a (drops_state v) n l h = h
  promise-Held a (drops_active v) n l h = h

end_of-le : (now : ℕ) (qs : List (ℕ × Request)) → now ≤ end_of now qs
end_of-le now [] = omega arith
end_of-le now ((wait, q) ∷ qs) = omega (arith, end_of-le (now + wait) qs)

promise_all-Held :
    (until now : ℕ) (task worker : String) (a : Leases) (qs : List (ℕ × Request))
    → end_of now qs < until
    → until ≤ now + lease
    → AllSpare task worker qs
    → HeldUntil a.owners until task worker
    → HeldUntil (promise_all a now qs).0.owners until task worker
unfolding promise_all
promise_all-Held until now task worker a [] e l n h = h
promise_all-Held until now task worker a ((wait, q) ∷ qs) e l n h =
    let early : now + wait < until = omega (arith, end_of-le (now + wait) qs, e) in
    promise_all-Held until (now + wait) task worker (promise a (now + wait) q).0 qs e
      (omega (arith, l)) n.1
      (promise-Held until (now + wait) task worker early a q n.0 (omega (arith, l)) h)

-- A claim of a held task.
claim_held :
    (r : Redis) (s : r.Server) (now until : ℕ) (a : Leases) (task worker other title agent : String)
    → Represents r s now a
    → HeldUntil a.owners until task worker
    → now < until
    → validate_id task ≡ none
    → validate_id other ≡ none
    → worker ≢ other
    → (serve r s now (claims other task title agent)).1
      ≡ claim (ok (record { success = false; existing_owner = worker }))
claim_held r s now until a task worker other title agent h held early vt vo n =
    let k = serve-promise r s now a (claims other task title agent) h in
    let o = live-Held until now task worker early a held in
    k.1 ∙ (unfold promise in rw (vo, vt, o) (rw (str_ne worker other n) refl))

claimed_lease-Held :
    (a : Leases) (now : ℕ) (task worker : String) (c : List (String × String)) (o : Option String)
    → (claim_lease a now worker task c o).1 ≡ record { success = true; existing_owner = "" }
    → HeldUntil (claim_lease a now worker task c o).0.owners (now + lease) task worker
claimed_lease-Held a now task worker c none e = (now + lease, rw (eq_refl task) refl, omega arith)
claimed_lease-Held a now task worker c (some x) e = elim (Bool-cases (str_eq x worker)) [
  | inl q ↦ rw q (now + lease, rw (eq_refl task) refl, omega arith)
  | inr q ↦
      let f : (claim_lease a now worker task c (some x)).1
          ≡ record { success = false; existing_owner = x } =
        rw q refl in
      absurd (cc (e, f))
]

-- A claim that succeeds had valid ids and holds the task.
pub claimed-Held :
    (a : Leases) (now : ℕ) (task worker title agent : String)
    → (promise a now (claims worker task title agent)).1
      ≡ claim (ok (record { success = true; existing_owner = "" }))
    → (validate_id task ≡ none)
      × HeldUntil
          (promise a now (claims worker task title agent)).0.owners
          (now + lease)
          task
          worker
unfolding promise
claimed-Held a now task worker title agent e = go (validate_id worker) (validate_id task) e
  where
    c : List (String × String)
    c = claimed_fields now task title agent

    o : Option String
    o = live now (a.owners task)

    go :
        (v w : Option IdError)
        → (fst_map claim
            (guarded a v (guarded a w (fst_map ok (claim_lease a now worker task c o))))).1
          ≡ claim (ok (record { success = true; existing_owner = "" }))
        → (w ≡ none)
          × HeldUntil
              (fst_map claim (
                guarded a v
                  (guarded a w (fst_map ok (claim_lease a now worker task c o))))).0.owners
              (now + lease)
              task
              worker
    go (some x) w q = absurd (cc q)
    go none (some x) q = absurd (cc q)
    go none none q = (refl, claimed_lease-Held a now task worker c o (cc q))

-- For 300 seconds after a worker's claim of a task, whatever claims and heartbeats are made, and whatever is
-- completed or removed for other tasks or other workers, another worker's claim of the task is refused
-- with the name of its holder.
pub claim_task_excludes :
    (r : Redis) (s : r.Server) (now wait : ℕ) (a : Leases)
    (task worker other title agent title' agent' : String) (qs : List (ℕ × Request))
    → Represents r s now a
    → (serve r s now (claims worker task title agent)).1
      ≡ claim (ok (record { success = true; existing_owner = "" }))
    → AllSpare task worker qs
    → end_of now qs + wait < now + 300000
    → validate_id other ≡ none
    → worker ≢ other
    → (serve r
        (serve_all r (serve r s now (claims worker task title agent)).0 now qs).0
        (end_of now qs + wait)
        (claims other task title' agent')).1
      ≡ claim (ok (record { success = false; existing_owner = worker }))
claim_task_excludes r s now wait a task worker other title agent title' agent' qs h c n e vo d =
    let k = serve-promise r s now a (claims worker task title agent) h in
    let won : (promise a now (claims worker task title agent)).1
        ≡ claim (ok (record { success = true; existing_owner = "" })) =
      sym k.1 ∙ c in
    let (vt, held) = claimed-Held a now task worker title agent won in
    let a' = (promise a now (claims worker task title agent)).0 in
    let s' = (serve r s now (claims worker task title agent)).0 in
    let rest = serve_all-promise_all r s' now a' qs k.0 in
    let kept =
      promise_all-Held (now + lease) now task worker a' qs (omega (arith, e)) (omega arith) n
        held in
    claim_held r (serve_all r s' now qs).0 (end_of now qs + wait) (now + lease)
      (promise_all a' now qs).0 task worker other title' agent'
      (wait_Represents r (serve_all r s' now qs).0 (end_of now qs) wait (promise_all a' now qs).0
        rest.1)
      kept e vt vo d
