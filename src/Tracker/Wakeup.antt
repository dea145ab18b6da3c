-- ===== src/Tracker/Wakeup.antt =====
-- No wake-up is lost: an agent sleeps only while its role is full.
use loomcli.Common.{
  ℕ, zero, suc, ◌≤◌, ◌<◌, ◌≡◌, refl, true, false, Option, none, some, List, [], ◌∷◌, String,
  get_elem?, eq_iff, Bool-cases, inl, inr, arith, map,
}
use loomcli.Config.{RoleConfig}
use loomcli.Tracker.{Tracker, at, new_concurrency_tracker, acquire, release, close}
use loomcli.Tracker.System.{
  Agent, outside, waiting, System, Move, attempts, releases, closes, step, run, init, holders,
  is_holding, set, broadcast, after_attempt, may_attempt, attempt_at, release_at, start, wake,
}
use loomcli.Tracker.Limits.{
  at-insert, AllBalanced, step-Balanced, init-Balanced, run-Balanced, has_count,
}

-- The loop condition of `Acquire` holds.
pub record Blocked (ct : Tracker) (role : String) : Type 0 where
  pub still_open : ct.closed ≡ false
  pub limited : 0 < at role ct.limits
  pub full : at role ct.limits ≤ at role ct.counts

abbrev pub AsleepBlocked : Tracker → List Agent → Type 0
AsleepBlocked ct [] = Unit {0}
AsleepBlocked ct (a ∷ xs) = (a.phase ≡ waiting → Blocked ct a.role) × AsleepBlocked ct xs

acquire-Blocked : (ct : Tracker) (r role : String) → Blocked ct role → Blocked (acquire ct r).0 role
unfolding acquire
acquire-Blocked ct r role h =
    ground (arith, at-insert r role (suc (at r ct.counts)) ct.counts, eq_iff r role)

acquire_asleep :
    (ct : Tracker) (r : String)
    → after_attempt (acquire ct r).1 ≡ waiting
    → Blocked (acquire ct r).0 r
unfolding acquire
acquire_asleep ct r h = ground arith

AsleepBlocked-set :
    (ct ct' : Tracker) (xs : List Agent) (i : ℕ) (b : Agent)
    → ((role : String) → Blocked ct role → Blocked ct' role)
    → (b.phase ≡ waiting → Blocked ct' b.role)
    → AsleepBlocked ct xs
    → AsleepBlocked ct' (set xs i b)
AsleepBlocked-set ct ct' [] i b keep new h = tt
AsleepBlocked-set ct ct' (x ∷ xs) zero b keep new h = (new, mono xs h.1)
  where
    mono : (ys : List Agent) → AsleepBlocked ct ys → AsleepBlocked ct' ys
    mono [] k = tt
    mono (y ∷ ys) k = (λ e. keep y.role (k.0 e), mono ys k.1)
AsleepBlocked-set ct ct' (x ∷ xs) (suc i) b keep new h =
    (λ e. keep x.role (h.0 e), AsleepBlocked-set ct ct' xs i b keep new h.1)

-- After a broadcast nobody sleeps.
broadcast-AsleepBlocked : (ct : Tracker) (xs : List Agent) → AsleepBlocked ct (broadcast true xs)
broadcast-AsleepBlocked ct [] = tt
broadcast-AsleepBlocked ct (x ∷ xs) = (awake x, broadcast-AsleepBlocked ct xs)
  where
    awake : (a : Agent) → (wake a).phase ≡ waiting → Blocked ct (wake a).role
    awake a e = absurd (ground arith)

-- A closed tracker has nobody asleep, so that closing it again may keep silent.
closed-AsleepBlocked :
    (ct ct' : Tracker) (xs : List Agent)
    → ct.closed ≡ true
    → AsleepBlocked ct xs
    → AsleepBlocked ct' xs
closed-AsleepBlocked ct ct' [] e h = tt
closed-AsleepBlocked ct ct' (x ∷ xs) e h =
    (λ w. absurd (ground (arith, (h.0 w).still_open)), closed-AsleepBlocked ct ct' xs e h.1)

close-AsleepBlocked :
    (s : System)
    → AsleepBlocked s.tracker s.agents
    → AsleepBlocked (step s closes).tracker (step s closes).agents
unfolding step close
close-AsleepBlocked s h = elim (Bool-cases s.tracker.closed) [
  | inl e ↦ rw e (closed-AsleepBlocked s.tracker _ s.agents e h)
  | inr e ↦ rw e (broadcast-AsleepBlocked _ s.agents)
]

release_wakes : (ct : Tracker) (r : String) → 0 < at r ct.counts → (release ct r).1 ≡ true
unfolding release
release_wakes ct r h = ground arith

step-AsleepBlocked :
    (s : System) (m : Move)
    → AllBalanced s
    → AsleepBlocked s.tracker s.agents
    → AsleepBlocked (step s m).tracker (step s m).agents
unfolding step
step-AsleepBlocked s (attempts i) b h = split (get_elem? s.agents i)
  where
    split : (o : Option Agent) → AsleepBlocked (attempt_at s i o).tracker (attempt_at s i o).agents
    split none = h
    split (some a) = elim (Bool-cases (may_attempt a.phase)) [
      | inr p ↦ rw p h
      | inl p ↦ rw p (
          AsleepBlocked-set s.tracker (acquire s.tracker a.role).0 s.agents i _
            (acquire-Blocked s.tracker a.role) (acquire_asleep s.tracker a.role) h)
    ]
step-AsleepBlocked s (releases i) b h = split (get_elem? s.agents i) refl
  where
    split :
        (o : Option Agent)
        → get_elem? s.agents i ≡ o
        → AsleepBlocked (release_at s i o).tracker (release_at s i o).agents
    split none e = h
    split (some a) e = elim (Bool-cases (is_holding a.phase)) [
      | inr p ↦ rw p h
      | inl p ↦ rw p (
          rw (release_wakes s.tracker a.role (has_count s i a e p (b a.role)))
            (broadcast-AsleepBlocked _ (set s.agents i (record a { phase = outside }))))
    ]
step-AsleepBlocked s closes b h = close-AsleepBlocked s h

run-AsleepBlocked :
    (s : System) (ms : List Move)
    → AllBalanced s
    → AsleepBlocked s.tracker s.agents
    → AsleepBlocked (run s ms).tracker (run s ms).agents
unfolding run
run-AsleepBlocked s [] b h = h
run-AsleepBlocked s (m ∷ ms) b h =
    run-AsleepBlocked (step s m) ms (step-Balanced s m b) (step-AsleepBlocked s m b h)

start-AsleepBlocked : (ct : Tracker) (roles : List String) → AsleepBlocked ct (map start roles)
start-AsleepBlocked ct [] = tt
start-AsleepBlocked ct (r ∷ rs) = (λ e. absurd (ground arith), start-AsleepBlocked ct rs)

AsleepBlocked-get :
    (ct : Tracker) (xs : List Agent) (i : ℕ) (a : Agent)
    → get_elem? xs i ≡ some a
    → a.phase ≡ waiting
    → AsleepBlocked ct xs
    → Blocked ct a.role
AsleepBlocked-get ct [] i a e w h = absurd (ground arith)
AsleepBlocked-get ct (x ∷ xs) zero a e w h = ground (arith, h.0)
AsleepBlocked-get ct (x ∷ xs) (suc i) a e w h = AsleepBlocked-get ct xs i a e w h.1

-- Under every schedule from a new tracker, an agent that sleeps in `Acquire` does so while the
-- tracker is open and its role is at its limit, so that an agent of its role holds a slot whose
-- release will wake it.
pub run-init_wakeup :
    (rcs : List (String × RoleConfig)) (roles : List String) (ms : List Move) (i : ℕ) (a : Agent)
    → get_elem? (run (init (new_concurrency_tracker rcs) roles) ms).agents i ≡ some a
    → a.phase ≡ waiting
    → let s = run (init (new_concurrency_tracker rcs) roles) ms in
      (s.tracker.closed ≡ false)
      × (at a.role s.tracker.limits ≤ holders a.role s.agents)
      × (0 < holders a.role s.agents)
run-init_wakeup rcs roles ms i a e w =
    let ct = new_concurrency_tracker rcs in
    let s0 = init ct roles in
    let b0 = init-Balanced ct roles (unfold new_concurrency_tracker in refl) in
    let h = run-AsleepBlocked s0 ms b0 (unfold init in start-AsleepBlocked ct roles) in
    let k = AsleepBlocked-get (run s0 ms).tracker (run s0 ms).agents i a e w h in
    let x = (run-Balanced s0 ms b0 a.role).exact in
    (k.still_open, omega (arith, x, k.full), omega (arith, x, k.full, k.limited))
