-- ===== src/Tracker/Limits.antt =====
-- The tracker counts the agents that hold a slot, and keeps each role within its limit.
use loomcli.Common.{
  ℕ, suc, ◌+◌, ◌-◌, ◌≤◌, ◌<◌, ◌≡◌, refl, ap, ◌∙◌, true, false, ◌&&◌, Option, none, some, List, [],
  ◌∷◌, String, str_eq, get_elem?, insert, lookup-insert, eq_iff, eq_refl, ◌↔◌, if◌then◌else◌,
  Bool-cases, inl, inr, ◌⊎◌, arith,
}
use loomcli.Tracker.{
  Tracker, acquired, at, new_concurrency_tracker, acquire, try_acquire, release, close,
}
use loomcli.Config.{RoleConfig}
use loomcli.Tracker.Configured.{configured_limit, limit_configured}
use loomcli.Tracker.System.{
  Agent, outside, System, Move, attempts, releases, closes, step, run, init, holders, holds,
  is_holding, one_if, set, after_attempt, may_attempt, attempt_by, release_by, attempt_at,
  release_at, holders-set, holders-broadcast, holders-start,
}

pub at-insert :
    (k j : String) (v : ℕ) (m : List (String × ℕ))
    → at j (insert k v m) ≡ (if str_eq k j then v else at j m)
at-insert k j v m = ground (arith, lookup-insert k j v m)

pub acquire-counts :
    (ct : Tracker) (r role : String)
    → at role (acquire ct r).0.counts
      ≡ at role ct.counts + one_if (str_eq r role && is_holding (after_attempt (acquire ct r).1))
unfolding acquire
acquire-counts ct r role =
    ground (arith, at-insert r role (suc (at r ct.counts)) ct.counts, eq_iff r role)

pub acquire-limits : (ct : Tracker) (r : String) → (acquire ct r).0.limits ≡ ct.limits
unfolding acquire
acquire-limits ct r = ground arith

pub release-counts :
    (ct : Tracker) (r role : String)
    → 0 < at r ct.counts
    → at role (release ct r).0.counts + one_if (str_eq r role) ≡ at role ct.counts
unfolding release
release-counts ct r role h =
    ground (arith, at-insert r role (at r ct.counts - 1) ct.counts, eq_iff r role)

pub release-limits : (ct : Tracker) (r : String) → (release ct r).0.limits ≡ ct.limits
unfolding release
release-limits ct r = ground arith

abbrev pub Within : Tracker → String → Type 0
Within ct role = (at role ct.limits ≡ 0) ⊎ (at role ct.counts ≤ at role ct.limits)

acquire-Within : (ct : Tracker) (r role : String) → Within ct role → Within (acquire ct r).0 role
unfolding acquire
acquire-Within ct r role h =
    ground (arith, at-insert r role (suc (at r ct.counts)) ct.counts, eq_iff r role)

release-Within : (ct : Tracker) (r role : String) → Within ct role → Within (release ct r).0 role
unfolding release
release-Within ct r role h = ground (
  arith,
  at-insert r role (at r ct.counts - 1) ct.counts,
  at-insert r role 0 ct.counts,
  eq_iff r role,
)

-- For one role: the count is the number of agents that hold a slot, and is within the limit.
pub record Balanced (s : System) (role : String) : Type 0 where
  pub exact : at role s.tracker.counts ≡ holders role s.agents
  pub within : Within s.tracker role

attempt_by-Balanced :
    (s : System) (role : String) (i : ℕ) (a : Agent)
    → get_elem? s.agents i ≡ some a
    → is_holding a.phase ≡ false
    → Balanced s role
    → Balanced (attempt_by s i a) role
attempt_by-Balanced s role i a e idle h = record {
  exact = ground (
    arith,
    acquire-counts s.tracker a.role role,
    holders-set role s.agents i a (record a { phase = after_attempt (acquire s.tracker a.role).1 })
        e,
    h.exact,
  );
  within = acquire-Within s.tracker a.role role h.within;
}

-- A role with an agent that holds a slot has a count to release.
pub has_count :
    (s : System) (i : ℕ) (a : Agent)
    → get_elem? s.agents i ≡ some a
    → is_holding a.phase ≡ true
    → Balanced s a.role
    → 0 < at a.role s.tracker.counts
has_count s i a e busy own =
    let b = record a { phase = outside } in
    let self : holds a.role a ≡ true = ground (arith, eq_refl a.role) in
    ground (arith, holders-set a.role s.agents i a b e, own.exact, self)

release_by-Balanced :
    (s : System) (role : String) (i : ℕ) (a : Agent)
    → get_elem? s.agents i ≡ some a
    → is_holding a.phase ≡ true
    → Balanced s a.role
    → Balanced s role
    → Balanced (release_by s i a) role
release_by-Balanced s role i a e busy own h =
    let b = record a { phase = outside } in
    let some_held = has_count s i a e busy own in
    record {
      exact = ground (
        arith,
        release-counts s.tracker a.role role some_held,
        holders-set role s.agents i a b e,
        holders-broadcast role (release s.tracker a.role).1 (set s.agents i b),
        h.exact,
      );
      within = release-Within s.tracker a.role role h.within;
    }

close-Balanced : (s : System) (role : String) → Balanced s role → Balanced (step s closes) role
unfolding step close
close-Balanced s role h = ground (arith, holders-broadcast role true s.agents)

-- Every role is balanced.
abbrev pub AllBalanced : System → Type 0
AllBalanced s = (role : String) → Balanced s role

pub step-Balanced : (s : System) (m : Move) → AllBalanced s → AllBalanced (step s m)
unfolding step
step-Balanced s (attempts i) h role = split (get_elem? s.agents i) refl
  where
    split : (o : Option Agent) → get_elem? s.agents i ≡ o → Balanced (attempt_at s i o) role
    split none e = h role
    split (some a) e = elim (Bool-cases (may_attempt a.phase)) [
      | inl p ↦ rw p (attempt_by-Balanced s role i a e (ground arith) (h role))
      | inr p ↦ rw p (h role)
    ]
step-Balanced s (releases i) h role = split (get_elem? s.agents i) refl
  where
    split : (o : Option Agent) → get_elem? s.agents i ≡ o → Balanced (release_at s i o) role
    split none e = h role
    split (some a) e = elim (Bool-cases (is_holding a.phase)) [
      | inl p ↦ rw p (release_by-Balanced s role i a e p (h a.role) (h role))
      | inr p ↦ rw p (h role)
    ]
step-Balanced s closes h role = close-Balanced s role (h role)

pub run-Balanced : (s : System) (ms : List Move) → AllBalanced s → AllBalanced (run s ms)
unfolding run
run-Balanced s [] h = h
run-Balanced s (m ∷ ms) h = run-Balanced (step s m) ms (step-Balanced s m h)

pub init-Balanced :
    (ct : Tracker) (roles : List String) → ct.counts ≡ [] → AllBalanced (init ct roles)
unfolding init
init-Balanced ct roles e role = ground (arith, holders-start role roles)

step-limits : (s : System) (m : Move) → (step s m).tracker.limits ≡ s.tracker.limits
unfolding step close
step-limits s (attempts i) = split (get_elem? s.agents i)
  where
    split : (o : Option Agent) → (attempt_at s i o).tracker.limits ≡ s.tracker.limits
    split none = refl
    split (some a) = ground (arith, acquire-limits s.tracker a.role)
step-limits s (releases i) = split (get_elem? s.agents i)
  where
    split : (o : Option Agent) → (release_at s i o).tracker.limits ≡ s.tracker.limits
    split none = refl
    split (some a) = ground (arith, release-limits s.tracker a.role)
step-limits s closes = ground arith

run-limits : (s : System) (ms : List Move) → (run s ms).tracker.limits ≡ s.tracker.limits
unfolding run
run-limits s [] = refl
run-limits s (m ∷ ms) = run-limits (step s m) ms ∙ step-limits s m

pub run-init-AllBalanced :
    (rcs : List (String × RoleConfig)) (roles : List String) (ms : List Move)
    → AllBalanced (run (init (new_concurrency_tracker rcs) roles) ms)
run-init-AllBalanced rcs roles ms =
    run-Balanced _ ms
      (init-Balanced (new_concurrency_tracker rcs) roles (unfold new_concurrency_tracker in refl))

-- From a new tracker, and under every schedule of the supervisors' steps and the shutdown, the
-- tracker's count of a role is the number of its agents that hold a slot, and a role with a limit
-- in the configuration never has more agents that hold one than that limit.
pub run-init_limits :
    (rcs : List (String × RoleConfig)) (roles : List String) (ms : List Move) (role : String)
    → let ct = new_concurrency_tracker rcs in
      let s = run (init ct roles) ms in
      (at role s.tracker.counts ≡ holders role s.agents)
      × ((configured_limit role rcs ≡ 0) ⊎ (holders role s.agents ≤ configured_limit role rcs))
run-init_limits rcs roles ms role =
    let ct = new_concurrency_tracker rcs in
    let h = run-init-AllBalanced rcs roles ms role in
    let same : (run (init ct roles) ms).tracker.limits ≡ ct.limits =
      run-limits (init ct roles) ms ∙ (unfold init in refl) in
    let e : at role (run (init ct roles) ms).tracker.limits ≡ configured_limit role rcs =
      ap (at role) same ∙ limit_configured role rcs in
    (h.exact, ground (arith, h.exact, h.within, e))

-- `TryAcquire` takes a slot exactly when `Acquire` would return true at once, and leaves the same
-- counts.
pub try_acquire-acquire :
    (ct : Tracker) (role : String)
    → (((try_acquire ct role).1 ≡ true) ↔ ((acquire ct role).1 ≡ acquired))
      × ((try_acquire ct role).0 ≡ (acquire ct role).0)
unfolding try_acquire acquire
try_acquire-acquire ct role = ground arith
