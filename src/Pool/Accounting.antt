-- ===== src/Pool/Accounting.antt =====
-- internal/webui/daemon/pool.go: what the pool's counters count.
use loomcli.Common.{
  ℕ, zero, suc, ◌+◌, ◌≤◌, ◌≡◌, Bool, true, false, some, List, [], ◌∷◌, String, ℤ, get_elem?, arith,
  refl, Option-cases, inl, inr, ◌⊎◌,
}
use loomcli.Pool.{
  Pool, Phase, outside, dialing, holding, returning, overflowing, panicked, starting, checked,
  empty, waiting, received, get, check_closed, poll, validate, reserve, dial, wait, put, send,
  overflow, discard, receive, new_connection_pool,
}
use loomcli.Pool.System.{
  System, Move, moves, closes, closes_channel, drains, Answer, advance, set_phase, move_at, step,
  run, init,
}

-- A connection that the goroutine has and that is counted as created.
abbrev pub owns : Phase → ℕ
owns dialing = 1
owns holding = 1
owns returning = 1
owns overflowing = 1
owns (received n) = 1
owns _ = 0

-- A connection that is counted as active.
abbrev pub uses : Phase → ℕ
uses dialing = 1
uses holding = 1
uses _ = 0

abbrev pub has_panicked : Phase → ℕ
has_panicked panicked = 1
has_panicked _ = 0

abbrev pub total : (Phase → ℕ) → List Phase → ℕ
total w [] = 0
total w (x ∷ xs) = w x + total w xs

total-set_phase :
    (w : Phase → ℕ) (xs : List Phase) (i : ℕ) (a b : Phase)
    → get_elem? xs i ≡ some a
    → total w (set_phase xs i b) + w a ≡ total w xs + w b
total-set_phase w [] i a b h = absurd (ground arith)
total-set_phase w (x ∷ xs) zero a b h = ground arith
total-set_phase w (x ∷ xs) (suc i) a b h = ground (arith, total-set_phase w xs i a b)

-- What holds of a pool and the totals of its goroutines' connections, uses and panics.
record Accounts (p : Pool) (closing : Bool) (owned used panics : ℕ) : Type 0 where
  within : p.created_count ≤ p.size
  covered : p.available + owned ≤ p.created_count
  used_counted : used ≤ p.active_count
  exact :
      (p.closed ≡ true)
      ⊎ ((p.created_count ≡ p.available + owned) × (p.active_count ≡ used) × (panics ≡ 0))
  channel_after : (p.closed ≡ true) ⊎ ((p.channel_closed ≡ false) × (closing ≡ false))

abbrev IsAccounted : System → Type 0
IsAccounted s =
    Accounts s.pool s.closing (total owns s.phases) (total uses s.phases)
      (total has_panicked s.phases)

-- One goroutine's move, the others having `o`, `u` and `k`.
advance-Accounts :
    (p : Pool) (c : Bool) (a : Answer) (ph : Phase) (o u k : ℕ)
    → Accounts p c (o + owns ph) (u + uses ph) (k + has_panicked ph)
    → let (p', next) = advance p a ph in
      Accounts p' c (o + owns next) (u + uses next) (k + has_panicked next)
unfolding get check_closed poll receive validate reserve dial wait put send overflow discard
advance-Accounts p c a outside o u k h = ground arith
advance-Accounts p c a (starting n) o u k h = ground arith
advance-Accounts p c a (checked n) o u k h = ground arith
advance-Accounts p c a (received zero) o u k h = ground arith
advance-Accounts p c a (received (suc zero)) o u k h = ground arith
advance-Accounts p c a (received (suc (suc n))) o u k h = ground arith
advance-Accounts p c a (empty n) o u k h = ground arith
advance-Accounts p c a dialing o u k h = ground arith
advance-Accounts p c a (waiting n) o u k h = ground arith
advance-Accounts p c a holding o u k h = ground arith
advance-Accounts p c a returning o u k h = ground arith
advance-Accounts p c a overflowing o u k h = ground arith
advance-Accounts p c a panicked o u k h = h

Accounts-cong :
    (p : Pool) (c : Bool) (o o' u u' k k' : ℕ)
    → o ≡ o'
    → u ≡ u'
    → k ≡ k'
    → Accounts p c o u k
    → Accounts p c o' u' k'
Accounts-cong p c o o' u u' k k' eo eu ek h = ground (arith, h)

total-rest :
    (w : Phase → ℕ) (xs : List Phase) (i : ℕ) (a : Phase)
    → w outside ≡ 0
    → get_elem? xs i ≡ some a
    → total w xs ≡ total w (set_phase xs i outside) + w a
total-rest w xs i a z h = ground (arith, total-set_phase w xs i a outside h)

total-next :
    (w : Phase → ℕ) (xs : List Phase) (i : ℕ) (a b : Phase)
    → w outside ≡ 0
    → get_elem? xs i ≡ some a
    → total w (set_phase xs i outside) + w b ≡ total w (set_phase xs i b)
total-next w xs i a b z h =
    ground (arith, total-set_phase w xs i a outside h, total-set_phase w xs i a b h)

move_at-IsAccounted :
    (s : System) (i : ℕ) (a : Answer) (ph : Phase)
    → get_elem? s.phases i ≡ some ph
    → IsAccounted s
    → IsAccounted (move_at s i a (some ph))
move_at-IsAccounted s i a ph e h =
    let next = (advance s.pool a ph).1 in
    let r = λ (w : Phase → ℕ). total w (set_phase s.phases i outside) in
    Accounts-cong _ _ _ _ _ _ _ _ (total-next owns s.phases i ph next refl e)
      (total-next uses s.phases i ph next refl e)
      (total-next has_panicked s.phases i ph next refl e)
      (advance-Accounts s.pool s.closing a ph (r owns) (r uses) (r has_panicked) (
        Accounts-cong _ _ _ _ _ _ _ _ (total-rest owns s.phases i ph refl e)
          (total-rest uses s.phases i ph refl e) (total-rest has_panicked s.phases i ph refl e) h))

step-IsAccounted : (s : System) (m : Move) → IsAccounted s → IsAccounted (step s m)
unfolding step
step-IsAccounted s (moves i a) h = elim (Option-cases (get_elem? s.phases i)) [
  | inl e ↦ rw e h
  | inr (ph, e) ↦ rw e (move_at-IsAccounted s i a ph e h)
]
step-IsAccounted s closes h = ground arith
step-IsAccounted s closes_channel h = ground arith
step-IsAccounted s drains h = ground arith

run-IsAccounted : (s : System) (ms : List Move) → IsAccounted s → IsAccounted (run s ms)
unfolding run
run-IsAccounted s [] h = h
run-IsAccounted s (m ∷ ms) h = run-IsAccounted (step s m) ms (step-IsAccounted s m h)

total-idle : (w : Phase → ℕ) (p : Pool) (n : ℕ) → w outside ≡ 0 → total w (init p n).phases ≡ 0
unfolding init
total-idle w p zero z = refl
total-idle w p (suc n) z = ground (arith, total-idle w p n z)

record IsNew (p : Pool) : Type 0 where
  none_available : p.available ≡ 0
  none_created : p.created_count ≡ 0
  none_active : p.active_count ≡ 0
  still_open : p.channel_closed ≡ false

new_connection_pool-IsNew :
    (path : String) (size : ℤ) (p : Pool) → new_connection_pool path size ≡ some p → IsNew p
unfolding new_connection_pool
new_connection_pool-IsNew path size p h = ground arith

init-IsAccounted : (p : Pool) (n : ℕ) → IsNew p → IsAccounted (init p n)
init-IsAccounted p n h =
    Accounts-cong _ _ _ _ _ _ _ _ (zero_total owns refl) (zero_total uses refl)
      (zero_total has_panicked refl) (unfold init in ground (arith, h))
  where
    zero_total : (w : Phase → ℕ) → w outside ≡ 0 → 0 ≡ total w (init p n).phases
    zero_total w z = ground (arith, total-idle w p n z)

-- From a new pool, under every schedule of the goroutines' steps and of Close, and whatever pings,
-- dials and timers give: the connections in the channel and those that goroutines have are together
-- at most those counted as created, which are at most the pool's size. Until the pool is closed both
-- counters are exact and no goroutine has panicked.
pub run-init_accounts :
    (path : String) (size : ℤ) (p : Pool) (n : ℕ) (ms : List Move)
    → new_connection_pool path size ≡ some p
    → let s = run (init p n) ms in
      (s.pool.available + total owns s.phases ≤ s.pool.created_count)
      × (s.pool.created_count ≤ s.pool.size)
      × ((s.pool.closed ≡ true)
          ⊎ (s.pool.created_count ≡ s.pool.available + total owns s.phases)
            × (s.pool.active_count ≡ total uses s.phases)
            × (total has_panicked s.phases ≡ 0))
run-init_accounts path size p n ms h =
    let a =
      run-IsAccounted (init p n) ms
        (init-IsAccounted p n (new_connection_pool-IsNew path size p h)) in
    (a.covered, a.within, a.exact)
