-- ===== src/Tracker.antt =====
-- internal/cli/concurrency.go: the per-role limits on running agents. A method holds the mutex from
-- its first to its last line, so it is one function; `Acquire` is cut at `cond.Wait()`, where it
-- lets the mutex go and is called again when it has been woken.
pub mod System
pub mod Configured
pub mod Limits
pub mod Wakeup
use loomcli.Common.{
  ℕ, zero, suc, ◌-◌, Bool, true, false, Option, none, some, List, [], ◌∷◌, String, ℤ, pos, leb, ltb,
  ◌==◌, if◌then◌else◌, lookup, insert,
}
use loomcli.Config.{RoleConfig}

pub record Tracker : Type 0 where
  pub counts : List (String × ℕ)
  pub limits : List (String × ℕ)
  pub closed : Bool

-- `m[k]` of a map to int.
abbrev pub at : String → List (String × ℕ) → ℕ
at k m = elim (lookup k m) [ none ↦ 0 | some n ↦ n ]

add_limit : String → Option ℤ → List (String × ℕ) → List (String × ℕ)
add_limit name (some (pos (suc n))) limits = insert name (suc n) limits
add_limit name _ limits = limits

limits_of : List (String × ℕ) → List (String × RoleConfig) → List (String × ℕ)
limits_of limits [] = limits
limits_of limits ((name, rc) ∷ rs) = limits_of (add_limit name rc.max_concurrency limits) rs

unfoldable pub new_concurrency_tracker : List (String × RoleConfig) → Tracker
unfolding limits_of add_limit
new_concurrency_tracker roles = record { counts = []; limits = limits_of [] roles; closed = false }

-- Returned true, returned false, or asleep in `cond.Wait()`.
pub data Attempt : Type 0 where
  acquired refused asleep : Attempt

abbrev count_up : Tracker → String → Tracker
count_up ct role = record ct { counts = insert role (suc (at role ct.counts)) ct.counts }

unfoldable pub acquire : Tracker → String → Tracker × Attempt
acquire ct role =
    if at role ct.limits == 0
    then if ct.closed then (ct, refused) else (count_up ct role, acquired)
    else if ct.closed
    then (ct, refused)
    else if leb (at role ct.limits) (at role ct.counts)
    then (ct, asleep)
    else (count_up ct role, acquired)

unfoldable pub try_acquire : Tracker → String → Tracker × Bool
try_acquire ct role =
    if ct.closed
    then (ct, false)
    else if at role ct.limits == 0
    then (count_up ct role, true)
    else if leb (at role ct.limits) (at role ct.counts)
    then (ct, false)
    else (count_up ct role, true)

-- The second component says whether the waiters are woken.
unfoldable pub release : Tracker → String → Tracker × Bool
release ct role =
    if leb (at role ct.counts) 0
    then (record ct { counts = insert role 0 ct.counts }, false)
    else (record ct { counts = insert role (at role ct.counts - 1) ct.counts }, true)

pub active_count : Tracker → String → ℕ
active_count ct role = at role ct.counts

pub counts_copy : Tracker → List (String × ℕ)
counts_copy ct = ct.counts

unfoldable pub close : Tracker → Tracker × Bool
close ct = if ct.closed then (ct, false) else (record ct { closed = true }, true)
