-- ===== src/Tracker/System.antt =====
-- The supervisors of internal/cli/daemon.go as they share one tracker: each acquires a slot for its
-- role, holds it while its subprocess runs, and releases it.
use loomcli.Common.{
  ℕ, zero, suc, ◌+◌, ◌≡◌, refl, Bool, true, false, ◌&&◌, Option, none, some, List, [], ◌∷◌, String,
  str_eq, get_elem?, map, if◌then◌else◌, count_of, arith,
}
use loomcli.Tracker.{Tracker, Attempt, acquired, refused, asleep, acquire, release, close}

-- `woken` has returned from `cond.Wait()` and tests its loop's condition again.
pub data Phase : Type 0 where
  outside waiting woken holding stopped : Phase

pub record Agent : Type 0 where
  pub role : String
  pub phase : Phase

pub record System : Type 0 where
  pub tracker : Tracker
  pub agents : List Agent

abbrev pub wake : Agent → Agent
wake a = elim a.phase [ waiting ↦ record a { phase = woken } | _ ↦ a ]

-- `cond.Broadcast()`
abbrev pub broadcast : Bool → List Agent → List Agent
broadcast true xs = map wake xs
broadcast false xs = xs

abbrev pub set : List Agent → ℕ → Agent → List Agent
set [] i b = []
set (a ∷ xs) zero b = b ∷ xs
set (a ∷ xs) (suc i) b = a ∷ set xs i b

-- What one supervisor or the daemon does next; the order is the schedule's.
pub data Move : Type 0 where
  attempts releases : ℕ → Move
  closes : Move

abbrev pub after_attempt : Attempt → Phase
after_attempt acquired = holding
after_attempt refused = stopped
after_attempt asleep = waiting

abbrev pub attempt_by : System → ℕ → Agent → System
attempt_by s i a =
    let (ct, result) = acquire s.tracker a.role in
    record { tracker = ct; agents = set s.agents i (record a { phase = after_attempt result }) }

abbrev pub release_by : System → ℕ → Agent → System
release_by s i a =
    let (ct, wakes) = release s.tracker a.role in
    record {
      tracker = ct;
      agents = broadcast wakes (set s.agents i (record a { phase = outside }));
    }

-- An agent that is asleep, has stopped or is in another phase does not make the move.
abbrev pub may_attempt : Phase → Bool
may_attempt outside = true
may_attempt woken = true
may_attempt _ = false

abbrev pub is_holding : Phase → Bool
is_holding holding = true
is_holding _ = false

abbrev pub attempt_at : System → ℕ → Option Agent → System
attempt_at s i none = s
attempt_at s i (some a) = if may_attempt a.phase then attempt_by s i a else s

abbrev pub release_at : System → ℕ → Option Agent → System
release_at s i none = s
release_at s i (some a) = if is_holding a.phase then release_by s i a else s

unfoldable pub step : System → Move → System
step s (attempts i) = attempt_at s i (get_elem? s.agents i)
step s (releases i) = release_at s i (get_elem? s.agents i)
step s closes =
    let (ct, wakes) = close s.tracker in record { tracker = ct; agents = broadcast wakes s.agents }

unfoldable pub run : System → List Move → System
run s [] = s
run s (m ∷ ms) = run (step s m) ms

abbrev pub start : String → Agent
start role = record { role = role; phase = outside }

unfoldable pub init : Tracker → List String → System
init ct roles = record { tracker = ct; agents = map start roles }

-- The agents of a role that hold a slot.
abbrev pub holds : String → Agent → Bool
holds role a = str_eq a.role role && is_holding a.phase

abbrev pub holders : String → List Agent → ℕ
holders role xs = count_of (holds role) xs

abbrev pub one_if : Bool → ℕ
one_if b = if b then 1 else 0

pub holders-set :
    (role : String) (xs : List Agent) (i : ℕ) (a b : Agent)
    → get_elem? xs i ≡ some a
    → holders role (set xs i b) + one_if (holds role a) ≡ holders role xs + one_if (holds role b)
holders-set role [] i a b h = absurd (ground arith)
holders-set role (x ∷ xs) zero a b h = ground arith
holders-set role (x ∷ xs) (suc i) a b h = ground (arith, holders-set role xs i a b)

pub holders-broadcast :
    (role : String) (wakes : Bool) (xs : List Agent)
    → holders role (broadcast wakes xs) ≡ holders role xs
holders-broadcast role false xs = refl
holders-broadcast role true [] = refl
holders-broadcast role true (x ∷ xs) = ground (arith, holders-broadcast role true xs)

pub holders-start : (role : String) (roles : List String) → holders role (map start roles) ≡ 0
holders-start role [] = refl
holders-start role (r ∷ rs) = ground (arith, holders-start role rs)
