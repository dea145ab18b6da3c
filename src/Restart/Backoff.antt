-- ===== src/Restart/Backoff.antt =====
-- The wait before a restart.
use Prim.Native.Nat.{min}
use native.Mathlib.Nat.{mul-le-mul_left, pow-le-pow_right}
use loomcli.Common.{
  ℕ, ◌*◌, ◌^◌, ◌%◌, ◌≤◌, ◌<◌, ◌≡◌, ap, ◌||◌, Option, none, some, ℤ, pos, negsuc, ltb, ltb_ℤ, ◌*64◌,
  *64_exact, wrap64, two63, if◌then◌else◌, ◌≤ℤ◌, arith, ◌⊎◌,
}
use loomcli.AgentError.{ErrorClass, AgentError, no_work, rate_limited, timeout}
use loomcli.AgentError.Classify.{second}
use loomcli.Config.{RestartPolicy}
use loomcli.Restart.{
  AgentProcess, exponential, seconds, hint, compute_backoff, backoff_by_class, backoff_by_error,
  get_backoff_initial, get_backoff_max, get_rate_limit_backoff, get_rate_limit_max_wait,
  get_timeout_backoff, get_no_work_backoff,
}

mul_two_pow_le : (i n : ℕ) → n ≤ 30 → i * 2 ^ n ≤ i * 2 ^ 30
mul_two_pow_le i n h = mul-le-mul_left i (pow-le-pow_right (omega arith) h)

shift_cap : (n : ℕ) → (if ltb 30 n then 30 else n) ≡ min n 30
shift_cap n = ground arith

capped :
    (i k m : ℕ)
    → i * k < two63
    → (let s = pos i *64 k in if ltb_ℤ (pos m) s || ltb_ℤ s (pos 0) then pos m else s)
      ≡ pos (min (i * k) m)
capped i k m h = rw (*64_exact i k h) (ground arith)

-- The exponential backoff without an overflow: for an initial backoff below 2 ^ 33 seconds it is
-- the smaller of initial * 2 ^ n, n being the retries or 30 if they are more, and the largest
-- backoff.
exponential_exact :
    (i n m : ℕ) → i < 2 ^ 33 → exponential (pos i) n (pos m) ≡ pos (min (i * 2 ^ min n 30) m)
unfolding exponential
exponential_exact i n m h =
    rw (shift_cap n)
      (capped i (2 ^ min n 30) m (omega (arith, mul_two_pow_le i (min n 30) (omega arith))))

-- Retrying more often never shortens the wait.
pub exponential_mono :
    (i n k m : ℕ)
    → i < 2 ^ 33
    → n ≤ k
    → exponential (pos i) n (pos m) ≤ℤ exponential (pos i) k (pos m)
exponential_mono i n k m h le =
    rw (exponential_exact i n m h, exponential_exact i k m h)
      (omega (
        arith,
        mul-le-mul_left i
            (pow-le-pow_right {n = 2} (omega arith) {i = min n 30} {j = min k 30} (omega arith)),
      ))

two_pow_30 : (i : ℕ) → (i * 2 ^ 34 * 2 ^ 30) % 18446744073709551616 ≡ 0
two_pow_30 i = omega arith

-- With an initial backoff that is a multiple of 2 ^ 34 seconds, which the checks of the policy let
-- pass, the 64-bit product after 30 retries is 0 and neither test catches it: there is no wait.
exponential_wraps : (i n m : ℕ) → 30 ≤ n → exponential (pos (i * 2 ^ 34)) n (pos m) ≡ pos 0
unfolding exponential wrap64 ◌*64◌
exponential_wraps i n m h = rw cap30 (ground (arith, two_pow_30 i))
  where
    cap30 : (if ltb 30 n then 30 else n) ≡ 30
    cap30 = ground arith

-- The bounds under which no product leaves 64 bits: initial values below 2 ^ 33 seconds and caps
-- below 2 ^ 33 seconds, none negative.
abbrev InSeconds : ℤ → Type 0
InSeconds v = (pos 0 ≤ℤ v) × (v ≤ℤ pos 8_589_934_591)

pub record IsBounded (rp : RestartPolicy) : Type 0 where
  pub initial : InSeconds (get_backoff_initial rp)
  pub largest : InSeconds (get_backoff_max rp)
  pub rate_initial : InSeconds (get_rate_limit_backoff rp)
  pub rate_largest : InSeconds (get_rate_limit_max_wait rp)
  pub timeout_initial : InSeconds (get_timeout_backoff rp)
  pub no_work_wait : InSeconds (get_no_work_backoff rp)

seconds_exact : (n : ℕ) → n ≤ 8_589_934_591 → seconds (pos n) ≡ pos (n * second)
unfolding seconds
seconds_exact n h = *64_exact n second (omega arith)

-- A wait that lies between 0 and a number of seconds.
abbrev Within : ℤ → ℤ → Type 0
Within w cap = (pos 0 ≤ℤ w) × (w ≤ℤ seconds cap)

seconds-Within : (v : ℤ) → InSeconds v → Within (seconds v) v
seconds-Within (pos n) h = rw (seconds_exact n (omega arith)) (omega arith)
seconds-Within (negsuc n) h = absurd (omega arith)

exponential-Within :
    (v m : ℤ) (n : ℕ) → InSeconds v → InSeconds m → Within (seconds (exponential v n m)) m
exponential-Within (negsuc i) m n h k = absurd (omega arith)
exponential-Within (pos i) (negsuc m) n h k = absurd (omega arith)
exponential-Within (pos i) (pos m) n h k =
    rw
      (
        exponential_exact i n m (omega arith),
        seconds_exact m (omega arith),
        seconds_exact (min (i * 2 ^ min n 30) m) (omega arith),
      )
      (omega arith)

hint-Within :
    (r w : ℤ) (m : ℤ)
    → Within w m
    → Within (hint r w (seconds m)) m
      × (w ≤ℤ hint r w (seconds m))
      × ((r ≤ℤ hint r w (seconds m)) ⊎ (seconds m ≤ℤ hint r w (seconds m)))
unfolding hint
hint-Within r w m h = ground arith

-- The cap in seconds of a wait.
abbrev pub cap_of_class : RestartPolicy → ErrorClass → ℤ
cap_of_class rp no_work = get_no_work_backoff rp
cap_of_class rp rate_limited = get_rate_limit_max_wait rp
cap_of_class rp _ = get_backoff_max rp

abbrev pub cap_of : RestartPolicy → Option AgentError → ℤ
cap_of rp none = get_backoff_max rp
cap_of rp (some e) = cap_of_class rp e.class

backoff_by_class-Within :
    (rp : RestartPolicy) (ap : AgentProcess) (c : ErrorClass) (r : ℤ)
    → IsBounded rp
    → Within (backoff_by_class rp ap c r) (cap_of_class rp c)
unfolding backoff_by_class
backoff_by_class-Within rp ap no_work r b = seconds-Within _ b.no_work_wait
backoff_by_class-Within rp ap rate_limited r b =
    (hint-Within r _ (get_rate_limit_max_wait rp)
      (exponential-Within _ _ ap.rate_retry_count b.rate_initial b.rate_largest)).0
backoff_by_class-Within rp ap timeout r b =
    exponential-Within _ _ ap.restart_count b.timeout_initial b.largest
backoff_by_class-Within rp ap _ r b = exponential-Within _ _ ap.restart_count b.initial b.largest

-- With a policy of non-negative seconds below 2 ^ 33, the wait is never negative and never longer
-- than the cap of the last error's class, whatever the counters and the server's hint are.
pub compute_backoff_within :
    (rp : RestartPolicy) (ap : AgentProcess)
    → IsBounded rp
    → (pos 0 ≤ℤ compute_backoff rp ap)
      × (compute_backoff rp ap ≤ℤ seconds (cap_of rp ap.last_error))
unfolding compute_backoff
compute_backoff_within rp ap b = split ap.last_error
  where
    split : (o : Option AgentError) → Within (backoff_by_error rp ap o) (cap_of rp o)
    split none = exponential-Within _ _ ap.restart_count b.initial b.largest
    split (some e) = backoff_by_class-Within rp ap e.class e.retry_after b

-- After a rate limit the wait is at least the server's hint, or else it is at least the cap.
pub compute_backoff_hint :
    (rp : RestartPolicy) (ap : AgentProcess) (e : AgentError)
    → IsBounded rp
    → ap.last_error ≡ some e
    → e.class ≡ rate_limited
    → (e.retry_after ≤ℤ compute_backoff rp ap)
      ⊎ (seconds (get_rate_limit_max_wait rp) ≤ℤ compute_backoff rp ap)
unfolding compute_backoff
compute_backoff_hint rp ap e b last limited =
    rw (last, backoff_by_error, limited, backoff_by_class)
      (hint-Within e.retry_after _ (get_rate_limit_max_wait rp)
        (exponential-Within _ _ ap.rate_retry_count b.rate_initial b.rate_largest)).2
