-- ===== src/AgentLock/Stale.antt =====
-- Two processes that find the lock of a dead one, in internal/cli/lock.go.
use loomcli.Common.{ℕ, ◌≡◌, ◌≢◌, Bool, true, false, some, String, List, [], ◌∷◌, arith}
use loomcli.AgentLock.{
  LockInfo, outside, holding, acquire_lock, Call, open_exclusive, after_check, check_lock,
  write_handle, advance, begin,
}
use loomcli.AgentLock.System.{World, Move, calls, goes, step, run}

-- Both find the old lock; the first replaces it, and the second removes what the first has made.
abbrev pub overtaking : ℕ → ℕ → Call → Call → List (ℕ × Move)
overtaking a b c d =
    (a, calls c)
    ∷ (b, calls d)
    ∷ (a, goes true)
    ∷ (b, goes true)
    ∷ (a, goes true)
    ∷ (b, goes true)
    ∷ (a, goes true)
    ∷ (a, goes true)
    ∷ (a, goes true)
    ∷ (b, goes true)
    ∷ (b, goes true)
    ∷ (b, goes true)
    ∷ []

-- If the file is the lock of a process that is dead, two others can acquire it both.
pub stale_lock_taken_twice :
    (alive : ℕ → Bool) (w : World) (i : LockInfo) (a b maker now later : ℕ)
    (command agent workspace : String)
    → a ≢ b
    → alive i.pid ≡ false
    → w.file ≡ some (record { maker = maker; content = some i })
    → w.phase a ≡ outside
    → w.phase b ≡ outside
    → let end = run alive w (
        overtaking a b
          (acquire_lock command agent now workspace)
          (acquire_lock command agent later workspace)) in
      (end.phase a ≡ holding) × (end.phase b ≡ holding)
unfolding step run begin advance open_exclusive after_check check_lock write_handle
stale_lock_taken_twice alive w i a b maker now later command agent workspace ne dead f p q =
    ground arith
