-- ===== src/Examples/Locks.antt =====
-- The lock of an agent, internal/cli/lock.go: an acquisition, a competition for it, and a stale one.
use loomcli.Common.{ℕ, ◌≡◌, refl, Bool, true, some, is_some, List, [], ◌∷◌, ◌==◌, not, arith}
use loomcli.AgentLock.{
  LockFile, holding, outside, acquire_lock, update, set_task, set_state, new_lock, begin, advance,
  open_exclusive, write_handle, after_check, check_lock, after_read, updated, write_file,
}
use loomcli.AgentLock.Alone.{advances, acquire_lock_alone}
use loomcli.AgentLock.System.{Move, calls, goes, step, run, is_owner, new_world}
use loomcli.AgentLock.Exclusion.{run-new_world_exclusive}
use loomcli.AgentLock.Stale.{overtaking, stale_lock_taken_twice}

-- Process 9 is dead.
abbrev alive : ℕ → Bool
alive n = not (n == 9)

abbrev stale : LockFile
stale = record { maker = 9; content = some (new_lock 9 "implement" "falcon" 500 "") }

acquire_lock_alone_example :
    advances alive 7 7 (some stale, begin 7 (acquire_lock "plan" "owl" 1000 "") outside)
    ≡ (some (record { maker = 7; content = some (new_lock 7 "plan" "owl" 1000 "") }), holding)
acquire_lock_alone_example = acquire_lock_alone alive 7 "plan" "owl" 1000 "" (some stale)

-- Process 7 gets the lock, 8 is told to wait, and the agent's own process 6 writes its task down.
abbrev moves : List (ℕ × Move)
moves =
    (7, calls (acquire_lock "plan" "owl" 1000 ""))
    ∷ (8, calls (acquire_lock "plan" "owl" 1001 ""))
    ∷ (7, goes true)
    ∷ (8, goes true)
    ∷ (7, goes true)
    ∷ (8, goes true)
    ∷ (6, calls (update (set_task "bd-1" "fix it" 1002)))
    ∷ (6, goes true)
    ∷ (6, goes true)
    ∷ (7, calls (update (set_state "idle")))
    ∷ (7, goes true)
    ∷ []

run-new_world_exclusive_example :
    (◌≡◌ {A = ℕ} 7 7) × (is_some (run alive new_world moves).file ≡ true)
unfolding step run is_owner begin advance open_exclusive write_handle after_check check_lock
    after_read updated write_file
run-new_world_exclusive_example =
    run-new_world_exclusive alive moves 7 7
      (refl, (refl, (refl, (refl, (refl, (refl, (refl, (refl, (refl, (refl, (refl, tt)))))))))))
      refl refl

stale_lock_taken_twice_example :
    let end =
      run alive
        (record { file = some stale; phase = λ n. outside })
        (overtaking 7 8 (acquire_lock "plan" "owl" 1000 "") (acquire_lock "plan" "owl" 1001 "")) in
    (end.phase 7 ≡ holding) × (end.phase 8 ≡ holding)
stale_lock_taken_twice_example =
    stale_lock_taken_twice alive (record { file = some stale; phase = λ n. outside })
      (new_lock 9 "implement" "falcon" 500 "") 7 8 9 1000 1001 "plan" "owl" "" (omega arith) refl
      refl refl refl
