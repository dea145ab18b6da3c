-- ===== src/AgentLock/Alone.antt =====
-- AcquireLock of internal/cli/lock.go with nobody in between.
use loomcli.Common.{
  ℕ, zero, suc, ◌≡◌, refl, Bool, true, Option, none, some, String, arith, if◌then◌else◌, Bool-cases,
  inl, inr,
}
use loomcli.AgentLock.{
  LockInfo, LockFile, Phase, outside, holding, failed, contention, already_running, new_lock,
  acquire_lock, open_exclusive, after_check, check_lock, write_handle, advance, begin,
}

-- Calls that all work.
pub advances : (ℕ → Bool) → ℕ → ℕ → Option LockFile × Phase → Option LockFile × Phase
advances alive n zero s = s
advances alive n (suc k) (f, p) = advances alive n k (advance alive n true f p)

-- A lock that is read is refused or taken over as its process lives or not; a file that is no lock stays.
abbrev taken_over : (ℕ → Bool) → ℕ → LockInfo → LockFile → Option LockInfo → Option LockFile × Phase
taken_over alive n i f none = (some f, failed contention)
taken_over alive n i f (some j) =
    if alive j.pid
    then (some f, failed (already_running j.pid))
    else (some (record { maker = n; content = some i }), holding)

abbrev pub acquired : (ℕ → Bool) → ℕ → LockInfo → Option LockFile → Option LockFile × Phase
acquired alive n i none = (some (record { maker = n; content = some i }), holding)
acquired alive n i (some f) = taken_over alive n i f f.content

-- An acquisition that nobody disturbs, and whose calls of the file system all work, ends after at most
-- seven calls. It gets the lock if there is no
-- file or the file names a process that does not run. It is refused if the process runs, and gives up
-- after its attempts, leaving the file, if the file cannot be read as a lock.
pub acquire_lock_alone :
    (alive : ℕ → Bool) (n : ℕ) (command agent : String) (now : ℕ) (workspace : String)
    (f : Option LockFile)
    → advances alive n 7 (f, begin n (acquire_lock command agent now workspace) outside)
      ≡ acquired alive n (new_lock n command agent now workspace) f
unfolding advances advance begin open_exclusive after_check check_lock write_handle
acquire_lock_alone alive n command agent now workspace none = ground arith
acquire_lock_alone alive n command agent now workspace (some f) = content f.content refl
  where
    content :
        (o : Option LockInfo)
        → f.content ≡ o
        → advances alive n 7 (some f, begin n (acquire_lock command agent now workspace) outside)
          ≡ taken_over alive n (new_lock n command agent now workspace) f o
    content none e = rw e refl
    content (some j) e = elim (Bool-cases (alive j.pid)) [
      | inl a ↦ rw (e, a) refl
      | inr a ↦ ground arith
    ]
