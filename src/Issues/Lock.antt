-- ===== src/Issues/Lock.antt =====
-- internal/types/lock.go, lock_check.go and process.go: the lock by which another program claims a
-- database. What the operating system and the JSON decoder answer is the argument `World`.
pub mod Safe
use loomcli.Common.{
  ℕ, String, Bool, true, false, ◌||◌, not, Option, none, some, ℤ, pos, leb_ℤ, str_eq, if◌then◌else◌,
}

-- `started_at` is none at the zero time.
pub record ExclusiveLock : Type 0 where
  pub holder : String
  pub pid : ℤ
  pub hostname : String
  pub started_at : Option ℤ
  pub version : String

pub data LockError : Type 0 where
  holder_required hostname_required started_at_required : LockError
  pid_not_positive : ℤ → LockError

started_error : Option ℤ → Option LockError
started_error none = some started_at_required
started_error (some t) = none

unfoldable pub validate : ExclusiveLock → Option LockError
unfolding started_error
validate e =
    if str_eq e.holder ""
    then some holder_required
    else if leb_ℤ e.pid (pos 0)
    then some (pid_not_positive e.pid)
    else if str_eq e.hostname ""
    then some hostname_required
    else started_error e.started_at

-- os.FindProcess, and what Signal(0) to the process gives: no error, an Errno that is ESRCH, or any
-- other error.
pub data Probe : Type 0 where
  not_found signalled no_such_process other_error : Probe

probe_alive : Probe → Bool
probe_alive not_found = false
probe_alive signalled = true
probe_alive no_such_process = false
probe_alive other_error = true

-- os.ReadFile: the bytes, or an error that says that the file is missing, or another.
pub data ReadFile : Type 0 where
  bytes : String → ReadFile
  not_exist read_error : ReadFile

pub record World : Type 0 where
  pub hostname : Option String
  pub equal_fold : String → String → Bool
  pub probe : ℤ → Probe
  pub read_lock : ReadFile
  pub unmarshal : String → Option ExclusiveLock
  pub can_remove : Bool

alive_on : World → Option String → ℤ → String → Bool
unfolding probe_alive
alive_on w none pid hostname = true
alive_on w (some here) pid hostname =
    if not (w.equal_fold hostname here) then true else probe_alive (w.probe pid)

unfoldable pub is_process_alive : World → ℤ → String → Bool
unfolding alive_on
is_process_alive w pid hostname = alive_on w w.hostname pid hostname

pub data SkipError : Type 0 where
  cannot_read malformed cannot_remove : SkipError
  invalid : LockError → SkipError

-- The results, and whether the lock file was removed.
pub record Check : Type 0 where
  pub skip : Bool
  pub holder : String
  pub error : Option SkipError
  pub removed : Bool

fail_safe : String → SkipError → Check
fail_safe holder e = record { skip = true; holder = holder; error = some e; removed = false }

abbrev proceed : String → Bool → Check
proceed holder removed = record { skip = false; holder = holder; error = none; removed = removed }

unfoldable pub held : World → ExclusiveLock → Option LockError → Check
unfolding fail_safe is_process_alive
held w lock (some e) = fail_safe "" (invalid e)
held w lock none =
    if not (is_process_alive w lock.pid lock.hostname)
    then if not w.can_remove then fail_safe lock.holder cannot_remove else proceed lock.holder true
    else record { skip = true; holder = lock.holder; error = none; removed = false }

unfoldable pub parsed : World → Option ExclusiveLock → Check
unfolding held validate fail_safe
parsed w none = fail_safe "" malformed
parsed w (some lock) = held w lock (validate lock)

unfoldable pub read : World → ReadFile → Check
unfolding parsed fail_safe
read w not_exist = proceed "" false
read w read_error = fail_safe "" cannot_read
read w (bytes content) = parsed w (w.unmarshal content)

unfoldable pub should_skip_database : World → Check
unfolding read
should_skip_database w = read w w.read_lock
