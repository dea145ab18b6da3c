-- ===== src/AgentLock.antt =====
-- internal/cli/lock.go: the file by which an agent locks its worktree. Each step below is one call of the
-- file system, so that whatever happens between two of them is another process's step. A process is its PID.
-- A file is what was written to it and who made it: a process writes through its handle, also when
-- the file is not at the path any more.
pub mod Alone
pub mod Dir
pub mod System
pub mod Exclusion
pub mod Stale
use loomcli.Common.{
  ℕ, zero, suc, Bool, true, false, Option, none, some, String, str_eq, ◌==◌, if◌then◌else◌,
}

pub record LockInfo : Type 0 where
  pub pid : ℕ
  pub command : String
  pub started_at : ℕ
  pub agent_name : String
  pub task_id : String
  pub task_title : String
  pub task_started_at : Option ℕ
  pub state : String
  pub workspace : String

-- A content that is not the JSON of a lock, such as that of a file just made, is `none`.
pub record LockFile : Type 0 where
  pub maker : ℕ
  pub content : Option LockInfo

pub data LockError : Type 0 where
  create_failed check_failed contention write_failed : LockError
  already_running : ℕ → LockError

pub data Update : Type 0 where
  set_task : String → String → ℕ → Update
  set_state : String → Update
  clear_task : Update

-- Where a process is. The number tells how many attempts of acquireLockRetry are left after this one,
-- the flag whether the process that updates holds the lock.
pub data Phase : Type 0 where
  outside holding release_checking releasing : Phase
  failed : LockError → Phase
  opening writing : LockInfo → Phase
  checking creating removing : LockInfo → ℕ → Phase
  reading : Bool → Update → Phase
  rewriting : Bool → LockInfo → Phase

pub data Checked : Type 0 where
  no_lock unreadable : Checked
  locked : LockInfo → Bool → Checked

abbrev pub retries : ℕ
retries = 3

abbrev pub new_lock : ℕ → String → String → ℕ → String → LockInfo
new_lock pid command agent_name now workspace = record {
  pid = pid;
  command = command;
  started_at = now;
  agent_name = agent_name;
  task_id = "";
  task_title = "";
  task_started_at = none;
  state = "";
  workspace = workspace;
}

abbrev checked_content : (ℕ → Bool) → Option LockInfo → Checked
checked_content alive none = no_lock
checked_content alive (some i) = locked i (alive i.pid)

-- CheckLock; the flag tells whether a file that exists can be read.
unfoldable pub check_lock : (ℕ → Bool) → Bool → Option LockFile → Checked
check_lock alive ok none = no_lock
check_lock alive false (some f) = unreadable
check_lock alive true (some f) = checked_content alive f.content

-- The end of an attempt.
abbrev pub next_attempt : LockInfo → ℕ → Phase
next_attempt i zero = failed contention
next_attempt i (suc k) = checking i k

-- os.OpenFile with O_EXCL; `taken` is the phase if the file exists.
unfoldable pub open_exclusive :
    ℕ → LockInfo → Phase → Bool → Option LockFile → Option LockFile × Phase
open_exclusive n i taken false f = (f, failed create_failed)
open_exclusive n i taken true none = (some (record { maker = n; content = none }), writing i)
open_exclusive n i taken true (some f) = (some f, taken)

unfoldable pub after_check : LockInfo → ℕ → Checked → Phase
after_check i k no_lock = creating i k
after_check i k unreadable = failed check_failed
after_check i k (locked j true) = failed (already_running j.pid)
after_check i k (locked j false) = removing i k

-- os.Remove, which may fail.
abbrev pub remove : Bool → Option LockFile → Option LockFile
remove true f = none
remove false f = f

-- The write through the handle, or, in one step with its failure, the removal of what is at the path.
unfoldable pub write_handle : ℕ → LockInfo → Bool → Option LockFile → Option LockFile × Phase
write_handle n i false f = (none, failed write_failed)
write_handle n i true none = (none, holding)
write_handle n i true (some f) =
    (some (if f.maker == n then record f { content = some i } else f), holding)

-- ReleaseLock's look at the lock.
unfoldable pub after_release_check : ℕ → Checked → Phase
after_release_check n no_lock = outside
after_release_check n unreadable = outside
after_release_check n (locked i alive) = if i.pid == n then releasing else outside

abbrev pub back : Bool → Phase
back true = holding
back false = outside

-- What an update makes of the lock of `i`, if it is the caller's; UpdateLockTask takes any.
unfoldable pub updated : ℕ → Update → LockInfo → Option LockInfo
updated n (set_task id title now) i =
    some (record i { task_id = id; task_title = title; task_started_at = some now })
updated n (set_state s) i = if i.pid == n then some (record i { state = s }) else none
updated n clear_task i =
    if i.pid == n
    then some (record i { task_id = ""; task_title = ""; task_started_at = none })
    else none

abbrev pub rewrite_or_end : Bool → Option LockInfo → Phase
rewrite_or_end h none = back h
rewrite_or_end h (some i) = rewriting h i

abbrev content_updated : ℕ → Bool → Update → Option LockInfo → Phase
content_updated n h u none = back h
content_updated n h u (some i) = rewrite_or_end h (updated n u i)

unfoldable pub after_read : ℕ → Bool → Update → Bool → Option LockFile → Phase
after_read n h u false f = back h
after_read n h u true none = back h
after_read n h u true (some f) = content_updated n h u f.content

-- os.WriteFile, which makes the file if there is none; its truncation and its write are one step.
unfoldable pub write_file : ℕ → LockInfo → Bool → Option LockFile → Option LockFile
write_file n i false f = f
write_file n i true none = some (record { maker = n; content = some i })
write_file n i true (some f) = some (record f { content = some i })

-- The next call of the file system by process `n`; the flag tells whether it works.
unfoldable pub advance : (ℕ → Bool) → ℕ → Bool → Option LockFile → Phase → Option LockFile × Phase
advance alive n ok f (opening i) = open_exclusive n i (next_attempt i retries) ok f
advance alive n ok f (checking i k) = (f, after_check i k (check_lock alive ok f))
advance alive n ok f (creating i k) = open_exclusive n i (next_attempt i k) ok f
advance alive n ok f (removing i k) = (remove ok f, creating i k)
advance alive n ok f (writing i) = write_handle n i ok f
advance alive n ok f release_checking = (f, after_release_check n (check_lock alive ok f))
advance alive n ok f releasing = (remove ok f, outside)
advance alive n ok f (reading h u) = (f, after_read n h u ok f)
advance alive n ok f (rewriting h i) = (write_file n i ok f, back h)
advance alive n ok f p = (f, p)

-- The calls of AcquireLock, ReleaseLock and the updates. Who does not hold the lock does not release it,
-- and who holds it does not ask for it.
pub data Call : Type 0 where
  acquire_lock : String → String → ℕ → String → Call
  release_lock : Call
  update : Update → Call

abbrev begun_outside : ℕ → Call → Phase
begun_outside n (acquire_lock command agent now workspace) =
    opening (new_lock n command agent now workspace)
begun_outside n (update u) = reading false u
begun_outside n release_lock = outside

abbrev begun_holding : Call → Phase
begun_holding (acquire_lock command agent now workspace) = holding
begun_holding (update u) = reading true u
begun_holding release_lock = release_checking

unfoldable pub begin : ℕ → Call → Phase → Phase
begin n c outside = begun_outside n c
begin n c (failed e) = begun_outside n c
begin n c holding = begun_holding c
begin n c p = p
