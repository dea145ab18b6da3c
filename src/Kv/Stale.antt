-- ===== src/Kv/Stale.antt =====
-- internal/kv/stale.go and reconcile.go: the detector of workers without a heartbeat. What bd answers is
-- the parameter `resets`; a cycle of the detector runs at one time, and the driver gives no error.
pub mod Late
use loomcli.Common.{
  ℕ, ◌+◌, ◌*◌, Bool, true, false, not, ◌&&◌, ◌||◌, Option, none, some, List, [], ◌∷◌, String,
  str_eq, lookup, length, has, if◌then◌else◌, is_some,
}
use loomcli.Kv.{Redis, get, ms}
use loomcli.Kv.Client.{
  Result, ok, err, KvError, get_stale_workers, get_worker_state, delete_task_owner_if_match,
  delete_worker_state, remove_active_worker,
}

pub record StaleDetectorConfig : Type 0 where
  pub stale_threshold : ℕ
  pub leader_ttl : ℕ
  pub leader_key : String

abbrev pub default_leader_key : String
default_leader_key = "loom:stale-detector:leader"

-- In milliseconds. The variables of the environment that override it are not set.
abbrev pub default_config : StaleDetectorConfig
default_config = record {
  stale_threshold = ms 300;
  leader_ttl = ms 30;
  leader_key = default_leader_key;
}

pub record StaleWorker : Type 0 where
  pub worker_id : String
  pub task_id : String
  pub task_title : String
  pub last_heartbeat : ℕ

pub record StaleDetectorStatus : Type 0 where
  pub is_leader : Bool
  pub last_check : ℕ
  pub stale_workers_found : ℕ
  pub tasks_reconciled : ℕ

pub record OrphanedTask : Type 0 where
  pub task : String
  pub title : String
  pub worker : String
  pub stale_since : ℕ

pub data ResetError : Type 0 where
  no_task bad_task update_failed : ResetError

abbrev pub is_shell_unsafe : String → Bool
is_shell_unsafe id =
    has ";" id
    || has "\n" id
    || has "\r" id
    || has "\t" id
    || has " " id
    || has "`" id
    || has "$" id
    || has "|" id
    || has "&" id

unfoldable pub reset_task : (String → Bool) → OrphanedTask → Option ResetError
reset_task resets o =
    if str_eq o.task ""
    then some no_task
    else if is_shell_unsafe o.task
    then some bad_task
    else if resets o.task
    then none
    else some update_failed

-- How many of them were reset.
abbrev pub reset_orphaned_tasks : (String → Bool) → List OrphanedTask → ℕ
reset_orphaned_tasks resets [] = 0
reset_orphaned_tasks resets (o ∷ os) =
    let n = reset_orphaned_tasks resets os in if is_some (reset_task resets o) then n else n + 1

-- A missing key of a Go map is the empty text.
abbrev pub or_missing : Option String → String
or_missing none = ""
or_missing (some v) = v

-- A missing leader key is nobody's.
abbrev pub is_held_by : Option String → String → Bool
is_held_by none id = false
is_held_by (some v) id = str_eq v id

module _ (r : Redis) where
  open r use {Server, set_nx, expire, del}

  unfoldable pub try_acquire_leadership : Server → ℕ → StaleDetectorConfig → String → Server × Bool
  try_acquire_leadership s now config id =
      let (s', acquired) = set_nx s now config.leader_key id config.leader_ttl in
      if acquired then (s', true) else (s', is_held_by (get r s' now config.leader_key) id)

  unfoldable pub renew_leadership : Server → ℕ → StaleDetectorConfig → Server
  renew_leadership s now config = expire s now config.leader_key config.leader_ttl

  unfoldable pub release_leadership : Server → ℕ → StaleDetectorConfig → String → Server
  release_leadership s now config id =
      if is_held_by (get r s now config.leader_key) id then del s config.leader_key else s

  abbrev pub described : Server → ℕ → List (String × ℕ) → List StaleWorker
  described s now [] = []
  described s now ((worker, at) ∷ zs) =
      let fields = get_worker_state r s now worker in
      record {
        worker_id = worker;
        task_id = or_missing (lookup "task_id" fields);
        task_title = or_missing (lookup "task_title" fields);
        last_heartbeat = at;
      }
      ∷ described s now zs

  unfoldable pub detect_stale_workers : Server → ℕ → StaleDetectorConfig → List StaleWorker
  detect_stale_workers s now config =
      described s now (get_stale_workers r s now config.stale_threshold)

  abbrev pub forget : Server → String → Server
  forget s worker = remove_active_worker r (delete_worker_state r s worker) worker

  abbrev pub forget_unless : Server × Result Bool → String → Server × Option KvError
  forget_unless (s, err e) worker = (s, some e)
  forget_unless (s, ok b) worker = (forget s worker, none)

  unfoldable pub cleanup_worker : Server → ℕ → StaleWorker → Server × Option KvError
  cleanup_worker s now w =
      if str_eq w.task_id ""
      then (forget s w.worker_id, none)
      else forget_unless (delete_task_owner_if_match r s now w.task_id w.worker_id) w.worker_id

  abbrev pub orphan_of : StaleWorker → Option KvError → List OrphanedTask → List OrphanedTask
  orphan_of w (some e) os = os
  orphan_of w none os =
      if str_eq w.task_id ""
      then os
      else record {
        task = w.task_id;
        title = w.task_title;
        worker = w.worker_id;
        stale_since = w.last_heartbeat;
      }
        ∷ os

  -- The loop over the stale workers, with the tasks whose workers were cleaned up.
  abbrev pub cleanup_all : Server → ℕ → List StaleWorker → Server × List OrphanedTask
  cleanup_all s now [] = (s, [])
  cleanup_all s now (w ∷ ws) =
      let (s', e) = cleanup_worker s now w in
      let (s'', os) = cleanup_all s' now ws in (s'', orphan_of w e os)

  abbrev pub reconciled :
      (String → Bool) → List OrphanedTask → StaleDetectorStatus → StaleDetectorStatus
  reconciled resets [] status = status
  reconciled resets (o ∷ os) status = record status {
    tasks_reconciled = reset_orphaned_tasks resets (o ∷ os);
  }

  abbrev pub checked : ℕ → List StaleWorker → StaleDetectorStatus → StaleDetectorStatus
  checked now ws status = record status { last_check = now; stale_workers_found = length ws }

  abbrev pub clean_cycle :
      Server
      → ℕ
      → StaleDetectorConfig
      → (String → Bool)
      → List StaleWorker
      → StaleDetectorStatus
      → Server × StaleDetectorStatus
  clean_cycle s now config resets [] status = (renew_leadership s now config, checked now [] status)
  clean_cycle s now config resets (w ∷ ws) status =
      let (s', orphaned) = cleanup_all s now (w ∷ ws) in
      (renew_leadership s' now config, reconciled resets orphaned (checked now (w ∷ ws) status))

  unfoldable pub run_cycle :
      Server
      → ℕ
      → StaleDetectorConfig
      → String
      → (String → Bool)
      → StaleDetectorStatus
      → Server × StaleDetectorStatus
  run_cycle s now config id resets status =
      let (s', leads) = try_acquire_leadership s now config id in
      if leads
      then clean_cycle s' now config resets (detect_stale_workers s' now config)
          (record status { is_leader = true })
      else (s', record status { is_leader = false })
