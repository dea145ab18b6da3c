-- ===== src/Supervise.antt =====
-- superviseAgent of internal/cli/daemon.go: one turn of an agent's supervisor, from the test for a
-- shutdown to the wait before the next turn. Recovery, events, checkpoints and pull requests, whose
-- errors are only logged, are left out.
mod Kept
pub mod GivesBack
use loomcli.Common.{◌&&◌, ℕ, Bool, true, false, Option, List, String, ℤ, str_eq, if◌then◌else◌}
use loomcli.AgentError.Classify.{GoPackages}
use loomcli.Config.{RestartPolicy, DaemonConfig}
use loomcli.Epics.{
  EpicInfo, Assignments, Assigned, epic, query_failed, assign_worktree, release_worktree, EpicAgent,
  World, Outcome, handle_epic_transition, epic_branch_name,
}
use loomcli.Restart.{
  AgentProcess, Verdict, retry_other_backend, restart_after_backoff, give_up,
  handle_restart_after_error, classify_agent_exit, after_exit,
}
use loomcli.Tracker.{Tracker, Attempt, acquired, refused, asleep, acquire, release}

-- What the supervisors share, and the agent of this one.
pub record Shared : Type 0 where
  pub tracker : Tracker
  pub epics : Assignments
  pub agent : AgentProcess

-- What a turn meets: the shutdown at each of its tests, the tracker and git before and after the
-- subprocess, whether it could be started and when, how it ended, the task its lock file names, the
-- log's tail, and the time of the restart decision.
pub record Events : Type 0 where
  pub shutdown_before : Bool
  pub open_epics : Option (List EpicInfo)
  pub has_ready : String → Option Bool
  pub ensure_branch : String → Bool
  pub spawned : Bool
  pub started : ℕ
  pub exit_code : ℤ
  pub task : String
  pub log : String
  pub after : World
  pub shutdown_after : Bool
  pub now : ℕ
  pub shutdown_in_backoff : Bool

-- `blocks`: the supervisor sleeps in Acquire.
pub data End : Type 0 where
  continues returns blocks : End

abbrev pub role_of : Shared → String
role_of s = s.agent.entry.role

abbrev pub worktree_of : Shared → String
worktree_of s = s.agent.entry.worktree

abbrev free_slot : Shared → Shared
free_slot s = record s { tracker = (release s.tracker (role_of s)).0 }

-- The deferred ReleaseWorktree.
return_from : Shared → Shared × End
return_from s = (record s { epics = release_worktree s.epics (worktree_of s) }, returns)

go_or_return : Shared → Bool → Shared × End
unfolding return_from
go_or_return s true = (s, continues)
go_or_return s false = return_from s

-- A branch or a subprocess that could not be set up.
setup_failed : RestartPolicy → Events → Shared → Shared × End
unfolding go_or_return
setup_failed rp e s =
    let s' = free_slot s in
    let (ap, again) = handle_restart_after_error rp s'.agent e.shutdown_in_backoff in
    go_or_return (record s' { agent = ap }) again

epic_agent : AgentProcess → EpicAgent
epic_agent ap = record {
  worktree = ap.entry.worktree;
  assigned_epic_id = ap.assigned_epic_id;
  restart_count = ap.restart_count;
}

-- Step 6.
transition : Events → Shared → Shared
unfolding epic_agent
transition e s =
    let o = handle_epic_transition e.after s.epics (epic_agent s.agent) in
    record s {
      epics = o.map;
      agent = record s.agent {
        assigned_epic_id = o.agent.assigned_epic_id;
        restart_count = o.agent.restart_count;
      };
    }

-- Steps 7.5 to 9.
decide : RestartPolicy → Events → Shared → Shared × End
unfolding go_or_return return_from
decide rp e s =
    let (ap, verdict) = after_exit rp s.agent e.now in
    let s' = record s { agent = ap } in
    elim verdict [
      | retry_other_backend ↦ (s', continues)
      | restart_after_backoff ↦ if e.shutdown_in_backoff then return_from s' else (s', continues)
      | give_up ↦ return_from s'
    ]

-- Steps 4 to 5.6.
classified : DaemonConfig → GoPackages → Events → Shared → Shared
classified dc go e s =
    let exited = record s.agent { last_start = e.started; last_exit_code = e.exit_code } in
    record s {
      agent = classify_agent_exit go dc exited e.exit_code e.task e.log;
      epics = release_worktree s.epics (worktree_of s);
    }

-- From the end of the subprocess.
after_wait : RestartPolicy → DaemonConfig → GoPackages → Events → Shared → Shared × End
unfolding transition decide return_from classified
after_wait rp dc go e s =
    let moved = transition e (free_slot (classified dc go e s)) in
    if e.shutdown_after then return_from moved else decide rp e moved

abbrev branch_of : String → String → String
branch_of worktree id = if str_eq id "" then worktree else epic_branch_name id

abbrev assigned_id : Assigned → String
assigned_id (epic id) = id
assigned_id query_failed = ""

-- From the slot to the subprocess.
with_slot :
    RestartPolicy
    → DaemonConfig
    → GoPackages
    → Events
    → Shared
    → Assignments × Assigned
    → Shared × End
unfolding setup_failed after_wait
with_slot rp dc go e s (epics, assigned) =
    let id = assigned_id assigned in
    let s' = record s { epics = epics; agent = record s.agent { assigned_epic_id = id } } in
    if e.ensure_branch (branch_of (worktree_of s) id) && e.spawned
    then after_wait rp dc go e s'
    else setup_failed rp e s'

after_acquire :
    RestartPolicy → DaemonConfig → GoPackages → Events → Shared → Tracker × Attempt → Shared × End
unfolding with_slot return_from
after_acquire rp dc go e s (ct, acquired) =
    with_slot rp dc go e (record s { tracker = ct })
      (assign_worktree e.open_epics e.has_ready s.epics (worktree_of s))
after_acquire rp dc go e s (ct, refused) = return_from s
after_acquire rp dc go e s (ct, asleep) = (s, blocks)

unfoldable pub turn : RestartPolicy → DaemonConfig → GoPackages → Events → Shared → Shared × End
unfolding after_acquire return_from
turn rp dc go e s =
    if e.shutdown_before
    then return_from s
    else after_acquire rp dc go e s (acquire s.tracker (role_of s))
