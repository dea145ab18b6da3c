-- ===== src/Supervise/Kept.antt =====
-- internal/cli/daemon.go: what the steps of a turn leave as it was.
use loomcli.Common.{ℕ, ◌≡◌, refl, ◌∙◌, ◌⊎◌, none, String, ℤ, eq_iff, lookup, arith}
use loomcli.AgentError.Classify.{GoPackages}
use loomcli.Config.{RestartPolicy, DaemonConfig}
use loomcli.Epics.{Assignments}
use loomcli.Restart.{
  AgentProcess, classify_agent_exit, after_exit, should_restart, try_fallback_backend,
}
use loomcli.Tracker.{Tracker, at, acquired, acquire, release}
use loomcli.Tracker.Limits.{acquire-counts, acquire-limits, release-counts, release-limits}
use loomcli.Supervise.{Shared, End, continues, returns, worktree_of}

pub after_exit-entry :
    (rp : RestartPolicy) (p : AgentProcess) (now : ℕ) → (after_exit rp p now).0.entry ≡ p.entry
unfolding after_exit should_restart try_fallback_backend
after_exit-entry rp p now = ground arith

pub classify_agent_exit-entry :
    (go : GoPackages) (dc : DaemonConfig) (p : AgentProcess) (c : ℤ) (task log : String)
    → (classify_agent_exit go dc p c task log).entry ≡ p.entry
unfolding classify_agent_exit
classify_agent_exit-entry go dc p c task log = ground arith

pub acquire-release :
    (ct : Tracker) (role r : String)
    → (acquire ct role).1 ≡ acquired
    → (at r (release (acquire ct role).0 role).0.counts ≡ at r ct.counts)
      × ((release (acquire ct role).0 role).0.limits ≡ ct.limits)
acquire-release ct role r h =
    let taken = acquire-counts ct role r in
    let own = acquire-counts ct role role in
    let back = release-counts (acquire ct role).0 role r in
    (
      ground (arith, h, taken, own, back, eq_iff role role),
      release-limits (acquire ct role).0 role ∙ acquire-limits ct role,
    )

-- What a turn leaves of the role `r`'s count and of the epic of another worktree `v`, against the
-- tracker `ct` and the epics `m` before it, for the worktree `w`.
pub record Kept (w v r : String) (ct : Tracker) (m : Assignments) (s : Shared) : Type 0 where
  pub same_worktree : worktree_of s ≡ w
  pub counts : at r s.tracker.counts ≡ at r ct.counts
  pub limits : s.tracker.limits ≡ ct.limits
  pub others : lookup v s.epics ≡ lookup v m

pub at_start : (s : Shared) (v r : String) → Kept (worktree_of s) v r s.tracker s.epics s
at_start s v r = record { same_worktree = refl; counts = refl; limits = refl; others = refl }

-- A turn that returns leaves no epic for its worktree.
abbrev pub Ended : String → Shared × End → Type 0
Ended w (s, e) = (e ≡ continues) ⊎ ((e ≡ returns) × (lookup w s.epics ≡ none))
