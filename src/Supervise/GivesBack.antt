-- ===== src/Supervise/GivesBack.antt =====
-- internal/cli/daemon.go: a supervisor gives back what a turn of its loop took.
use loomcli.Common.{
  ◌≡◌, refl, sym, ap, ◌∙◌, ◌⊎◌, inl, inr, Bool, true, false, ◌&&◌, none, String, str_eq, lookup,
  lookup-remove, if◌then◌else◌, arith, Bool-cases,
}
use loomcli.AgentError.Classify.{GoPackages}
use loomcli.Config.{RestartPolicy, DaemonConfig, AgentEntry}
use loomcli.Epics.{Assignments, Assigned, assign_worktree, release_worktree}
use loomcli.Epics.Transition.{
  assign_worktree_others, handle_epic_transition_cases, lookup-release_worktree,
}
use loomcli.Restart.{
  Verdict, retry_other_backend, restart_after_backoff, give_up, handle_restart_after_error,
  after_exit,
}
use loomcli.Tracker.{Tracker, Attempt, at, acquired, refused, asleep, acquire}
use loomcli.Supervise.{
  Shared, Events, End, continues, returns, blocks, role_of, worktree_of, free_slot, return_from,
  go_or_return, setup_failed, epic_agent, transition, decide, classified, assigned_id, branch_of,
  after_wait, with_slot, after_acquire, turn,
}
use loomcli.Supervise.Kept.{
  after_exit-entry, classify_agent_exit-entry, acquire-release, Kept, at_start, Ended,
}

module _ (w v r : String) (ct : Tracker) (m : Assignments) (other : str_eq w v ≡ false) where
  Gives : Shared × End → Type 0
  Gives (s, e) = Kept w v r ct m s × Ended w (s, e)

  release_worktree-Kept :
      (s : Shared)
      → Kept w v r ct m s
      → Kept w v r ct m (record s { epics = release_worktree s.epics (worktree_of s) })
  unfolding release_worktree
  release_worktree-Kept s h = ground (arith, h, lookup-remove w v s.epics)

  return_from-Gives : (s : Shared) → Kept w v r ct m s → Gives (return_from s)
  unfolding Gives return_from
  return_from-Gives s h = (
    release_worktree-Kept s h,
    inr (refl, rw h.same_worktree (lookup-release_worktree s.epics w)),
  )

  go_or_return-Gives : (s : Shared) (b : Bool) → Kept w v r ct m s → Gives (go_or_return s b)
  unfolding Gives go_or_return
  go_or_return-Gives s true h = (h, inl refl)
  go_or_return-Gives s false h = return_from-Gives s h

  transition-Kept : (e : Events) (s : Shared) → Kept w v r ct m s → Kept w v r ct m (transition e s)
  unfolding transition epic_agent
  transition-Kept e s h =
      let others =
        (handle_epic_transition_cases e.after s.epics (epic_agent s.agent) v
          (ground (arith, h.same_worktree))).0 in
      record {
        same_worktree = h.same_worktree;
        counts = h.counts;
        limits = h.limits;
        others = others ∙ h.others;
      }

  decide-Gives :
      (rp : RestartPolicy) (e : Events) (s : Shared) → Kept w v r ct m s → Gives (decide rp e s)
  unfolding decide Gives
  decide-Gives rp e s h = split (after_exit rp s.agent e.now).1 (record {
    same_worktree =
        ap (λ (x : AgentEntry). x.worktree) (after_exit-entry rp s.agent e.now) ∙ h.same_worktree;
    counts = h.counts;
    limits = h.limits;
    others = h.others;
  })
    where
      s' : Shared
      s' = record s { agent = (after_exit rp s.agent e.now).0 }

      split :
          (d : Verdict)
          → Kept w v r ct m s'
          → Gives (elim d as (λ x. Shared × End) [
            | retry_other_backend ↦ (s', continues)
            | restart_after_backoff ↦
                if e.shutdown_in_backoff then return_from s' else (s', continues)
            | give_up ↦ return_from s'
          ])
      split retry_other_backend k = (k, inl refl)
      split restart_after_backoff k = elim (Bool-cases e.shutdown_in_backoff) [
        | inl b ↦ rw b (return_from-Gives s' k)
        | inr b ↦ rw b (k, inl refl)
      ]
      split give_up k = return_from-Gives s' k

  -- The supervisor of `a` has taken a slot and has not given it back.
  record HasSlot (a : AgentEntry) (s : Shared) : Type 0 where
    same_entry : s.agent.entry ≡ a
    in_use : s.tracker ≡ (acquire ct a.role).0
    untouched : lookup v s.epics ≡ lookup v m

  free_slot-Kept :
      (a : AgentEntry) (s : Shared)
      → a.worktree ≡ w
      → (acquire ct a.role).1 ≡ acquired
      → HasSlot a s
      → Kept w v r ct m (free_slot s)
  free_slot-Kept a s aw got h =
      let back = acquire-release ct a.role r got in
      record {
        same_worktree = ap (λ (x : AgentEntry). x.worktree) h.same_entry ∙ aw;
        counts = rw (h.in_use, h.same_entry) back.0;
        limits = rw (h.in_use, h.same_entry) back.1;
        others = h.untouched;
      }

  setup_failed-Gives :
      (rp : RestartPolicy) (e : Events) (a : AgentEntry) (s : Shared)
      → a.worktree ≡ w
      → (acquire ct a.role).1 ≡ acquired
      → HasSlot a s
      → Gives (setup_failed rp e s)
  unfolding setup_failed handle_restart_after_error
  setup_failed-Gives rp e a s aw got h =
      let k = free_slot-Kept a s aw got h in
      go_or_return-Gives _ _ (record {
        same_worktree = k.same_worktree;
        counts = k.counts;
        limits = k.limits;
        others = k.others;
      })

  classified-HasSlot :
      (dc : DaemonConfig) (go : GoPackages) (e : Events) (a : AgentEntry) (s : Shared)
      → a.worktree ≡ w
      → HasSlot a s
      → HasSlot a (classified dc go e s)
  unfolding classified release_worktree
  classified-HasSlot dc go e a s aw h = record {
    same_entry = classify_agent_exit-entry go dc _ e.exit_code e.task e.log ∙ h.same_entry;
    in_use = h.in_use;
    untouched = ground (arith, h, aw, lookup-remove w v s.epics);
  }

  after_wait-Gives :
      (rp : RestartPolicy) (dc : DaemonConfig) (go : GoPackages) (e : Events) (a : AgentEntry)
      (s : Shared)
      → a.worktree ≡ w
      → (acquire ct a.role).1 ≡ acquired
      → HasSlot a s
      → Gives (after_wait rp dc go e s)
  unfolding after_wait classified
  after_wait-Gives rp dc go e a s aw got h =
      let k =
        free_slot-Kept a (classified dc go e s) aw got (classified-HasSlot dc go e a s aw h) in
      let moved = transition-Kept e (free_slot (classified dc go e s)) k in
      elim (Bool-cases e.shutdown_after) [
        | inl b ↦ rw b (return_from-Gives _ moved)
        | inr b ↦ rw b (decide-Gives rp e _ moved)
      ]

  with_slot-Gives :
      (rp : RestartPolicy) (dc : DaemonConfig) (go : GoPackages) (e : Events) (s : Shared)
      (t : Assignments × Assigned)
      → worktree_of s ≡ w
      → (acquire ct (role_of s)).1 ≡ acquired
      → s.tracker ≡ (acquire ct (role_of s)).0
      → lookup v t.0 ≡ lookup v m
      → Gives (with_slot rp dc go e s t)
  unfolding with_slot
  with_slot-Gives rp dc go e s (epics, assigned) sw got taken kept =
      let a = s.agent.entry in
      let id = assigned_id assigned in
      let s' = record s { epics = epics; agent = record s.agent { assigned_epic_id = id } } in
      elim (Bool-cases (e.ensure_branch (branch_of (worktree_of s) id) && e.spawned)) [
        | inl b ↦ rw b (
            after_wait-Gives rp dc go e a s' sw got
              (record { same_entry = refl; in_use = taken; untouched = kept }))
        | inr b ↦ rw b (
            setup_failed-Gives rp e a s' sw got
              (record { same_entry = refl; in_use = taken; untouched = kept }))
      ]

-- What a turn from `s` comes to.
Outcome : String → String → Shared → Shared × End → Type 0
Outcome v r s (s', end) =
    ((end ≡ blocks) × (s' ≡ s))
    ⊎ (at r s'.tracker.counts ≡ at r s.tracker.counts)
      × (s'.tracker.limits ≡ s.tracker.limits)
      × (lookup v s'.epics ≡ lookup v s.epics)
      × ((end ≡ continues) ⊎ ((end ≡ returns) × (lookup (worktree_of s) s'.epics ≡ none)))

Gives-Outcome :
    (v r : String) (s : Shared) (other : str_eq (worktree_of s) v ≡ false) (t : Shared × End)
    → Gives (worktree_of s) v r s.tracker s.epics other t
    → Outcome v r s t
unfolding Gives Outcome
Gives-Outcome v r s other (s', end) (k, ended) = inr (k.counts, k.limits, k.others, ended)

after_acquire-Outcome :
    (rp : RestartPolicy) (dc : DaemonConfig) (go : GoPackages) (e : Events) (s : Shared)
    (v r : String) (t : Tracker × Attempt)
    → acquire s.tracker (role_of s) ≡ t
    → str_eq (worktree_of s) v ≡ false
    → Outcome v r s (after_acquire rp dc go e s t)
unfolding after_acquire
after_acquire-Outcome rp dc go e s v r (ct, acquired) q other = Gives-Outcome v r s other _ (
    with_slot-Gives (worktree_of s) v r s.tracker s.epics other rp dc go e
      (record s { tracker = ct }) (assign_worktree e.open_epics e.has_ready s.epics (worktree_of s))
      refl (ap (λ (x : Tracker × Attempt). x.1) q) (sym (ap (λ (x : Tracker × Attempt). x.0) q))
      (assign_worktree_others e.open_epics e.has_ready s.epics (worktree_of s) v other))
after_acquire-Outcome rp dc go e s v r (ct, refused) q other =
    Gives-Outcome v r s other _
      (return_from-Gives (worktree_of s) v r s.tracker s.epics other s (at_start s v r))
after_acquire-Outcome rp dc go e s v r (ct, asleep) q other = unfold Outcome in inl (refl, refl)

-- A turn of one supervisor, taken with no other moving in between, either blocks for a slot and
-- changes nothing, or gives the slot back on every path: every role's count and limit are as before,
-- and the epic of another worktree `v` is. If the supervisor returns, its worktree has no epic.
pub turn_gives_back :
    (rp : RestartPolicy) (dc : DaemonConfig) (go : GoPackages) (e : Events) (s : Shared)
    (v r : String)
    → str_eq (worktree_of s) v ≡ false
    → let (s', end) = turn rp dc go e s in
      ((end ≡ blocks) × (s' ≡ s))
      ⊎ (at r s'.tracker.counts ≡ at r s.tracker.counts)
        × (s'.tracker.limits ≡ s.tracker.limits)
        × (lookup v s'.epics ≡ lookup v s.epics)
        × ((end ≡ continues) ⊎ ((end ≡ returns) × (lookup (worktree_of s) s'.epics ≡ none)))
unfolding turn Outcome
turn_gives_back rp dc go e s v r other = tested e.shutdown_before
  where
    tested :
        (b : Bool)
        → Outcome v r s (
            if b then return_from s else after_acquire rp dc go e s (acquire s.tracker (role_of s)))
    tested true =
        Gives-Outcome v r s other _
          (return_from-Gives (worktree_of s) v r s.tracker s.epics other s (at_start s v r))
    tested false = after_acquire-Outcome rp dc go e s v r (acquire s.tracker (role_of s)) refl other
