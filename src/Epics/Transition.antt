-- ===== src/Epics/Transition.antt =====
-- internal/cli/daemon_epic.go: what a transition to another epic leaves behind.
use mathlib.Core.Path.{◌≡◌, refl, ◌∙◌}
use mathlib.Core.Logic.{◌⊎◌, inl, inr}
use native.Mathlib.Omega.{arith}
use text.Mathlib.TextEquality.{eq_iff}
use loomcli.Common.{
  Bool, true, false, ◌||◌, not, Option, none, some, List, String, str_eq, keep, lookup, first?,
  sort_by, Bool-cases, Option-cases, lookup-insert, lookup-remove,
}
use loomcli.Epics.{
  EpicInfo, Assignments, Assigned, epic, query_failed, candidate, ranks_before, choose, assign_from,
  assign_worktree, release_worktree, get_assignment, World, EpicAgent, Outcome, exhausted, move_on,
  handle_epic_transition, switch_to_non_epic_mode,
}

-- What an assignment that starts with no epic for the worktree reports is what the map has.
assign_from_get :
    (epics : Option (List EpicInfo)) (has_ready : String → Option Bool) (m : Assignments)
    (w e : String)
    → lookup w m ≡ none
    → (assign_worktree epics has_ready m w).1 ≡ epic e
    → get_assignment (assign_worktree epics has_ready m w).0 w ≡ e
unfolding assign_worktree assign_from choose get_assignment
assign_from_get none has_ready m w e free h = ground arith
assign_from_get (some l) has_ready m w e free h =
    elim (Option-cases (first? (sort_by ranks_before (keep (candidate has_ready m) l)))) [
      | inl q ↦ ground (arith, q, h)
      | inr (x, q) ↦ ground (arith, q, lookup-insert w w x.id m, eq_iff w w)
    ]

assign_worktree_failed :
    (epics : Option (List EpicInfo)) (has_ready : String → Option Bool) (m : Assignments)
    (w : String)
    → lookup w m ≡ none
    → (assign_worktree epics has_ready m w).1 ≡ query_failed
    → get_assignment (assign_worktree epics has_ready m w).0 w ≡ ""
unfolding assign_worktree assign_from choose get_assignment
assign_worktree_failed none has_ready m w free h = ground arith
assign_worktree_failed (some l) has_ready m w free h =
    elim (Option-cases (first? (sort_by ranks_before (keep (candidate has_ready m) l)))) [
      | inl q ↦ ground (arith, q)
      | inr (x, q) ↦ ground (arith, q)
    ]

pub assign_worktree_others :
    (epics : Option (List EpicInfo)) (has_ready : String → Option Bool) (m : Assignments)
    (w v : String)
    → str_eq w v ≡ false
    → lookup v (assign_worktree epics has_ready m w).0 ≡ lookup v m
unfolding assign_worktree assign_from choose
assign_worktree_others none has_ready m w v other = ground arith
assign_worktree_others (some l) has_ready m w v other =
    elim (Option-cases (first? (sort_by ranks_before (keep (candidate has_ready m) l)))) [
      | inl q ↦ ground (arith, q)
      | inr (x, q) ↦ ground (arith, q, lookup-insert w v x.id m)
    ]

move_on_others :
    (w : World) (r : Assignments × Assigned) (a : EpicAgent) (v : String)
    → str_eq a.worktree v ≡ false
    → lookup v (move_on w r a).map ≡ lookup v r.0
unfolding move_on switch_to_non_epic_mode release_worktree
move_on_others w (m, query_failed) a v other = ground arith
move_on_others w (m, epic id) a v other = ground (arith, lookup-remove a.worktree v m)

-- The outcomes of a transition that is not a stay.
Moved : EpicAgent → Outcome → Type 0
Moved a o =
    ((o.failed ≡ false)
      × (o.agent.assigned_epic_id ≡ get_assignment o.map a.worktree)
      × (o.agent.restart_count ≡ 0))
    ⊎ ((o.failed ≡ true)
        × (get_assignment o.map a.worktree ≡ "")
        × (o.agent.restart_count ≡ a.restart_count))

move_on-Moved :
    (w : World) (r : Assignments × Assigned) (a : EpicAgent)
    → ((e : String) → r.1 ≡ epic e → get_assignment r.0 a.worktree ≡ e)
    → (r.1 ≡ query_failed → get_assignment r.0 a.worktree ≡ "")
    → Moved a (move_on w r a)
unfolding move_on switch_to_non_epic_mode release_worktree get_assignment Moved
move_on-Moved w (m, query_failed) a h k = ground (arith, k)
move_on-Moved w (m, epic id) a h k = ground (
  arith,
  h id refl,
  eq_iff id "",
  lookup-remove a.worktree a.worktree m,
  eq_iff a.worktree a.worktree,
)

pub lookup-release_worktree :
    (m : Assignments) (w : String) → lookup w (release_worktree m w) ≡ none
unfolding release_worktree
lookup-release_worktree m w = ground (arith, lookup-remove w w m, eq_iff w w)

-- A transition leaves the epics of the other worktrees as they are, and has one of three outcomes.
-- Nothing changes. Or it succeeds: the agent's epic is what the map now has for its worktree, "" for
-- none, and its restart count is 0. Or the branch could not be switched: the map then has no epic for
-- the worktree, and the restart count is kept.
pub handle_epic_transition_cases :
    (w : World) (m : Assignments) (a : EpicAgent) (v : String)
    → str_eq a.worktree v ≡ false
    → let o = handle_epic_transition w m a in
      (lookup v o.map ≡ lookup v m)
      × ((o ≡ record { map = m; agent = a; failed = false })
          ⊎ (((o.failed ≡ false)
                × (o.agent.assigned_epic_id ≡ get_assignment o.map a.worktree)
                × (o.agent.restart_count ≡ 0))
              ⊎ ((o.failed ≡ true)
                  × (get_assignment o.map a.worktree ≡ "")
                  × (o.agent.restart_count ≡ a.restart_count))))
unfolding handle_epic_transition Moved release_worktree
handle_epic_transition_cases w m a v other =
    elim (Bool-cases (str_eq a.assigned_epic_id "" || not (exhausted w.current_ready))) [
      | inl e ↦ rw e (refl, inl refl)
      | inr e ↦ rw e (
        move_on_others w r a v other
            ∙ assign_worktree_others w.open_epics w.has_ready freed a.worktree v other
            ∙ ground (arith, lookup-remove a.worktree v m),
        inr (
            move_on-Moved w r a
              (λ id q. assign_from_get w.open_epics w.has_ready freed a.worktree id free q)
              (λ q. assign_worktree_failed w.open_epics w.has_ready freed a.worktree free q)),
      )
    ]
  where
    freed : Assignments
    freed = release_worktree m a.worktree

    free : lookup a.worktree freed ≡ none
    free = lookup-release_worktree m a.worktree

    r : Assignments × Assigned
    r = assign_worktree w.open_epics w.has_ready freed a.worktree
