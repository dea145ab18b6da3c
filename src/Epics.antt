-- ===== src/Epics.antt =====
-- internal/cli/daemon_epic.go: the assignment of epics to worktrees. The two queries of the issue
-- tracker are arguments, an error being `none`. A method holds the mutex throughout, so it is one
-- function on the map from worktrees to epics.
pub mod Exclusive
pub mod Transition
use Prim.Native.String.{◌++◌}
use loomcli.Common.{
  ℕ, Bool, true, false, ◌&&◌, ◌||◌, not, Option, none, some, List, [], ◌∷◌, String, ℤ, ltb_ℤ, eqb_ℤ,
  if◌then◌else◌, str_eq, str_ltb, any, keep, lookup, insert, remove, first?, sort_by,
}

pub record EpicInfo : Type 0 where
  pub id : String
  pub priority : ℤ
  pub ready_task_count : ℤ

-- worktree name -> epic ID
abbrev pub Assignments : Type 0
Assignments = List (String × String)

unfoldable pub assigned_to_any : Assignments → String → Bool
assigned_to_any m epic = any (λ p. str_eq p.1 epic) m

-- An error of the query skips the epic.
abbrev is_ready : Option Bool → Bool
is_ready none = false
is_ready (some b) = b

unfoldable pub candidate : (String → Option Bool) → Assignments → EpicInfo → Bool
candidate has_ready m e = not (assigned_to_any m e.id) && is_ready (has_ready e.id)

unfoldable pub ranks_before : EpicInfo → EpicInfo → Bool
ranks_before a b =
    if not (eqb_ℤ a.priority b.priority) then ltb_ℤ a.priority b.priority else str_ltb a.id b.id

-- The assigned epic, "" for none; or the error of the query.
pub data Assigned : Type 0 where
  epic : String → Assigned
  query_failed : Assigned

choose : Assignments → String → Option EpicInfo → Assignments × Assigned
choose m worktree none = (m, epic "")
choose m worktree (some e) = (insert worktree e.id m, epic e.id)

assign_from :
    (String → Option Bool) → Assignments → String → Option (List EpicInfo) → Assignments × Assigned
unfolding choose
assign_from has_ready m worktree none = (m, query_failed)
assign_from has_ready m worktree (some epics) =
    choose m worktree (first? (sort_by ranks_before (keep (candidate has_ready m) epics)))

abbrev assign_or : Assignments × Assigned → Assignments → Option String → Assignments × Assigned
assign_or r m (some id) = (m, epic id)
assign_or r m none = r

unfoldable pub assign_worktree :
    Option (List EpicInfo) → (String → Option Bool) → Assignments → String → Assignments × Assigned
unfolding assign_from
assign_worktree epics has_ready m worktree =
    assign_or (assign_from has_ready m worktree epics) m (lookup worktree m)

unfoldable pub release_worktree : Assignments → String → Assignments
release_worktree m worktree = remove worktree m

unfoldable pub get_assignment : Assignments → String → String
get_assignment m worktree = elim (lookup worktree m) [ none ↦ "" | some id ↦ id ]

pub assignments : Assignments → Assignments
assignments m = m

-- The agent's fields that an epic transition changes.
pub record EpicAgent : Type 0 where
  pub worktree : String
  pub assigned_epic_id : String
  pub restart_count : ℕ

-- What the code asks of the tracker and of git while it runs: ready tasks of the current epic, the
-- open epics, ready tasks of an epic, and whether a switch to a branch succeeds.
pub record World : Type 0 where
  pub current_ready : Option Bool
  pub open_epics : Option (List EpicInfo)
  pub has_ready : String → Option Bool
  pub ensure_branch : String → Bool

pub record Outcome : Type 0 where
  pub map : Assignments
  pub agent : EpicAgent
  pub failed : Bool

pub epic_branch_name : String → String
epic_branch_name id = "epic/" ++ id

switch_to_non_epic_mode : World → Assignments → EpicAgent → Outcome
switch_to_non_epic_mode w m a =
    let a' = record a { assigned_epic_id = "" } in
    if w.ensure_branch a.worktree
    then record { map = m; agent = record a' { restart_count = 0 }; failed = false }
    else record { map = m; agent = a'; failed = true }

move_on : World → Assignments × Assigned → EpicAgent → Outcome
unfolding switch_to_non_epic_mode epic_branch_name
move_on w (m, query_failed) a = switch_to_non_epic_mode w m a
move_on w (m, epic id) a =
    if str_eq id ""
    then switch_to_non_epic_mode w m a
    else if w.ensure_branch (epic_branch_name id)
    then record {
      map = m;
      agent = record a { assigned_epic_id = id; restart_count = 0 };
      failed = false;
    }
    else record { map = release_worktree m a.worktree; agent = a; failed = true }

abbrev exhausted : Option Bool → Bool
exhausted none = false
exhausted (some b) = not b

unfoldable pub handle_epic_transition : World → Assignments → EpicAgent → Outcome
unfolding move_on
handle_epic_transition w m a =
    if str_eq a.assigned_epic_id "" || not (exhausted w.current_ready)
    then record { map = m; agent = a; failed = false }
    else move_on w
        (assign_worktree w.open_epics w.has_ready (release_worktree m a.worktree) a.worktree) a
