-- ===== src/Epics/Exclusive.antt =====
-- internal/cli/daemon_epic.go: no epic is given to two worktrees, and the epic given is the best
-- one that is free and has ready tasks.
use mathlib.Core.Path.{◌≡◌, refl}
use mathlib.Core.Logic.{◌≢◌, inl, inr, ◌↔◌}
use native.Mathlib.Omega.{arith}
use text.Mathlib.TextEquality.{eq_iff}
use loomcli.Common.{
  Bool, true, false, ◌||◌, not, Option, none, some, List, [], ◌∷◌, String, str_eq, keep, lookup,
  insert, first?, sort_by, Bool-cases, Option-cases, lookup-insert, lookup-remove, In,
  IsStrictOrder, first?-sort_by, first?-sort_by-none, str_ltb_asymm, str_ltb_neg_trans,
}
use loomcli.Epics.{
  EpicInfo, Assignments, Assigned, epic, query_failed, assigned_to_any, candidate, ranks_before,
  choose, assign_from, assign_worktree, release_worktree, World, EpicAgent, exhausted, move_on,
  handle_epic_transition, switch_to_non_epic_mode,
}

-- Two worktrees with the same epic are the same.
unfoldable IsExclusive : Assignments → Type 0
IsExclusive m = (v w e : String) → lookup v m ≡ some e → lookup w m ≡ some e → v ≡ w

lookup-assigned_to_any :
    (v e : String) (m : Assignments) → lookup v m ≡ some e → assigned_to_any m e ≡ true
unfolding assigned_to_any
lookup-assigned_to_any v e [] h = cc
lookup-assigned_to_any v e ((j, d) ∷ m) h =
    ground (arith, lookup-assigned_to_any v e m, eq_iff d e, eq_iff j v)

insert-IsExclusive :
    (w e : String) (m : Assignments)
    → IsExclusive m
    → assigned_to_any m e ≡ false
    → IsExclusive (insert w e m)
unfolding IsExclusive
insert-IsExclusive w e m h f u v d p q = ground (
  arith,
  h u v d,
  lookup-insert w u e m,
  lookup-insert w v e m,
  eq_iff w u,
  eq_iff w v,
  lookup-assigned_to_any u e m,
  lookup-assigned_to_any v e m,
)

release_worktree-IsExclusive :
    (m : Assignments) (w : String) → IsExclusive m → IsExclusive (release_worktree m w)
unfolding release_worktree IsExclusive
release_worktree-IsExclusive m w h u v d p q =
    ground (arith, h u v d, lookup-remove w u m, lookup-remove w v m)

In-keep :
    {A : Type 0} (p : A → Bool) (xs : List A) (x : A) → In x (keep p xs) ↔ (In x xs × (p x ≡ true))
In-keep p [] x = ground arith
In-keep p (y ∷ ys) x = ground (arith, In-keep p ys x)

ranks_before-IsStrictOrder : IsStrictOrder ranks_before
unfolding ranks_before
ranks_before-IsStrictOrder = record {
  asymm = λ a b h. ground (arith, str_ltb_asymm a.id b.id);
  neg_trans = λ a b c h k. ground (arith, str_ltb_neg_trans a.id b.id c.id);
}

pub first_candidate :
    (epics : List EpicInfo) (has_ready : String → Option Bool) (m : Assignments) (x : EpicInfo)
    → first? (sort_by ranks_before (keep (candidate has_ready m) epics)) ≡ some x
    → In x epics × (candidate has_ready m x ≡ true)
first_candidate epics has_ready m x h =
    (In-keep (candidate has_ready m) epics x).0
      (first?-sort_by ranks_before ranks_before-IsStrictOrder (keep (candidate has_ready m) epics) x
        h).0

candidate_free :
    (has_ready : String → Option Bool) (m : Assignments) (x : EpicInfo)
    → candidate has_ready m x ≡ true
    → assigned_to_any m x.id ≡ false
unfolding candidate
candidate_free has_ready m x h = ground arith

assign_worktree-IsExclusive :
    (epics : Option (List EpicInfo)) (has_ready : String → Option Bool) (m : Assignments)
    (w : String)
    → IsExclusive m
    → IsExclusive (assign_worktree epics has_ready m w).0
unfolding assign_worktree assign_from choose
assign_worktree-IsExclusive epics has_ready m w h = elim (Option-cases (lookup w m)) [
  | inr (e, q) ↦ rw q h
  | inl q ↦ rw q (from epics)
]
  where
    from : (o : Option (List EpicInfo)) → IsExclusive (assign_from has_ready m w o).0
    from none = h
    from (some l) =
        elim (Option-cases (first? (sort_by ranks_before (keep (candidate has_ready m) l)))) [
          | inl q ↦ rw q h
          | inr (x, q) ↦ rw q (
              insert-IsExclusive w x.id m h
                (candidate_free has_ready m x (first_candidate l has_ready m x q).1))
        ]

transition-IsExclusive :
    (w : World) (m : Assignments) (a : EpicAgent)
    → IsExclusive m
    → IsExclusive (handle_epic_transition w m a).map
unfolding handle_epic_transition move_on switch_to_non_epic_mode
transition-IsExclusive w m a h =
    elim (Bool-cases (str_eq a.assigned_epic_id "" || not (exhausted w.current_ready))) [
      | inl e ↦ rw e h
      | inr e ↦ rw e (
          moved
            (assign_worktree w.open_epics w.has_ready (release_worktree m a.worktree) a.worktree)
            (assign_worktree-IsExclusive w.open_epics w.has_ready (release_worktree m a.worktree)
              a.worktree (release_worktree-IsExclusive m a.worktree h)))
    ]
  where
    moved : (r : Assignments × Assigned) → IsExclusive r.0 → IsExclusive (move_on w r a).map
    moved (m', query_failed) k = ground arith
    moved (m', epic id) k = ground (arith, k, release_worktree-IsExclusive m' a.worktree k)

-- What the supervisors do with the assigner, each with its own answers of the tracker and of git.
pub data Move : Type 0 where
  assigns : Option (List EpicInfo) → (String → Option Bool) → String → Move
  releases : String → Move
  transitions : World → EpicAgent → Move

unfoldable pub step : Assignments → Move → Assignments
step m (assigns epics has_ready w) = (assign_worktree epics has_ready m w).0
step m (releases w) = release_worktree m w
step m (transitions w a) = (handle_epic_transition w m a).map

unfoldable pub run : Assignments → List Move → Assignments
run m [] = m
run m (x ∷ xs) = run (step m x) xs

step-IsExclusive : (m : Assignments) (x : Move) → IsExclusive m → IsExclusive (step m x)
unfolding step
step-IsExclusive m (assigns epics has_ready w) h = assign_worktree-IsExclusive epics has_ready m w h
step-IsExclusive m (releases w) h = release_worktree-IsExclusive m w h
step-IsExclusive m (transitions w a) h = transition-IsExclusive w m a h

run-IsExclusive : (m : Assignments) (xs : List Move) → IsExclusive m → IsExclusive (run m xs)
unfolding run
run-IsExclusive m [] h = h
run-IsExclusive m (x ∷ xs) h = run-IsExclusive (step m x) xs (step-IsExclusive m x h)

-- From an empty assigner, whatever assignments, releases and epic transitions the supervisors make in
-- whatever order, and whatever the tracker and git answer, the epic that one worktree holds is not
-- held by another.
pub run_exclusive :
    (xs : List Move) (v w e : String)
    → str_eq v w ≡ false
    → lookup v (run [] xs) ≡ some e
    → lookup w (run [] xs) ≢ some e
unfolding IsExclusive
run_exclusive xs v w e other p q =
    let same : v ≡ w = run-IsExclusive [] xs (λ v w e p. cc) v w e p q in ground (arith, eq_iff v w)

-- When a worktree has no epic and some open epic `z` is free and has ready tasks, the assignment
-- does not fail: it records an open epic that is free and has ready tasks, behind which `z` ranks
-- or with which it ties.
assign_worktree_best :
    (epics : List EpicInfo) (has_ready : String → Option Bool) (m : Assignments) (w : String)
    (z : EpicInfo)
    → lookup w m ≡ none
    → In z epics
    → candidate has_ready m z ≡ true
    → (x : EpicInfo) × (assign_worktree (some epics) has_ready m w ≡ (insert w x.id m, epic x.id))
      × In x epics
      × (candidate has_ready m x ≡ true)
      × (ranks_before z x ≡ false)
unfolding assign_worktree assign_from choose
assign_worktree_best epics has_ready m w z free iz cz =
    elim (Option-cases (first? (sort_by ranks_before (keep (candidate has_ready m) epics)))) [
      | inl q ↦
          no_candidate (keep (candidate has_ready m) epics)
            (first?-sort_by-none ranks_before (keep (candidate has_ready m) epics) q) kept
      | inr (x, q) ↦
          let least =
            (first?-sort_by ranks_before ranks_before-IsStrictOrder
              (keep (candidate has_ready m) epics) x q).1 in
          let (ix, cx) = first_candidate epics has_ready m x q in
          (x, rw free rw q refl, ix, cx, least z kept)
    ]
  where
    kept : In z (keep (candidate has_ready m) epics)
    kept = (In-keep (candidate has_ready m) epics z).1 (iz, cz)

    no_candidate : {B : Type 0} → (l : List EpicInfo) → l ≡ [] → In z l → B
    no_candidate [] e i = elim i [ ]
    no_candidate {B} (x ∷ l) e i = elim (x∷l≢[] e) [ ]
      where
        x∷l≢[] : (x ∷ l ≡ []) → ⊥
        x∷l≢[] e = cc
