-- ===== src/Router/Select.antt =====
-- The task that is selected.
use loomcli.Common.{
  ◌<◌, ◌<ℤ◌, str_ltb, ◌≡◌, sym, ap, ◌∙◌, subst, true, false, none, some, List, [], ◌∷◌, String, In,
  ltb, eqb_ℤ-eq, str_ltb_asymm, str_ltb_neg_trans, IsStrictOrder, first?, sort_by, first?-sort_by,
  first?-sort_by-none, arith, Bool-cases, Option-cases, subst, List, inl, inr, ◌⊎◌,
}
use loomcli.Router.{
  BdIssue, RoleConstraints, TaskMatch, match_task, better, matching, select_best_task,
}

-- By score downwards, then by priority upwards, then by id: a strict order.
better-IsStrictOrder : IsStrictOrder better
unfolding better
better-IsStrictOrder = record {
  asymm = λ a b h. ground (arith, str_ltb_asymm a.issue.id b.issue.id);
  neg_trans = λ a b c h k. ground (arith, str_ltb_neg_trans a.issue.id b.issue.id c.issue.id);
}

-- The first has the higher score; or they have one score, and the first is more urgent, which is a lower
-- number; or they have one priority too, and the id of the second is not before that of the first.
abbrev pub ComesFirst : TaskMatch → TaskMatch → Type 0
ComesFirst a b =
    (b.score < a.score)
    ⊎ ((b.score ≡ a.score)
        × ((a.issue.priority <ℤ b.issue.priority)
            ⊎ ((a.issue.priority ≡ b.issue.priority) × (str_ltb b.issue.id a.issue.id ≡ false))))

better-ComesFirst : (a b : TaskMatch) → better b a ≡ false → ComesFirst a b
unfolding better
better-ComesFirst a b h = ground (arith, eqb_ℤ-eq b.issue.priority a.issue.priority)

match_issue :
    (issue : BdIssue) (c : RoleConstraints) (unclosed : List String)
    → (match_task issue c unclosed).issue ≡ issue
unfolding match_task
match_issue issue c unclosed = ground arith

-- A match that is kept belongs to an issue of the list that scores.
FromIssue : List BdIssue → RoleConstraints → List String → TaskMatch → Type 0
FromIssue issues c unclosed m =
    In m.issue issues × (m ≡ match_task m.issue c unclosed) × (0 < m.score)

In-matching :
    (issues : List BdIssue) (c : RoleConstraints) (unclosed : List String) (m : TaskMatch)
    → In m (matching issues c unclosed)
    → FromIssue issues c unclosed m
unfolding FromIssue
In-matching [] c unclosed m h = absurd h
In-matching (x ∷ xs) c unclosed m h = elim (Bool-cases (ltb 0 (match_task x c unclosed).score)) [
  | inr e ↦ let r = In-matching xs c unclosed m (kept e h) in (inr r.0, r.1, r.2)
  | inl e ↦ elim (first e h) [
    | inl q ↦
        let is_x : m.issue ≡ x = ap (λ (t : TaskMatch). t.issue) q ∙ match_issue x c unclosed in
        (
          inl is_x,
          q ∙ ap (λ (y : BdIssue). match_task y c unclosed) (sym is_x),
          rw q (ground arith),
        )
    | inr q ↦ let r = In-matching xs c unclosed m q in (inr r.0, r.1, r.2)
  ]
]
  where
    kept :
        ltb 0 (match_task x c unclosed).score ≡ false
        → In m (matching (x ∷ xs) c unclosed)
        → In m (matching xs c unclosed)
    kept e k = rw e at k

    first :
        ltb 0 (match_task x c unclosed).score ≡ true
        → In m (matching (x ∷ xs) c unclosed)
        → (m ≡ match_task x c unclosed) ⊎ In m (matching xs c unclosed)
    first e k = rw e at k

matching-In :
    (issues : List BdIssue) (c : RoleConstraints) (unclosed : List String) (x : BdIssue)
    → In x issues
    → 0 < (match_task x c unclosed).score
    → In (match_task x c unclosed) (matching issues c unclosed)
matching-In [] c unclosed x m h = absurd m
matching-In (y ∷ ys) c unclosed x m h = elim (Bool-cases (ltb 0 (match_task y c unclosed).score)) [
  | inl e ↦ rw e (elim m [
    | inl q ↦ inl (ap (λ (z : BdIssue). match_task z c unclosed) q)
    | inr q ↦ inr (matching-In ys c unclosed x q h)
  ])
  | inr e ↦ rw e (elim m [
    | inl q ↦ absurd (ground (arith, ap (λ (z : BdIssue). (match_task z c unclosed).score) q))
    | inr q ↦ matching-In ys c unclosed x q h
  ])
]

-- If an issue of the list has a positive score, the selected task belongs to one of the issues and is that
-- issue's match with a positive score. Against the match of the given issue it has the higher score, or
-- the same score and the lower priority number, or both the same and an id that the given issue's
-- is not before.
pub select_best_task-some :
    (issues : List BdIssue) (c : RoleConstraints) (unclosed : List String) (x : BdIssue)
    → In x issues
    → 0 < (match_task x c unclosed).score
    → (b : TaskMatch) × (select_best_task issues c unclosed ≡ some b)
      × In b.issue issues
      × (b ≡ match_task b.issue c unclosed)
      × (0 < b.score)
      × ComesFirst b (match_task x c unclosed)
unfolding select_best_task FromIssue
select_best_task-some issues c unclosed x mx hx =
    elim (Option-cases (first? (sort_by better (matching issues c unclosed)))) [
      | inl e ↦ absurd (
          nothing (match_task x c unclosed)
            (first?-sort_by-none better (matching issues c unclosed) e)
            (matching-In issues c unclosed x mx hx))
      | inr (b, h) ↦
          let (m, least) =
            first?-sort_by better better-IsStrictOrder (matching issues c unclosed) b h in
          let r = In-matching issues c unclosed b m in
          (
            b,
            h,
            r.0,
            r.1,
            r.2,
            better-ComesFirst b (match_task x c unclosed)
                (least (match_task x c unclosed) (matching-In issues c unclosed x mx hx)),
          )
    ]
  where
    nothing : (a : TaskMatch) {l : List TaskMatch} → l ≡ [] → In a l → ⊥
    nothing a e i = subst (In a) e i

-- Nothing is selected only if no issue of the list has a positive score.
pub select_best_task-none :
    (issues : List BdIssue) (c : RoleConstraints) (unclosed : List String) (x : BdIssue)
    → select_best_task issues c unclosed ≡ none
    → In x issues
    → (match_task x c unclosed).score ≡ 0
unfolding select_best_task
select_best_task-none issues c unclosed x h m =
    let e = first?-sort_by-none better (matching issues c unclosed) h in
    elim (Bool-cases (ltb 0 (match_task x c unclosed).score)) [
      | inl p ↦ absurd (
          subst (In (match_task x c unclosed)) e (matching-In issues c unclosed x m (ground arith)))
      | inr p ↦ ground arith
    ]
