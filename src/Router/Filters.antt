-- ===== src/Router/Filters.antt =====
-- The task filters that the configuration accepts, as the router reads them.
use loomcli.Common.{
  ◌<◌, ◌≡◌, refl, Bool, true, false, ◌&&◌, ◌||◌, List, String, lt→ltb, str_eq, arith, eq_iff, ◌⊎◌,
  inl, inr,
}
use loomcli.Config.Validate.{valid_task_filter}
use loomcli.Router.{
  BdIssue, RoleConstraints, match_task, needs_plan, ready_to_implement,
  is_available_for_implementation,
}
use loomcli.Router.Match.{available_by, match_task-pos}

unlike :
    (f g : String)
    → str_eq f g ≡ true
    → str_eq g "needs_plan" ≡ false
    → str_eq f "needs_plan" ≡ false
unlike f g e d = rw ((eq_iff f g).0 e) d

or_split : (a b : Bool) → (a || b) ≡ true → (a ≡ true) ⊎ (b ≡ true)
or_split a b h = ground arith

valid_not_plan : (f : String) → valid_task_filter f ≡ true → str_eq f "needs_plan" ≡ false
valid_not_plan f h =
    elim (or_split (str_eq f "needs_design" || str_eq f "has_design") (str_eq f "any") h) [
      | inl p ↦ elim (or_split (str_eq f "needs_design") (str_eq f "has_design") p) [
        | inl e ↦ unlike f "needs_design" e refl
        | inr e ↦ unlike f "has_design" e refl
      ]
      | inr e ↦ unlike f "any" e refl
    ]

available_no_plan :
    (issue : BdIssue) (unclosed : List String)
    → is_available_for_implementation issue unclosed ≡ true
    → needs_plan issue ≡ false
unfolding is_available_for_implementation needs_plan ready_to_implement
available_no_plan issue unclosed h = ground arith

available_other :
    (f : String) (issue : BdIssue) (unclosed : List String)
    → str_eq f "needs_plan" ≡ false
    → str_eq f "any" ≡ false
    → available_by f issue unclosed ≡ is_available_for_implementation issue unclosed
available_other f issue unclosed p a = rw (p, a) refl

all_true : (p a w i : Bool) → p ≡ true → p ≡ (a && w) → a ≡ i → i ≡ true
all_true p a w i hp e s = ground arith

-- With any filter that validation accepts but "any", "needs_design" among them, an issue with a
-- positive score is available for implementation and needs no plan.
match_task_valid_filter :
    (issue : BdIssue) (c : RoleConstraints) (unclosed : List String)
    → valid_task_filter c.task_filter ≡ true
    → str_eq c.task_filter "any" ≡ false
    → 0 < (match_task issue c unclosed).score
    → (is_available_for_implementation issue unclosed ≡ true) × (needs_plan issue ≡ false)
match_task_valid_filter issue c unclosed valid other h =
    let scored = match_task-pos issue c unclosed in
    let same =
      available_other c.task_filter issue unclosed (valid_not_plan c.task_filter valid) other in
    let available : is_available_for_implementation issue unclosed ≡ true =
      all_true _ _ _ _ (lt→ltb 0 _ h) scored same in
    (available, available_no_plan issue unclosed available)
