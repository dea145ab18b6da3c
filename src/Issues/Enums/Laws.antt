-- ===== src/Issues/Enums/Laws.antt =====
-- What the tests of internal/types/enums.go and relations.go accept.
use Prim.Native.String.{len}
use loomcli.Common.{
  String, ◌≡◌, refl, ◌↔◌, ◌⊎◌, Bool, true, false, List, [], ◌∷◌, arith, str_eq, eq_iff, any, In,
  not, ◌&&◌, ltb, leb,
}
use loomcli.Issues.Enums.{
  one_of, statuses, issue_types, is_valid_status_with_custom, is_valid_type_with_custom,
  is_well_known, affects_ready_work, is_valid_dependency_type, dependency_types,
}
use loomcli.Router.{affects_ready_work as blocks_in_router}

pub any_iff :
    (values : List String) (s : String) → (any (λ v. str_eq s v) values ≡ true) ↔ In s values
any_iff [] s = ground arith
any_iff (v ∷ vs) s = ground (arith, eq_iff s v, any_iff vs s)

-- A status is valid exactly if it is one of the nine or one of the user's.
pub is_valid_status_with_custom_iff :
    (customs : List String) (s : String)
    → (is_valid_status_with_custom customs s ≡ true) ↔ (In s statuses ⊎ In s customs)
unfolding is_valid_status_with_custom
is_valid_status_with_custom_iff customs s = ground (arith, any_iff statuses s, any_iff customs s)

pub is_valid_type_with_custom_iff :
    (customs : List String) (t : String)
    → (is_valid_type_with_custom customs t ≡ true) ↔ (In t issue_types ⊎ In t customs)
unfolding is_valid_type_with_custom
is_valid_type_with_custom_iff customs t = ground (arith, any_iff issue_types t, any_iff customs t)

-- A test that all values pass is passed by each of them.
any-all :
    (p : String → Bool) (values : List String) (s : String)
    → any (λ v. not (p v)) values ≡ false
    → any (λ v. str_eq s v) values ≡ true
    → p s ≡ true
any-all p [] s h k = cc
any-all p (v ∷ vs) s h k = ground (arith, eq_iff s v, any-all p vs s)

pub is_well_known-is_valid :
    (d : String) → is_well_known d ≡ true → is_valid_dependency_type d ≡ true
unfolding is_well_known is_valid_dependency_type one_of
is_well_known-is_valid d h =
    any-all (λ v. ltb 0 (len v) && leb (len v) 50) dependency_types d refl h

-- The dependency types that block work are the same in internal/types and in
-- internal/cli/taskfilter.go.
affects_ready_work_aligned : (d : String) → affects_ready_work d ≡ blocks_in_router d
unfolding affects_ready_work
affects_ready_work_aligned d = refl
