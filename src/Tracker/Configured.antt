-- ===== src/Tracker/Configured.antt =====
-- The limits that a new tracker takes from the roles of the configuration.
use loomcli.Common.{
  ℕ, zero, suc, ◌≡◌, refl, not, ◌&&◌, ◌==◌, Option, none, some, List, [], ◌∷◌, String, ℤ, pos,
  negsuc, str_eq, lookup-insert, if◌then◌else◌, arith,
}
use loomcli.Config.{RoleConfig}
use loomcli.Tracker.{at, add_limit, limits_of, new_concurrency_tracker}

-- The number of a role's limit; none, or a number that is not positive, is no limit, which is 0.
abbrev pub positive_limit : Option ℤ → ℕ
positive_limit none = 0
positive_limit (some (pos n)) = n
positive_limit (some (negsuc n)) = 0

-- The limit that a configuration gives a role, the last one if a name is there twice.
abbrev pub configured_limit : String → List (String × RoleConfig) → ℕ
configured_limit role [] = 0
configured_limit role ((name, rc) ∷ rcs) =
    let later = configured_limit role rcs in
    if later == 0
    then (if str_eq name role then positive_limit rc.max_concurrency else 0)
    else later

at-add_limit :
    (role name : String) (m : Option ℤ) (limits : List (String × ℕ))
    → at role (add_limit name m limits) ≡ (
        if str_eq name role && not (positive_limit m == 0)
        then positive_limit m
        else at role limits)
unfolding add_limit
at-add_limit role name none limits = ground arith
at-add_limit role name (some (pos zero)) limits = ground arith
at-add_limit role name (some (pos (suc n))) limits =
    ground (arith, lookup-insert name role (suc n) limits)
at-add_limit role name (some (negsuc n)) limits = ground arith

at-limits_of :
    (role : String) (limits : List (String × ℕ)) (rcs : List (String × RoleConfig))
    → at role (limits_of limits rcs)
      ≡ (if configured_limit role rcs == 0 then at role limits else configured_limit role rcs)
unfolding limits_of
at-limits_of role limits [] = refl
at-limits_of role limits ((name, rc) ∷ rcs) = ground (
  arith,
  at-limits_of role (add_limit name rc.max_concurrency limits) rcs,
  at-add_limit role name rc.max_concurrency limits,
)

pub limit_configured :
    (role : String) (rcs : List (String × RoleConfig))
    → at role (new_concurrency_tracker rcs).limits ≡ configured_limit role rcs
unfolding new_concurrency_tracker
limit_configured role rcs = ground (arith, at-limits_of role [] rcs)
