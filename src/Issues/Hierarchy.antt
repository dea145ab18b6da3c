-- ===== src/Issues/Hierarchy.antt =====
-- internal/types/id_generator.go: the identifiers of children.
pub mod RoundTrip
use Prim.Native.Char.{code}
use Prim.Native.String.{String, ◌++◌}
use loomcli.Common.{ℕ, suc, ◌&&◌, ℤ, pos, itoa, cut, ltb_ℤ, leb_ℤ, ◌==◌, if◌then◌else◌}

unfoldable pub generate_child_id : String → ℤ → String
unfolding itoa
generate_child_id parent n = parent ++ "." ++ itoa n

pub record Hierarchy : Type 0 where
  pub root : String
  pub parent : String
  pub depth : ℕ

-- How often the loop meets a dot.
unfoldable pub count_dots : String → ℕ
count_dots String.[] = 0
count_dots (String.◌∷◌ c s) = let n = count_dots s in if code c == b'.' then suc n else n

-- `id[:lastDot]`, where there is a dot.
unfoldable pub before_last_dot : String → String
unfolding count_dots
before_last_dot String.[] = ""
before_last_dot (String.◌∷◌ c s) =
    let rest = before_last_dot s in
    if count_dots s == 0 && code c == b'.' then "" else String.◌∷◌ c rest

unfoldable pub parse_hierarchical_id : String → Hierarchy
unfolding count_dots before_last_dot cut
parse_hierarchical_id id =
    if count_dots id == 0
    then record { root = id; parent = ""; depth = 0 }
    else record { root = (cut "." id).0; parent = before_last_dot id; depth = count_dots id }

abbrev pub max_hierarchy_depth : ℤ
max_hierarchy_depth = pos 3

pub data DepthCheck : Type 0 where
  allowed : DepthCheck
  too_deep : ℤ → DepthCheck

unfoldable pub check_hierarchy_depth : String → ℤ → DepthCheck
unfolding count_dots
check_hierarchy_depth parent max =
    let limit = if ltb_ℤ max (pos 1) then max_hierarchy_depth else max in
    if leb_ℤ limit (pos (count_dots parent)) then too_deep limit else allowed
