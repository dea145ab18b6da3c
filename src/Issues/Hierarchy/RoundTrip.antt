-- ===== src/Issues/Hierarchy/RoundTrip.antt =====
-- Children by GenerateChildID read by ParseHierarchicalID, internal/types/id_generator.go.
use Prim.Native.String.{String, ◌++◌}
use text.Mathlib.TextLemmas.{cons-append, nil-append}
use loomcli.Common.{
  ◌+◌, ◌≡◌, refl, inl, ◌↔◌, ap, ℤ, pos, ◌≤ℤ◌, ltb_ℤ, arith, itoa, cut, Lacks, Lacks-itoa,
  if◌then◌else◌,
}
use loomcli.Issues.Hierarchy.{
  generate_child_id, count_dots, before_last_dot, parse_hierarchical_id, check_hierarchy_depth,
  allowed,
}

count_dots-append : (s t : String) → count_dots (s ++ t) ≡ count_dots s + count_dots t
unfolding count_dots
count_dots-append String.[] t = rw nil-append (omega arith)
count_dots-append (String.◌∷◌ c s) t = rw cons-append (ground (arith, count_dots-append s t))

count_dots-Lacks : (s : String) → Lacks "." s → count_dots s ≡ 0
unfolding count_dots
count_dots-Lacks String.[] h = refl
count_dots-Lacks (String.◌∷◌ c s) h = ground (arith, count_dots-Lacks s h.1)

before_last_dot-append : (s t : String) → Lacks "." t → before_last_dot (s ++ "." ++ t) ≡ s
unfolding before_last_dot
before_last_dot-append String.[] t h =
    rw (nil-append, cons-append, nil-append) (rw (count_dots-Lacks t h) refl)
before_last_dot-append (String.◌∷◌ c s) t h =
    rw (cons-append c s ("." ++ t), count_dots-append s ("." ++ t), count_dots-append "." t)
      (ground (arith, before_last_dot-append s t h))

-- The root does not change when text is added behind a dot.
root-append : (s t : String) → (cut "." (s ++ "." ++ t)).0 ≡ (cut "." s).0
unfolding cut
root-append String.[] t = rw (nil-append, cons-append) refl
root-append (String.◌∷◌ c s) t = rw (cons-append c s ("." ++ t)) (ground (arith, root-append s t))

root-flat : (s : String) → count_dots s ≡ 0 → (cut "." s).0 ≡ s
unfolding cut count_dots
root-flat String.[] h = refl
root-flat (String.◌∷◌ c s) h = ground (arith, root-flat s)

-- The child of an identifier has that identifier as its parent, its root, and one level more.
pub parse_hierarchical_id-generate_child_id :
    (parent : String) (n : ℤ)
    → parse_hierarchical_id (generate_child_id parent n) ≡ record {
      root = (parse_hierarchical_id parent).root;
      parent = parent;
      depth = (parse_hierarchical_id parent).depth + 1;
    }
unfolding parse_hierarchical_id generate_child_id
parse_hierarchical_id-generate_child_id parent n =
    let l : Lacks "." (itoa n) = Lacks-itoa "." n (inl (omega arith)) (λ e. omega arith) in
    ground (
      arith,
      count_dots-append parent ("." ++ itoa n),
      count_dots-append "." (itoa n),
      count_dots-Lacks (itoa n) l,
      before_last_dot-append parent (itoa n) l,
      root-append parent (itoa n),
      root-flat parent,
    )

parse_hierarchical_id-depth : (id : String) → (parse_hierarchical_id id).depth ≡ count_dots id
unfolding parse_hierarchical_id
parse_hierarchical_id-depth id = ground arith

-- A parent may have children exactly if the depth of a child is within the maximum, which is 3
-- where a maximum below 1 is given.
check_hierarchy_depth_child :
    (parent : String) (n max : ℤ)
    → (check_hierarchy_depth parent max ≡ allowed) ↔ (
        pos (parse_hierarchical_id (generate_child_id parent n)).depth
        ≤ℤ (if ltb_ℤ max (pos 1) then pos 3 else max))
unfolding check_hierarchy_depth
check_hierarchy_depth_child parent n max =
    rw (ap (λ h. h.depth) (parse_hierarchical_id-generate_child_id parent n))
      (ground (arith, parse_hierarchical_id-depth parent))
