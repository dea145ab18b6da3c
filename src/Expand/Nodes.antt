-- ===== src/Expand/Nodes.antt =====
-- walkNodes and isImplicitString of internal/cli/config_envsubst.go, on the tree of package yaml.v3.
use loomcli.Common.{
  ℕ, ◌≡◌, refl, sym, Bool, false, ◌&&◌, ◌||◌, not, String, str_eq, contains, ◌==◌, ap, ◌∙◌, Lacks,
  Bool-cases, inl, inr, Option, if◌then◌else◌,
}
use loomcli.Expand.{ExpandError, Expansion, expanded, failed, out_of_fuel, expand_env_vars}
use loomcli.Expand.Escape.{escape-Lacks, expand_env_vars-escape}

data Kind : Type 0 where
  document mapping sequence scalar alias other : Kind

-- Tag, style, value and line of a node, and its content.
record Text : Type 0 where
  tag : String
  style : ℕ
  value : String
  line : ℕ

mutual
  data Node : Type 0 where
    node : Kind → Text → Nodes → Node

  data Nodes : Type 0 where
    nil : Nodes
    cons : Node → Nodes → Nodes

data Walked (A : Type 0) : Type 0 where
  walked : A → Walked A
  error_at : ℕ → ExpandError → Walked A
  not_ended : Walked A

-- Of a scalar.
is_implicit_string : Text → Bool
unfolding contains
is_implicit_string t =
    if not (str_eq t.tag "") && not (str_eq t.tag "!!str") then false else contains t.value "${"

is_expanded : Text → Bool
unfolding is_implicit_string
is_expanded t =
    str_eq t.tag "!!str" || (str_eq t.tag "" && not (t.style == 0)) || is_implicit_string t

with_value : Text → Expansion → Walked Text
with_value t (expanded v) = walked (record t { value = v })
with_value t (failed e) = error_at t.line e
with_value t out_of_fuel = not_ended

scalar_text : (String → Option String) → Text → Walked Text
unfolding is_expanded with_value expand_env_vars
scalar_text env t = if is_expanded t then with_value t (expand_env_vars env t.value) else walked t

abbrev then_with : {A B : Type 0} → Walked A → (A → Walked B) → Walked B
then_with (walked a) f = f a
then_with (error_at l e) f = error_at l e
then_with not_ended f = not_ended

mutual
  unfolding scalar_text

  walk_nodes : (String → Option String) → Node → Walked Node
  walk_nodes env (node scalar t content) =
      then_with (scalar_text env t) (λ u. walked (node scalar u content))
  walk_nodes env (node document t content) =
      then_with (walk_all env content) (λ c. walked (node document t c))
  walk_nodes env (node mapping t content) =
      then_with (walk_all env content) (λ c. walked (node mapping t c))
  walk_nodes env (node sequence t content) =
      then_with (walk_all env content) (λ c. walked (node sequence t c))
  walk_nodes env (node alias t content) = walked (node alias t content)
  walk_nodes env (node other t content) = walked (node other t content)

  walk_all : (String → Option String) → Nodes → Walked Nodes
  walk_all env nil = walked nil
  walk_all env (cons n ns) =
      then_with (walk_nodes env n) (λ m. then_with (walk_all env ns) (λ ms. walked (cons m ms)))

-- No value has a dollar sign.
abbrev mutual
  Plain : Node → Type 0
  Plain (node k t content) = Lacks "$" t.value × AllPlain content

  AllPlain : Nodes → Type 0
  AllPlain nil = Unit {0}
  AllPlain (cons n ns) = Plain n × AllPlain ns

scalar_text-plain :
    (env : String → Option String) (t : Text) → Lacks "$" t.value → scalar_text env t ≡ walked t
unfolding scalar_text
scalar_text-plain env t h =
    let e : expand_env_vars env t.value ≡ expanded t.value =
      ap (expand_env_vars env) (sym (escape-Lacks t.value h))
      ∙ expand_env_vars-escape env t.value in
    elim (Bool-cases (is_expanded t)) [ inl b ↦ rw (b, e) refl | inr b ↦ rw b refl ]

-- A tree in whose values there is no dollar sign is left as it is.
mutual
  unfolding walk_nodes walk_all

  walk_nodes-Plain :
      (env : String → Option String) (n : Node) → Plain n → walk_nodes env n ≡ walked n
  walk_nodes-Plain env (node scalar t content) h = rw (scalar_text-plain env t h.0) refl
  walk_nodes-Plain env (node document t content) h = rw (walk_all-AllPlain env content h.1) refl
  walk_nodes-Plain env (node mapping t content) h = rw (walk_all-AllPlain env content h.1) refl
  walk_nodes-Plain env (node sequence t content) h = rw (walk_all-AllPlain env content h.1) refl
  walk_nodes-Plain env (node alias t content) h = refl
  walk_nodes-Plain env (node other t content) h = refl

  walk_all-AllPlain :
      (env : String → Option String) (ns : Nodes) → AllPlain ns → walk_all env ns ≡ walked ns
  walk_all-AllPlain env nil h = refl
  walk_all-AllPlain env (cons n ns) h =
      rw (walk_nodes-Plain env n h.0, walk_all-AllPlain env ns h.1) refl
