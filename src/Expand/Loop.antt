-- ===== src/Expand/Loop.antt =====
-- The fuel of ExpandEnvVars, internal/cli/config_envsubst.go, is enough.
use Prim.Native.Char.{code, len_utf8}
use Prim.Native.String.{len, count}
use text.Mathlib.TextLemmas.{length-cons}
use loomcli.Common.{
  ℕ, zero, suc, ◌+◌, ◌<◌, ◌≡◌, ◌≢◌, refl, sym, Bool, true, false, Option, none, some, String, ◌==◌,
  arith, ap, is_some, one, Bool-cases, inl, inr, if◌then◌else◌,
}
use loomcli.Expand.{
  Expr, Mode, required_mode, default_mode, error_mode, required, not_set, parse_expr, by_mode,
  resolve, Expansion, expanded, failed, out_of_fuel, before, followed_by, deeper,
  find_closing_brace, expand_expr, after_open, after_dollar, expand_from, expand_env_vars,
}

-- What is behind the closing brace is shorter.
pub find_closing_brace-count :
    (depth : ℕ) (s a b : String) → find_closing_brace depth s ≡ some (a, b) → count b < count s
unfolding find_closing_brace
find_closing_brace-count depth String.[] a b h = absurd (cc h)
find_closing_brace-count depth (String.◌∷◌ c s) a b h = rw (length-cons c s) (
    go (find_closing_brace (deeper depth c) s) refl
      (λ x y e. find_closing_brace-count (deeper depth c) s x y e))
  where
    go :
        (o : Option (String × String))
        → find_closing_brace (deeper depth c) s ≡ o
        → ((x y : String) → find_closing_brace (deeper depth c) s ≡ some (x, y) → count y < count s)
        → count b < suc (count s)
    go none e ih = elim (Bool-cases (deeper depth c == 0)) [
      | inl z ↦ let q : b ≡ s = cc (h, z) in omega (arith, ap count q)
      | inr z ↦ absurd (cc (h, z, e))
    ]
    go (some (x, y)) e ih = elim (Bool-cases (deeper depth c == 0)) [
      | inl z ↦ let q : b ≡ s = cc (h, z) in omega (arith, ap count q)
      | inr z ↦ let q : y ≡ b = cc (h, z, e) in omega (arith, ap count q, ih x y e)
    ]

abbrev runs : Expansion → Bool
runs (expanded t) = true
runs (failed e) = true
runs out_of_fuel = false

runs-before : (s : String) (x : Expansion) → runs x ≡ true → runs (before s x) ≡ true
runs-before s (expanded t) h = refl
runs-before s (failed e) h = refl
runs-before s out_of_fuel h = h

runs-followed_by : (x y : Expansion) → runs x ≡ true → runs y ≡ true → runs (followed_by x y) ≡ true
runs-followed_by (expanded t) y h k = runs-before t y k
runs-followed_by (failed e) y h k = refl
runs-followed_by out_of_fuel y h k = h

runs-by_mode : (val : Option String) (e : Expr) → runs (by_mode val e) ≡ true
unfolding by_mode
runs-by_mode val e = go e.mode
  where
    go :
        (m : Mode)
        → runs (elim m as (λ _. Expansion) [
          | default_mode ↦ expanded e.mod_val
          | error_mode ↦ failed (required e.var_name e.mod_val)
          | required_mode ↦ if is_some val then expanded "" else failed (not_set e.var_name)
        ])
          ≡ true
    go default_mode = refl
    go error_mode = refl
    go required_mode = ground arith

runs-resolve :
    (env : String → Option String) (start : ℕ) (e : Expr) → runs (resolve env start e) ≡ true
unfolding resolve
runs-resolve env start e = ground (arith, runs-by_mode (env e.var_name) e)

runs-expand_expr :
    (env : String → Option String) (expr : String) (start : ℕ)
    → runs (expand_expr env expr start) ≡ true
unfolding expand_expr
runs-expand_expr env expr start = ground (arith, runs-resolve env start (parse_expr expr))

-- Two loops that agree on every shorter text, and run.
abbrev Agree : ℕ → (ℕ → String → Expansion) → (ℕ → String → Expansion) → Type 0
Agree n k l = (pos : ℕ) (s : String) → count s < n → (k pos s ≡ l pos s) × (runs (k pos s) ≡ true)

module _ (env : String → Option String) (k l : ℕ → String → Expansion) where
  before-Agree :
      (n pos : ℕ) (s t : String)
      → Agree n k l
      → count s < n
      → (before t (k pos s) ≡ before t (l pos s)) × (runs (before t (k pos s)) ≡ true)
  before-Agree n pos s t h c =
      let (e, r) = h pos s c in (ap (λ x. before t x) e, runs-before t (k pos s) r)

  after_open-Agree :
      (n pos : ℕ) (o : Option (String × String))
      → Agree n k l
      → ((a b : String) → o ≡ some (a, b) → count b < n)
      → (after_open env k pos o ≡ after_open env l pos o) × (runs (after_open env k pos o) ≡ true)
  unfolding after_open
  after_open-Agree n pos none h short = (refl, refl)
  after_open-Agree n pos (some (a, b)) h short =
      let (e, r) = h (pos + 3 + len a) b (short a b refl) in
      (
        ap (λ x. followed_by (expand_expr env a pos) x) e,
        runs-followed_by (expand_expr env a pos) _ (runs-expand_expr env a pos) r,
      )

  after_dollar-Agree :
      (n pos : ℕ) (s : String)
      → Agree n k l
      → count s < n
      → (after_dollar env k pos s ≡ after_dollar env l pos s)
        × (runs (after_dollar env k pos s) ≡ true)
  unfolding after_dollar
  after_dollar-Agree n pos String.[] h c = before-Agree n (pos + 1) "" "$" h c
  after_dollar-Agree n pos (String.◌∷◌ d s) h c =
      let c' : count s < n = omega (arith, length-cons d s) in
      elim (Bool-cases (code d == b'$')) [
        | inl e ↦ rw (e, after_dollar) (before-Agree n (pos + 2) s "$" h c')
        | inr e ↦ elim (Bool-cases (code d == b'{')) [
          | inl f ↦
              rw (e, f, after_dollar)
                (after_open-Agree n pos (find_closing_brace 1 s) h
                  (λ a b q. omega (arith, c', find_closing_brace-count 1 s a b q)))
          | inr f ↦ rw (e, f, after_dollar) (before-Agree n (pos + 1) (String.◌∷◌ d s) "$" h c)
        ]
      ]

-- With more fuel than there are characters the loop ends, and more fuel changes nothing.
pub expand_from_agree :
    (env : String → Option String) (m n pos : ℕ) (s : String)
    → count s < m
    → count s < n
    → (expand_from env m pos s ≡ expand_from env n pos s) × (runs (expand_from env m pos s) ≡ true)
unfolding expand_from
expand_from_agree env zero n pos s h k = absurd (omega arith)
expand_from_agree env (suc m) zero pos s h k = absurd (omega arith)
expand_from_agree env (suc m) (suc n) pos String.[] h k = (refl, refl)
expand_from_agree env (suc m) (suc n) pos (String.◌∷◌ c s) h k =
    let shorter : Agree (suc (count s)) (expand_from env m) (expand_from env n) = λ pos t x.
      expand_from_agree env m n pos t (omega (arith, length-cons c s, h, x))
        (omega (arith, length-cons c s, k, x)) in
    elim (Bool-cases (code c == b'$')) [
      | inl e ↦
          rw (e, expand_from)
            (after_dollar-Agree env (expand_from env m) (expand_from env n) (suc (count s)) pos s
              shorter (omega arith))
      | inr e ↦
          rw (e, expand_from)
            (before-Agree env (expand_from env m) (expand_from env n) (suc (count s))
              (pos + len_utf8 c) s (one c) shorter (omega arith))
    ]

-- The expansion of a text never runs out of fuel, and more fuel gives the same.
pub expand_env_vars_ends :
    (env : String → Option String) (fuel : ℕ) (s : String)
    → count s < fuel
    → (expand_env_vars env s ≢ out_of_fuel) × (expand_from env fuel 0 s ≡ expand_env_vars env s)
unfolding expand_env_vars
expand_env_vars_ends env fuel s h =
    let (e, r) = expand_from_agree env (count s + 1) fuel 0 s (omega arith) h in
    (λ q. absurd (cc (q, r)), sym e)
