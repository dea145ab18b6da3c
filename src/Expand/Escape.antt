-- ===== src/Expand/Escape.antt =====
-- What ExpandEnvVars of internal/cli/config_envsubst.go writes for texts and for variables.
use Prim.Native.Char.{Char, code, len_utf8}
use Prim.Native.String.{len, count, ◌++◌}
use text.Mathlib.TextLemmas.{length-cons, cons-append, nil-append, append-nil}
use text.Mathlib.TextEquality.{Char-path}
use loomcli.Common.{
  ℕ, zero, suc, ◌+◌, ◌<◌, ◌≡◌, ◌≢◌, refl, subst, true, false, Option, none, some, String, ◌==◌,
  arith, ap, ◌∙◌, Bool-cases, inl, inr, if◌then◌else◌, Lacks, str_ne, contains,
}
use loomcli.Expand.Loop.{find_closing_brace-count}
use loomcli.Expand.{
  expanded, find_closing_brace, cut_at, parse_expr, expand_expr, after_open, after_dollar,
  expand_from, expand_env_vars,
}

-- A text with every dollar sign doubled.
pub escape : String → String
escape String.[] = ""
escape (String.◌∷◌ c s) =
    let rest = escape s in
    if code c == b'$' then String.◌∷◌ c (String.◌∷◌ c rest) else String.◌∷◌ c rest

pub escape-Lacks : (s : String) → Lacks "$" s → escape s ≡ s
unfolding escape
escape-Lacks String.[] h = refl
escape-Lacks (String.◌∷◌ c s) h = ground (arith, escape-Lacks s h.1)

-- With fuel for it, `r` is expanded to `t`.
abbrev ExpandsTo : (String → Option String) → String → String → Type 0
ExpandsTo env r t = (fuel pos : ℕ) → count r < fuel → expand_from env fuel pos r ≡ expanded t

ExpandsTo-nil : (env : String → Option String) → ExpandsTo env "" ""
unfolding expand_from
ExpandsTo-nil env zero pos h = absurd (omega arith)
ExpandsTo-nil env (suc fuel) pos h = refl

ExpandsTo-cons :
    (env : String → Option String) (c : Char) (r t : String)
    → code c == b'$' ≡ false
    → ExpandsTo env r t
    → ExpandsTo env (String.◌∷◌ c r) (String.◌∷◌ c t)
unfolding expand_from
ExpandsTo-cons env c r t e x zero pos h = absurd (omega arith)
ExpandsTo-cons env c r t e x (suc fuel) pos h =
    rw (e, expand_from, x fuel (pos + len_utf8 c) (omega (arith, length-cons c r, h)))
      (rw (cons-append, nil-append) refl)

dollar_cons : (c : Char) (t : String) → code c == b'$' ≡ true → "$" ++ t ≡ String.◌∷◌ c t
dollar_cons c t e =
    let q : c ≡ "$" = Char-path c "$" (ground arith) in
    rw q (cons-append "$" "" t ∙ rw nil-append refl)

ExpandsTo-dollar :
    (env : String → Option String) (c : Char) (r t : String)
    → code c == b'$' ≡ true
    → ExpandsTo env r t
    → ExpandsTo env (String.◌∷◌ c (String.◌∷◌ c r)) (String.◌∷◌ c t)
unfolding expand_from
ExpandsTo-dollar env c r t e x zero pos h = absurd (omega arith)
ExpandsTo-dollar env c r t e x (suc fuel) pos h =
    rw (e, expand_from)
      (rw
        (
          e,
          after_dollar,
          x fuel (pos + 2) (omega (arith, length-cons c r, length-cons c (String.◌∷◌ c r), h)),
        )
        (ap expanded (dollar_cons c t e)))

ExpandsTo-escape :
    (env : String → Option String) (p r t : String)
    → ExpandsTo env r t
    → ExpandsTo env (escape p ++ r) (p ++ t)
unfolding escape
ExpandsTo-escape env String.[] r t x = rw (nil-append r, nil-append t) x
ExpandsTo-escape env (String.◌∷◌ c p) r t x = elim (Bool-cases (code c == b'$')) [
  | inl e ↦
      rw
        (
          e,
          cons-append c (String.◌∷◌ c (escape p)) r,
          cons-append c (escape p) r,
          cons-append c p t,
        )
        (ExpandsTo-dollar env c (escape p ++ r) (p ++ t) e (ExpandsTo-escape env p r t x))
  | inr e ↦
      rw (e, cons-append c (escape p) r, cons-append c p t)
        (ExpandsTo-cons env c (escape p ++ r) (p ++ t) e (ExpandsTo-escape env p r t x))
]

-- A text in which every dollar sign is doubled is expanded to the text itself.
pub expand_env_vars-escape :
    (env : String → Option String) (s : String) → expand_env_vars env (escape s) ≡ expanded s
unfolding expand_env_vars
expand_env_vars-escape env s =
    (subst (λ r. ExpandsTo env r s) (append-nil (escape s))
        (subst (ExpandsTo env (escape s ++ "")) (append-nil s)
          (ExpandsTo-escape env s "" "" (ExpandsTo-nil env))))
      (count (escape s) + 1) 0 (omega arith)

-- The name of a variable, with none of the characters that have a meaning in an expression.
abbrev pub IsName : String → Type 0
IsName name = (name ≢ "") × Lacks "$" name × Lacks "{" name × Lacks "}" name × Lacks ":" name

find_closing_brace-name :
    (name r : String)
    → Lacks "{" name
    → Lacks "}" name
    → find_closing_brace 1 (name ++ "}" ++ r) ≡ some (name, r)
unfolding find_closing_brace
find_closing_brace-name String.[] r o c = rw (nil-append, cons-append "}" "" r, nil-append) refl
find_closing_brace-name (String.◌∷◌ d s) r o c =
    rw (cons-append d s ("}" ++ r)) (ground (arith, find_closing_brace-name s r o.1 c.1))

cut_at-colon : (c : Char) (sub name : String) → Lacks c name → cut_at (String.◌∷◌ c sub) name ≡ none
unfolding cut_at
cut_at-colon c sub String.[] l = refl
cut_at-colon c sub (String.◌∷◌ d s) l = ground (arith, cut_at-colon c sub s l.1)

contains-Lacks :
    (c : Char) (sub name : String) → Lacks c name → contains name (String.◌∷◌ c sub) ≡ false
unfolding contains
contains-Lacks c sub String.[] l = refl
contains-Lacks c sub (String.◌∷◌ d s) l = ground (arith, contains-Lacks c sub s l.1)

expand_expr-name :
    (env : String → Option String) (name v : String) (start : ℕ)
    → IsName name
    → env name ≡ some v
    → v ≢ ""
    → expand_expr env name start ≡ expanded v
unfolding expand_expr parse_expr
expand_expr-name env name v start n e w =
    rw
      (
        str_ne name "" n.0,
        contains-Lacks "$" "{" name n.1,
        cut_at-colon ":" "-" name n.4,
        cut_at-colon ":" "?" name n.4,
        str_ne name "" n.0,
        e,
        str_ne v "" w,
      )
      refl

ExpandsTo-variable :
    (env : String → Option String) (name v r t : String)
    → IsName name
    → env name ≡ some v
    → v ≢ ""
    → ExpandsTo env r t
    → ExpandsTo env ("${" ++ name ++ "}" ++ r) (v ++ t)
unfolding expand_from
ExpandsTo-variable env name v r t n e w x zero pos h = absurd (omega arith)
ExpandsTo-variable env name v r t n e w x (suc fuel) pos h =
    let f = find_closing_brace-name name r n.2 n.3 in
    let open_eq : "${" ++ name ++ "}" ++ r ≡ String.◌∷◌ "$" (String.◌∷◌ "{" (name ++ "}" ++ r)) =
      cons-append "$" "{" (name ++ "}" ++ r)
      ∙ ap (λ s. String.◌∷◌ "$" s)
          (cons-append "{" "" (name ++ "}" ++ r)
            ∙ ap (λ s. String.◌∷◌ "{" s) (nil-append (name ++ "}" ++ r))) in
    let shorter : count r < fuel = omega (
      arith,
      h,
      ap count open_eq,
      length-cons "$" (String.◌∷◌ "{" (name ++ "}" ++ r)),
      length-cons "{" (name ++ "}" ++ r),
      find_closing_brace-count 1 (name ++ "}" ++ r) name r f,
    ) in
    rw open_eq (
      rw
        (
          after_dollar,
          f,
          after_open,
          expand_expr-name env name v pos n e w,
          x fuel (pos + 3 + len name) shorter,
        )
        refl)

-- A reference to a variable with a value gives that value, whatever stands in it, between the texts on
-- both sides, whose dollar signs are doubled.
pub expand_env_vars_variable :
    (env : String → Option String) (name v p q : String)
    → IsName name
    → env name ≡ some v
    → v ≢ ""
    → expand_env_vars env (escape p ++ "${" ++ name ++ "}" ++ escape q) ≡ expanded (p ++ v ++ q)
unfolding expand_env_vars
expand_env_vars_variable env name v p q n e w =
    let tail : ExpandsTo env (escape q) q =
      subst (λ r. ExpandsTo env r q) (append-nil (escape q))
        (subst (ExpandsTo env (escape q ++ "")) (append-nil q)
          (ExpandsTo-escape env q "" "" (ExpandsTo-nil env))) in
    ExpandsTo-escape env p ("${" ++ name ++ "}" ++ escape q) (v ++ q)
      (ExpandsTo-variable env name v (escape q) q n e w tail)
      (count (escape p ++ "${" ++ name ++ "}" ++ escape q) + 1) 0 (omega arith)
