-- ===== src/Spawn/Lookup.antt =====
-- Lookups in environments of internal/cli/envfilter.go and daemon_spawn.go.
use mathlib.Core.Path.{Path}
use loomcli.Common.{
  ◌≡◌, refl, ap, ◌∙◌, Bool, true, false, Option, none, some, List, [], ◌∷◌, ◌++◌ as append, String,
  arith, str_eq, eq_iff, any, has, has-Lacks, cut-append, cut, if◌then◌else◌,
}
use loomcli.Spawn.Env.{
  allowed, allowed_entry, filter_env, entry, present, named, or_earlier, lookup_env,
}

or_earlier-none : {o : Option String} → or_earlier o none ≡ o
or_earlier-none {o = none} = refl
or_earlier-none {o = some v} = refl

or_earlier_assoc :
    (o p q : Option String) → or_earlier (or_earlier o p) q ≡ or_earlier o (or_earlier p q)
or_earlier_assoc none p q = refl
or_earlier_assoc (some v) p q = refl

pub lookup_env-append :
    (xs ys : List String) (name : String)
    → lookup_env (append xs ys) name ≡ or_earlier (lookup_env ys name) (lookup_env xs name)
unfolding lookup_env
lookup_env-append [] ys name = rw or_earlier-none refl
lookup_env-append (x ∷ xs) ys name =
    rw (lookup_env-append xs ys name) (or_earlier_assoc (lookup_env ys name) (lookup_env xs name) _)

named-entry :
    (n name v : String)
    → has "=" n ≡ false
    → named name (cut "=" (entry n v)) ≡ (if str_eq n name then some v else none)
unfolding named
named-entry n name v h = rw (cut-append "=" n v (has-Lacks "=" n h)) refl

-- The last value of a name that is set.
abbrev pub latest : List (String × Option String) → String → Option String
latest [] name = none
latest ((n, v) ∷ vs) name =
    let rest = latest vs name in if str_eq n name then or_earlier rest v else rest

pub lookup_env-present :
    (vs : List (String × Option String)) (name : String)
    → any (λ v. has "=" v.0) vs ≡ false
    → lookup_env (present vs) name ≡ latest vs name
unfolding lookup_env present
lookup_env-present [] name h = refl
lookup_env-present ((n, none) ∷ vs) name h =
    rw (lookup_env-present vs name (ground arith), or_earlier-none {o = latest vs name})
      (same (str_eq n name))
  where
    same : {o : Option String} (b : Bool) → o ≡ (if b then o else o)
    same true = refl
    same false = refl
lookup_env-present ((n, some v) ∷ vs) name h =
    rw (named-entry n name v (ground arith), lookup_env-present vs name (ground arith))
      (pick (latest vs name) (str_eq n name))
  where
    pick :
        (o : Option String) (b : Bool)
        → or_earlier o (if b then some v else none) ≡ (if b then or_earlier o (some v) else o)
    pick o true = refl
    pick o false = or_earlier-none

filter_env-cons :
    (e : String) (es : List String)
    → filter_env (e ∷ es) ≡ (if allowed_entry (cut "=" e) then e ∷ filter_env es else filter_env es)
unfolding filter_env
filter_env-cons e es = refl

by_tests :
    (o : Option String) (v : String) (same a b : Bool)
    → (same ≡ true → b ≡ a)
    → (if b
        then or_earlier (if a then o else none) (if same then some v else none)
        else (if a then o else none))
      ≡ (if a then or_earlier o (if same then some v else none) else none)
by_tests o v true a true h = rw (← h refl) refl
by_tests o v true a false h = rw (← h refl) refl
by_tests o v false true true h = refl
by_tests o v false true false h = rw or_earlier-none refl
by_tests o v false false true h = refl
by_tests o v false false false h = refl

-- An entry that is dropped has no name that is allowed, and one that is kept has.
named-allowed_entry :
    (name : String) (c : String × Option String) (o : Option String)
    → (if allowed_entry c
        then or_earlier (if allowed name then o else none) (named name c)
        else (if allowed name then o else none))
      ≡ (if allowed name then or_earlier o (named name c) else none)
named-allowed_entry name (n, none) o = unfold named allowed_entry in keep (allowed name)
  where
    keep : (b : Bool) → (if b then o else none) ≡ (if b then or_earlier o none else none)
    keep true = rw or_earlier-none refl
    keep false = refl
named-allowed_entry name (n, some v) o =
    unfold named allowed_entry in
    by_tests o v (str_eq n name) (allowed name) (allowed n) (λ e. ap allowed ((eq_iff n name).0 e))

-- A filtered environment shows exactly the variables that are allowed.
pub lookup_env-filter_env :
    (es : List String) (name : String)
    → lookup_env (filter_env es) name ≡ (if allowed name then lookup_env es name else none)
unfolding lookup_env
lookup_env-filter_env [] name = unfold filter_env in constant (allowed name)
  where
    constant : (b : Bool) → Path (Option String) none (if b then none else none)
    constant true = refl
    constant false = refl
lookup_env-filter_env (e ∷ es) name = rw (filter_env-cons e es) (
    split (allowed_entry (cut "=" e))
    ∙ rw (lookup_env-filter_env es name)
        (named-allowed_entry name (cut "=" e) (lookup_env es name)))
  where
    split :
        (b : Bool)
        → lookup_env (if b then e ∷ filter_env es else filter_env es) name ≡ (
            if b
            then or_earlier (lookup_env (filter_env es) name) (named name (cut "=" e))
            else lookup_env (filter_env es) name)
    split true = refl
    split false = refl
