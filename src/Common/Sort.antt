-- ===== src/Common/Sort.antt =====
-- Go's string order, and `sort.Slice` as insertion sort by a strict order.
use Prim.Native.String.{String}
use Prim.Native.Char.{code}
use mathlib.Core.Path.{◌≡◌, refl, sym, subst}
use mathlib.Core.Logic.{◌⊎◌, inl, inr, ◌↔◌}
use mathlib.Core.Bool.{Bool, true, false}
use mathlib.Core.Option.{Option, none, some}
use mathlib.Core.List.{List, [], ◌∷◌}
use native.Mathlib.Omega.{arith}
use loomcli.Common.Tests.{ltb, if◌then◌else◌, Bool-cases}
use loomcli.Common.Lists.{In}

-- `s < t` on strings: by code points, which is the order of their UTF-8 bytes.
unfoldable pub str_ltb : String → String → Bool
str_ltb String.[] String.[] = false
str_ltb String.[] (String.◌∷◌ d t) = true
str_ltb (String.◌∷◌ c s) String.[] = false
str_ltb (String.◌∷◌ c s) (String.◌∷◌ d t) =
    let rest = str_ltb s t in
    if ltb (code c) (code d) then true else if ltb (code d) (code c) then false else rest

pub str_ltb_asymm : (s t : String) → str_ltb s t ≡ true → str_ltb t s ≡ false
unfolding str_ltb
str_ltb_asymm String.[] String.[] h = refl
str_ltb_asymm String.[] (String.◌∷◌ d t) h = refl
str_ltb_asymm (String.◌∷◌ c s) String.[] h = cc
str_ltb_asymm (String.◌∷◌ c s) (String.◌∷◌ d t) h = ground (arith, str_ltb_asymm s t)

pub str_ltb_neg_trans :
    (s t u : String) → str_ltb s t ≡ false → str_ltb t u ≡ false → str_ltb s u ≡ false
unfolding str_ltb
str_ltb_neg_trans String.[] String.[] u h k = k
str_ltb_neg_trans String.[] (String.◌∷◌ d t) u h k = ground arith
str_ltb_neg_trans (String.◌∷◌ c s) String.[] String.[] h k = refl
str_ltb_neg_trans (String.◌∷◌ c s) String.[] (String.◌∷◌ e u) h k = ground arith
str_ltb_neg_trans (String.◌∷◌ c s) (String.◌∷◌ d t) String.[] h k = refl
str_ltb_neg_trans (String.◌∷◌ c s) (String.◌∷◌ d t) (String.◌∷◌ e u) h k =
    ground (arith, str_ltb_neg_trans s t u)

-- A strict weak order given by a test.
pub record IsStrictOrder {A : Type 0} (less : A → A → Bool) : Type 0 where
  pub asymm : (a b : A) → less a b ≡ true → less b a ≡ false
  pub neg_trans : (a b c : A) → less a b ≡ false → less b c ≡ false → less a c ≡ false

module _ {A : Type 0} where
  unfoldable pub insert_by : (A → A → Bool) → A → List A → List A
  insert_by less x [] = x ∷ []
  insert_by less x (y ∷ ys) =
      let rest = insert_by less x ys in if less y x then y ∷ rest else x ∷ y ∷ ys

  unfoldable pub sort_by : (A → A → Bool) → List A → List A
  sort_by less [] = []
  sort_by less (x ∷ xs) = insert_by less x (sort_by less xs)

  abbrev pub first? : List A → Option A
  first? [] = none
  first? (x ∷ xs) = some x

  -- Nothing in the list is less than its head.
  abbrev pub HeadLeast : (A → A → Bool) → List A → Type 0
  HeadLeast less [] = Unit {0}
  HeadLeast less (x ∷ xs) = (z : A) → In z (x ∷ xs) → less z x ≡ false

  pub In-insert_by :
      (less : A → A → Bool) (x z : A) (ys : List A)
      → In z (insert_by less x ys) ↔ ((z ≡ x) ⊎ In z ys)
  unfolding insert_by
  In-insert_by less x z [] = (λ h. h, λ h. h)
  In-insert_by less x z (y ∷ ys) = ground (arith, In-insert_by less x z ys)

  pub In-sort_by : (less : A → A → Bool) (z : A) (xs : List A) → In z (sort_by less xs) ↔ In z xs
  unfolding sort_by
  In-sort_by less z [] = (λ h. h, λ h. h)
  In-sort_by less z (x ∷ xs) =
      ground (arith, In-insert_by less x z (sort_by less xs), In-sort_by less z xs)

  less_irrefl : (less : A → A → Bool) → IsStrictOrder less → (a : A) → less a a ≡ false
  less_irrefl less o a = elim (Bool-cases (less a a)) [ inl e ↦ o.asymm a a e | inr e ↦ e ]

  HeadLeast-insert_by :
      (less : A → A → Bool)
      → IsStrictOrder less
      → (x : A) (ys : List A) → HeadLeast less ys
      → HeadLeast less (insert_by less x ys)
  unfolding insert_by
  HeadLeast-insert_by less o x [] h = λ z m. ground (arith, less_irrefl less o x)
  HeadLeast-insert_by less o x (y ∷ ys) h = elim (Bool-cases (less y x)) [
    | inl e ↦ rw e λ z m. ground (arith, In-insert_by less x z ys, h z, o.asymm y x e)
    | inr e ↦ rw e λ z m. ground (arith, h z, o.neg_trans z y x, less_irrefl less o x)
  ]

  HeadLeast-sort_by :
      (less : A → A → Bool) → IsStrictOrder less → (xs : List A) → HeadLeast less (sort_by less xs)
  unfolding sort_by
  HeadLeast-sort_by less o [] = tt
  HeadLeast-sort_by less o (x ∷ xs) = HeadLeast-insert_by less o x _ (HeadLeast-sort_by less o xs)

  -- The first element after sorting is one of the list, and none is less.
  pub first?-sort_by :
      (less : A → A → Bool)
      → IsStrictOrder less
      → (xs : List A) (b : A) → first? (sort_by less xs) ≡ some b
      → In b xs × ((z : A) → In z xs → less z b ≡ false)
  first?-sort_by less o xs b e = split (sort_by less xs) refl e
    where
      split :
          (l : List A)
          → sort_by less xs ≡ l
          → first? l ≡ some b
          → In b xs × ((z : A) → In z xs → less z b ≡ false)
      split [] el e = cc
      split (y ∷ ys) el e = (
        (In-sort_by less b xs).0 (rw el (inl (ground arith))),
        λ z m. rw (sym (some_inj e)) (
            (subst (HeadLeast less) el (HeadLeast-sort_by less o xs)) z
              (subst (In z) el ((In-sort_by less z xs).1 m))),
      )
        where
          some_inj : some y ≡ some b → y ≡ b
          some_inj q = cc

  -- Sorting loses nothing: only the empty list has no first element.
  pub first?-sort_by-none :
      (less : A → A → Bool) (xs : List A) → first? (sort_by less xs) ≡ none → xs ≡ []
  unfolding sort_by insert_by
  first?-sort_by-none less [] e = refl
  first?-sort_by-none less (x ∷ xs) e = split (sort_by less xs) e
    where
      split : (l : List A) → first? (insert_by less x l) ≡ none → x ∷ xs ≡ []
      split [] e = cc
      split (y ∷ ys) e = ground arith
