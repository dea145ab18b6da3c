-- ===== src/Common/Reorder.antt =====
-- Sorting by a strict order in which only equal items tie forgets how the list was ordered.
use Prim.Native.String.{String}
use mathlib.Core.Path.{◌≡◌, refl, sym, ap, ◌∙◌}
use mathlib.Core.Logic.{inl, inr}
use mathlib.Core.Bool.{Bool, true, false}
use mathlib.Core.List.{List, [], ◌∷◌, map, Permᴰ}
use native.Mathlib.Omega.{arith}
use text.Mathlib.TextEquality.{Char-path}
use loomcli.Common.Tests.{Bool-cases}
use loomcli.Common.Lists.{In}
use loomcli.Common.Sort.{
  str_ltb, str_ltb_asymm, str_ltb_neg_trans, IsStrictOrder, insert_by, sort_by,
}

pub str_ltb_tied : (s t : String) → str_ltb s t ≡ false → str_ltb t s ≡ false → s ≡ t
unfolding str_ltb
str_ltb_tied String.[] String.[] h k = refl
str_ltb_tied String.[] (String.◌∷◌ d t) h k = cc
str_ltb_tied (String.◌∷◌ c s) String.[] h k = cc
str_ltb_tied (String.◌∷◌ c s) (String.◌∷◌ d t) h k =
    cc (Char-path c d (ground arith), str_ltb_tied s t (ground arith) (ground arith))

pub str_ltb-IsStrictOrder : IsStrictOrder str_ltb
str_ltb-IsStrictOrder = record { asymm = str_ltb_asymm; neg_trans = str_ltb_neg_trans }

In-Permᴰ : {A : Type 0} {xs ys : List A} (z : A) → Permᴰ xs ys → In z ys → In z xs
In-Permᴰ z Permᴰ.nil m = m
In-Permᴰ z (Permᴰ.cons e p) m = ground (arith, e, In-Permᴰ z p)
In-Permᴰ z (Permᴰ.swap e f) m = ground (arith, e, f)
In-Permᴰ z (Permᴰ.trans p q) m = In-Permᴰ z p (In-Permᴰ z q m)

module _ {A : Type 0} (less : A → A → Bool) (o : IsStrictOrder less) where
  insert_by_less :
      (x y : A)
      → less x y ≡ true
      → (l : List A) → insert_by less x (insert_by less y l) ≡ insert_by less y (insert_by less x l)
  unfolding insert_by
  insert_by_less x y e [] = ground (arith, o.asymm x y)
  insert_by_less x y e (z ∷ l) =
      ground (arith, o.asymm x y, o.neg_trans z y x, insert_by_less x y e l)

  -- Items that tie only if they are equal.
  abbrev Untied : A → A → Type 0
  Untied a b = less a b ≡ false → less b a ≡ false → a ≡ b

  insert_by_comm :
      (x y : A)
      → Untied x y
      → (l : List A) → insert_by less x (insert_by less y l) ≡ insert_by less y (insert_by less x l)
  insert_by_comm x y u l = elim (Bool-cases (less x y)) [
    | inl e ↦ insert_by_less x y e l
    | inr e ↦ elim (Bool-cases (less y x)) [
      | inl f ↦ sym (insert_by_less y x f l)
      | inr f ↦ rw (u e f) refl
    ]
  ]

  abbrev pub AllUntied : List A → Type 0
  AllUntied l = (a b : A) → In a l → In b l → less a b ≡ false → less b a ≡ false → a ≡ b

  pub sort_by-Permᴰ :
      {xs ys : List A} → AllUntied xs → Permᴰ xs ys → sort_by less xs ≡ sort_by less ys
  unfolding sort_by
  sort_by-Permᴰ u Permᴰ.nil = refl
  sort_by-Permᴰ u (Permᴰ.cons e p) = cc (e, sort_by-Permᴰ (λ a b m n. u a b (inr m) (inr n)) p)
  sort_by-Permᴰ u (Permᴰ.swap {a} {b} {l = l} e f) =
      cc (e, f, insert_by_comm a b (u a b (inl refl) (inr (inl refl))) (sort_by less l))
  sort_by-Permᴰ u (Permᴰ.trans p q) =
      sort_by-Permᴰ u p ∙ sort_by-Permᴰ (λ a b m n. u a b (In-Permᴰ a p m) (In-Permᴰ b p n)) q

pub map-Permᴰ :
    {A B : Type 0} (f : A → B) {xs ys : List A} → Permᴰ xs ys → Permᴰ (map f xs) (map f ys)
map-Permᴰ f Permᴰ.nil = Permᴰ.nil
map-Permᴰ f (Permᴰ.cons e p) = Permᴰ.cons (ap f e) (map-Permᴰ f p)
map-Permᴰ f (Permᴰ.swap e g) = Permᴰ.swap (ap f e) (ap f g)
map-Permᴰ f (Permᴰ.trans p q) = Permᴰ.trans (map-Permᴰ f p) (map-Permᴰ f q)
