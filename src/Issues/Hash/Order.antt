-- ===== src/Issues/Hash/Order.antt =====
-- The order of labels, waiters, dependencies and comments does not reach the content hash of
-- internal/types/issue.go.
use mathlib.Core.List.{Permᴰ}
use loomcli.Common.{
  ◌≡◌, refl, ap, sym, pos, negsuc, AllUntied, ◌∙◌, false, List, [], ◌∷◌, String, ℤ, map, arith,
  str_ltb, ltb_ℤ, In, inl, inr, str_ltb-IsStrictOrder, str_ltb_tied, sort_by-Permᴰ, map-Permᴰ,
  IsStrictOrder,
}
use loomcli.Issues.{Issue, Dependency, Comment}
use loomcli.Issues.Hash.{
  Digest, sorted_strings, dependencies, dependency_key, comments, comment_key, comment_less,
  compute_content_hash, last_fields,
}

sorted_strings-Permᴰ : {xs ys : List String} → Permᴰ xs ys → sorted_strings xs ≡ sorted_strings ys
unfolding sorted_strings
sorted_strings-Permᴰ p =
    rw (sort_by-Permᴰ str_ltb str_ltb-IsStrictOrder (λ a b _ _. str_ltb_tied a b) p) refl

dependencies-Permᴰ : {xs ys : List Dependency} → Permᴰ xs ys → dependencies xs ≡ dependencies ys
unfolding dependencies
dependencies-Permᴰ p = sorted_strings-Permᴰ (map-Permᴰ dependency_key p)

comment_less-IsStrictOrder : IsStrictOrder comment_less
comment_less-IsStrictOrder = record {
  asymm = λ a b h. ground arith;
  neg_trans = λ a b c h k. ground arith;
}

-- Comments with one identifier are one comment.
abbrev pub DistinctIds : List Comment → Type 0
DistinctIds cs = (a b : Comment) → In a cs → In b cs → a.id ≡ b.id → a ≡ b

In-map :
    {A B : Type 0} (f : A → B) (b : B) (xs : List A)
    → In b (map f xs)
    → (a : A) × In a xs × (b ≡ f a)
In-map f b [] m = absurd m
In-map f b (x ∷ xs) (inl e) = (x, inl refl, e)
In-map f b (x ∷ xs) (inr m) = let (a, n, e) = In-map f b xs m in (a, inr n, e)

ℤ-tied : (a b : ℤ) → ltb_ℤ a b ≡ false → ltb_ℤ b a ≡ false → a ≡ b
ℤ-tied (pos a) (pos b) h k = ground arith
ℤ-tied (pos a) (negsuc b) h k = absurd (ground arith)
ℤ-tied (negsuc a) (pos b) h k = absurd (ground arith)
ℤ-tied (negsuc a) (negsuc b) h k = ground arith

same :
    (c e : Comment) (a b : ℤ × String)
    → a ≡ comment_key c
    → b ≡ comment_key e
    → a.0 ≡ b.0
    → c.id ≡ e.id
unfolding comment_key
same c e a b p q h = sym (ap (λ k. k.0) p) ∙ h ∙ ap (λ k. k.0) q

keys_untied :
    (xs : List Comment)
    → DistinctIds xs
    → AllUntied comment_less comment_less-IsStrictOrder (map comment_key xs)
keys_untied xs d a b m n h k =
    let (c, mc, ec) = In-map comment_key a xs m in
    let (e, me, ee) = In-map comment_key b xs n in
    ec ∙ ap comment_key (d c e mc me (same c e a b ec ee (ℤ-tied a.0 b.0 h k))) ∙ sym ee

comments-Permᴰ : {xs ys : List Comment} → DistinctIds xs → Permᴰ xs ys → comments xs ≡ comments ys
unfolding comments
comments-Permᴰ {xs} d p =
    rw
      (sort_by-Permᴰ comment_less comment_less-IsStrictOrder (keys_untied xs d)
        (map-Permᴰ comment_key p))
      refl

-- Issues that differ only in the order of their labels, dependencies, waiters and comments, of
-- which no two have one identifier, have the same content hash.
pub compute_content_hash-Permᴰ :
    (g : Digest) (i : Issue) {labels waiters : List String} {deps : List Dependency}
    {cs : List Comment}
    → Permᴰ i.labels labels
    → Permᴰ i.waiters waiters
    → Permᴰ i.dependencies deps
    → DistinctIds i.comments
    → Permᴰ i.comments cs
    → compute_content_hash g
        (record i { labels = labels; waiters = waiters; dependencies = deps; comments = cs })
      ≡ compute_content_hash g i
unfolding compute_content_hash last_fields
compute_content_hash-Permᴰ g i l w d u c =
    cc (sorted_strings-Permᴰ l, sorted_strings-Permᴰ w, dependencies-Permᴰ d, comments-Permᴰ u c)
