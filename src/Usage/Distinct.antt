-- ===== src/Usage/Distinct.antt =====
-- The total of internal/usage/collector.go counts each message once.
use loomcli.Common.{
  ◌≡◌, ◌≢◌, ◌⊎◌, ◌↔◌, refl, sym, ap, ◌∙◌, true, false, List, [], ◌∷◌, String, str_eq, str_ne,
  eq_iff, eq_refl, arith, Bool-cases, inl, inr, if◌then◌else◌, In,
}
use loomcli.Usage.{Tokens, Collector, no_tokens, added, mark, new_collector, accumulate}

abbrev pub accumulate_all : Collector → List (String × Tokens) → Collector
accumulate_all c [] = c
accumulate_all c ((id, t) ∷ es) = accumulate_all (accumulate c id t) es

-- All events of one message report the same tokens.
abbrev pub ReportsAlike : (String → Tokens) → List (String × Tokens) → Type 0
ReportsAlike f [] = Unit {0}
ReportsAlike f ((id, t) ∷ es) = ((id ≡ "") ⊎ (t ≡ f id)) × ReportsAlike f es

abbrev pub IsReported : String → List (String × Tokens) → Type 0
IsReported k [] = ⊥
IsReported k ((id, t) ∷ es) = (id ≡ k) ⊎ IsReported k es

abbrev pub Distinct : List String → Type 0
Distinct [] = Unit {0}
Distinct (k ∷ ks) = (In k ks → ⊥) × Distinct ks

-- What the events without an identifier report together.
abbrev pub unnamed : List (String × Tokens) → Tokens
unnamed [] = no_tokens
unnamed ((id, t) ∷ es) = if str_eq id "" then added t (unnamed es) else unnamed es

-- What messages report together, each once.
abbrev pub total : (String → Tokens) → List String → Tokens
total f [] = no_tokens
total f (k ∷ ks) = added (f k) (total f ks)

without : String → List String → List String
without id [] = []
without id (k ∷ ks) = let rest = without id ks in if str_eq k id then rest else k ∷ rest

In-without : (id k : String) (ks : List String) → In k (without id ks) → In k ks × (k ≢ id)
unfolding without
In-without id k [] i = absurd i
In-without id k (j ∷ ks) i = elim (Bool-cases (str_eq j id)) [
  | inl e ↦ let r = In-without id k ks (rw e at i) in (inr r.0, r.1)
  | inr e ↦ elim (first e i) [
    | inl q ↦ (inl q, λ p. cc (e, (eq_iff j id).1 (sym q ∙ p)))
    | inr m ↦ let r = In-without id k ks m in (inr r.0, r.1)
  ]
]
  where
    first : str_eq j id ≡ false → In k (without id (j ∷ ks)) → (k ≡ j) ⊎ In k (without id ks)
    first e m = rw e at m

without-In : (id k : String) (ks : List String) → In k ks → k ≢ id → In k (without id ks)
unfolding without
without-In id k [] i n = absurd i
without-In id k (j ∷ ks) i n = elim (Bool-cases (str_eq j id)) [
  | inl e ↦
      rw e (elim i [ inl q ↦ absurd (n (q ∙ (eq_iff j id).0 e)) | inr m ↦ without-In id k ks m n ])
  | inr e ↦ rw e (elim i [ inl q ↦ inl q | inr m ↦ inr (without-In id k ks m n) ])
]

without-Distinct : (id : String) (ks : List String) → Distinct ks → Distinct (without id ks)
unfolding without
without-Distinct id [] d = tt
without-Distinct id (j ∷ ks) d = elim (Bool-cases (str_eq j id)) [
  | inl e ↦ rw e (without-Distinct id ks d.1)
  | inr e ↦ rw e (λ i. d.0 (In-without id j ks i).0, without-Distinct id ks d.1)
]

-- Nothing is taken out of a list without the identifier.
without_absent : (id : String) (ks : List String) → (In id ks → ⊥) → without id ks ≡ ks
unfolding without
without_absent id [] n = refl
without_absent id (j ∷ ks) n =
    rw (str_ne j id (λ e. n (inl (sym e))))
      (ap (λ l. j ∷ l) (without_absent id ks (λ i. n (inr i))))

total-without :
    (f : String → Tokens) (id : String) (ks : List String)
    → Distinct ks
    → In id ks
    → total f ks ≡ added (f id) (total f (without id ks))
unfolding without
total-without f id [] d i = absurd i
total-without f id (j ∷ ks) d (inl q) =
    rw (← q) (rw (eq_refl id) (rw (without_absent id ks (λ i. d.0 (rw q at i))) refl))
total-without f id (j ∷ ks) d (inr i) =
    rw (str_ne j id (λ e. d.0 (rw (← e) at i))) (ground (arith, total-without f id ks d.1 i))

-- The list has the messages that are reported and not counted yet.
record Lists (c : Collector) (es : List (String × Tokens)) (ids : List String) : Type 0 where
  pub distinct : Distinct ids
  pub named : (k : String) → In k ids → k ≢ ""
  pub uncounted : (k : String) → In k ids → c.seen k ≡ false
  pub reported : (k : String) → In k ids → IsReported k es
  pub complete : (k : String) → k ≢ "" → c.seen k ≡ false → IsReported k es → In k ids

module _ (c : Collector) (id : String) (t : Tokens) (es : List (String × Tokens))
    (ids : List String) where
  -- An event that is not of an uncounted message leaves the list as it is.
  Lists-same :
      (u : Tokens)
      → ((k : String) → k ≢ "" → c.seen k ≡ false → id ≢ k)
      → Lists c ((id, t) ∷ es) ids
      → Lists (record c { tokens = u }) es ids
  Lists-same u other l = record {
    distinct = l.distinct;
    named = l.named;
    uncounted = l.uncounted;
    reported = λ k i. elim (l.reported k i) [
      | inl e ↦ absurd (other k (l.named k i) (l.uncounted k i) e)
      | inr m ↦ m
    ];
    complete = λ k n s m. l.complete k n s (inr m);
  }

  -- An event of an uncounted message takes it from the list.
  Lists-without :
      (u : Tokens)
      → Lists c ((id, t) ∷ es) ids
      → Lists (record c { tokens = u; seen = mark c.seen id }) es (without id ids)
  Lists-without u l = record {
    distinct = without-Distinct id ids l.distinct;
    named = λ k i. l.named k (In-without id k ids i).0;
    uncounted = λ k i.
        let r = In-without id k ids i in rw (str_ne id k (λ e. r.1 (sym e))) (l.uncounted k r.0);
    reported = λ k i.
        let r = In-without id k ids i in
        elim (l.reported k r.0) [ inl e ↦ absurd (r.1 (sym e)) | inr m ↦ m ];
    complete = λ k n s m. elim (Bool-cases (str_eq id k)) [
      | inl e ↦ absurd (ground (arith, e, s))
      | inr e ↦
          without-In id k ids (l.complete k n (rw e at s) (inr m))
            (λ q. cc (e, (eq_iff id k).1 (sym q)))
    ];
  }

Lists-nil : (c : Collector) (ids : List String) → Lists c [] ids → ids ≡ []
Lists-nil c [] l = refl
Lists-nil c (k ∷ ks) l = absurd (l.reported k (inl refl))

added_regroup : (a t u v : Tokens) → added (added a t) (added u v) ≡ added a (added (added t u) v)
added_regroup a t u v = ground arith

added_between : (a t u v : Tokens) → added (added a t) (added u v) ≡ added a (added u (added t v))
added_between a t u v = ground arith

-- The three ways of an event.
module _ (c : Collector) (id : String) (t : Tokens) where
  accumulate_unnamed :
      str_eq id "" ≡ true → accumulate c id t ≡ record c { tokens = added c.tokens t }
  unfolding accumulate
  accumulate_unnamed e = rw e refl

  accumulate_again : str_eq id "" ≡ false → c.seen id ≡ true → accumulate c id t ≡ c
  unfolding accumulate
  accumulate_again e s = rw (e, s) refl

  accumulate_new :
      str_eq id "" ≡ false
      → c.seen id ≡ false
      → accumulate c id t ≡ record c { tokens = added c.tokens t; seen = mark c.seen id }
  unfolding accumulate
  accumulate_new e s = rw (e, s) refl

unnamed_cons :
    (id : String) (t : Tokens) (es : List (String × Tokens))
    → str_eq id "" ≡ false
    → unnamed ((id, t) ∷ es) ≡ unnamed es
unnamed_cons id t es e = ap (λ x. if x then added t (unnamed es) else unnamed es) e

accumulate_all_from :
    (c : Collector) (f : String → Tokens) (es : List (String × Tokens)) (ids : List String)
    → ReportsAlike f es
    → Lists c es ids
    → (accumulate_all c es).tokens ≡ added c.tokens (added (unnamed es) (total f ids))
accumulate_all_from c f [] ids h l = rw (Lists-nil c ids l) (ground arith)
accumulate_all_from c f ((id, t) ∷ es) ids h l = elim (Bool-cases (str_eq id "")) [
  | inl e ↦
      let c' = record c { tokens = added c.tokens t } in
      ap (λ x. (accumulate_all x es).tokens) (accumulate_unnamed c id t e)
      ∙ accumulate_all_from c' f es ids h.1 (
          Lists-same c id t es ids (added c.tokens t) (λ k n s q. n (sym q ∙ (eq_iff id "").0 e)) l)
      ∙ added_regroup c.tokens t (unnamed es) (total f ids)
      ∙ ap
          (λ x.
            added c.tokens (added (if x then added t (unnamed es) else unnamed es) (total f ids)))
          (sym e)
  | inr e ↦ elim (Bool-cases (c.seen id)) [
    | inl s ↦
        ap (λ x. (accumulate_all x es).tokens) (accumulate_again c id t e s)
        ∙ accumulate_all_from c f es ids h.1
            (Lists-same c id t es ids c.tokens (λ k n q m. cc (q, s, ap c.seen m)) l)
        ∙ ap (λ x. added c.tokens (added x (total f ids))) (sym (unnamed_cons id t es e))
    | inr s ↦
        let c' = record c { tokens = added c.tokens t; seen = mark c.seen id } in
        let rest = total f (without id ids) in
        let named : id ≢ "" = λ q. cc (e, (eq_iff id "").1 q) in
        let alike : t ≡ f id = elim h.0 [ inl q ↦ absurd (named q) | inr q ↦ q ] in
        let counted = total-without f id ids l.distinct (l.complete id named s (inl refl)) in
        ap (λ x. (accumulate_all x es).tokens) (accumulate_new c id t e s)
        ∙ accumulate_all_from c' f es (without id ids) h.1
            (Lists-without c id t es ids (added c.tokens t) l)
        ∙ added_between c.tokens t (unnamed es) rest
        ∙ ap (λ x. added c.tokens (added (unnamed es) x))
            (ap (λ x. added x rest) alike ∙ sym counted)
        ∙ ap (λ x. added c.tokens (added x (total f ids))) (sym (unnamed_cons id t es e))
  ]
]

-- If all the events of a message report the same tokens, a session has used what the events without an
-- identifier report together and what each message with one reports, counted once, for any list of
-- these messages that has no repetition. So neither repeated events nor their order matter.
pub accumulate_all_counts :
    (backend agent : String) (f : String → Tokens) (es : List (String × Tokens)) (ids : List String)
    → ReportsAlike f es
    → Distinct ids
    → ((k : String) → In k ids ↔ (k ≢ "") × IsReported k es)
    → (accumulate_all (new_collector backend agent) es).tokens ≡ added (unnamed es) (total f ids)
accumulate_all_counts backend agent f es ids h d each =
    accumulate_all_from (new_collector backend agent) f es ids h (record {
      distinct = d;
      named = λ k i. ((each k).0 i).0;
      uncounted = λ k i. refl;
      reported = λ k i. ((each k).0 i).1;
      complete = λ k n s m. (each k).1 (n, m);
    })
    ∙ ground arith
