-- ===== src/Issues/Entity/RoundTrip.antt =====
-- The round trips of EntityRef.URI and ParseEntityURI, internal/types/relations.go.
use Prim.Native.String.{◌++◌}
use loomcli.Common.{
  String, List, [], ◌∷◌, ◌≡◌, ◌≢◌, refl, Option, none, some, arith, Lacks, strip, cut, cut-append,
  cut-some, strip-append, strip-some, str_ne,
}
use loomcli.Issues.{EntityRef}
use loomcli.Issues.Entity.{
  uri, parse_entity_uri, behind_prefix, ok, with_rest, split_cuts, three_parts,
}

-- An entity with a platform, an organization and an id, of which the first two have no slash, is
-- read back from its URI, less its name.
pub parse_entity_uri-uri :
    (e : EntityRef)
    → e.platform ≢ ""
    → e.org ≢ ""
    → e.id ≢ ""
    → Lacks "/" e.platform
    → Lacks "/" e.org
    → parse_entity_uri (uri (some e)) ≡ ok (record e { name = "" })
unfolding uri parse_entity_uri
parse_entity_uri-uri e hp ho hi lp lo =
    rw
      (
        str_ne e.platform "" hp,
        str_ne e.org "" ho,
        str_ne e.id "" hi,
        strip-append "entity://hop/" (e.platform ++ "/" ++ e.org ++ "/" ++ e.id),
        cut-append "/" e.platform (e.org ++ "/" ++ e.id) lp,
        cut-append "/" e.org e.id lo,
        str_ne e.platform "" hp,
        str_ne e.org "" ho,
        str_ne e.id "" hi,
      )
      refl

three_parts-ok :
    (l : List String) (e : EntityRef)
    → three_parts l ≡ ok e
    → (l ≡ e.platform ∷ e.org ∷ e.id ∷ [])
      × (uri (some e) ≡ "entity://hop/" ++ e.platform ++ "/" ++ e.org ++ "/" ++ e.id)
      × (e.name ≡ "")
unfolding three_parts uri
three_parts-ok [] e h = ground arith
three_parts-ok (p ∷ []) e h = ground arith
three_parts-ok (p ∷ o ∷ []) e h = ground arith
three_parts-ok (p ∷ o ∷ i ∷ j ∷ l) e h = ground arith
three_parts-ok (p ∷ o ∷ i ∷ []) e h = ground arith

-- Two parts or more come of a cut.
with_rest_two :
    (s : String) (k : String → List String) (p q : String) (l : List String)
    → with_rest (cut "/" s) k ≡ p ∷ q ∷ l
    → (r : String) × (s ≡ p ++ "/" ++ r) × (Lacks "/" p) × (k r ≡ q ∷ l)
unfolding with_rest
with_rest_two s k p q l h = go (cut "/" s) refl h
  where
    go :
        (c : String × Option String)
        → cut "/" s ≡ c
        → with_rest c k ≡ p ∷ q ∷ l
        → (r : String) × (s ≡ p ++ "/" ++ r) × (Lacks "/" p) × (k r ≡ q ∷ l)
    go (a, none) e h = ground arith
    go (a, some r) e h =
        let c = cut-some "/" s r (cc e) in
        let ep : (cut "/" s).0 ≡ p = cc (e, h) in (r, rw (← ep) c.0, rw (← ep) c.1, cc h)

split_cuts_three :
    (s p o i : String)
    → split_cuts 2 "/" s ≡ p ∷ o ∷ i ∷ []
    → (s ≡ p ++ "/" ++ o ++ "/" ++ i) × Lacks "/" p × Lacks "/" o
unfolding split_cuts
split_cuts_three s p o i h =
    let (r, e, lp, h₁) = with_rest_two s (split_cuts 1 "/") p o (i ∷ []) h in
    let (t, f, lo, h₂) = with_rest_two r (split_cuts 0 "/") o i [] h₁ in
    let g : t ≡ i = cc h₂ in (cc (e, f, g), lp, lo)

-- Whatever text is parsed without an error is the URI of the entity that it gives, which has no name
-- and no slash in its platform and organization.
uri-parse_entity_uri :
    (u : String) (e : EntityRef)
    → parse_entity_uri u ≡ ok e
    → (uri (some e) ≡ u) × (e.name ≡ "") × Lacks "/" e.platform × Lacks "/" e.org
unfolding parse_entity_uri
uri-parse_entity_uri u e h = go (strip "entity://hop/" u) refl h
  where
    go :
        (r : Option String)
        → strip "entity://hop/" u ≡ r
        → behind_prefix r ≡ ok e
        → (uri (some e) ≡ u) × (e.name ≡ "") × Lacks "/" e.platform × Lacks "/" e.org
    go none q h = ground arith
    go (some r) q h =
        let t = three_parts-ok (split_cuts 2 "/" r) e h in
        let p = split_cuts_three r e.platform e.org e.id t.0 in
        let w = strip-some "entity://hop/" u r q in (cc (t.1, p.0, w), t.2, p.1, p.2)
