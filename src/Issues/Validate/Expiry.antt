-- ===== src/Issues/Validate/Expiry.antt =====
-- Issue.SetDefaults and Issue.IsExpired of internal/types/issue.go.
use loomcli.Common.{
  ◌≡◌, refl, true, false, Option, none, some, ℤ, pos, ◌≤ℤ◌, ◌<ℤ◌, ◌+ℤ◌, +ℤ_sum, arith, str_eq,
  eq_iff, wrap64, two63, two64, negsuc, ◌-◌, ltb_ℤ, List, [], ◌∷◌, In, any, String, if◌then◌else◌,
}
use loomcli.Issues.{Issue}
use loomcli.Issues.Enums.{statuses, issue_types}
use loomcli.Issues.Validate.Accepted.{validate_with_custom_iff}
use loomcli.Issues.Validate.{
  is_expired, expired_at, effective_ttl, hour, set_defaults, validate, validate_with_custom,
}

-- The time to live is not shortened, if it and the grace fit 64 bits.
effective_ttl_long :
    (ttl : ℤ) → pos 0 <ℤ ttl → ttl +ℤ pos hour <ℤ pos two63 → ttl ≤ℤ effective_ttl ttl
unfolding effective_ttl wrap64
effective_ttl_long ttl h k = ground arith

expired_at_after :
    (d ttl now : ℤ)
    → pos 0 <ℤ ttl
    → expired_at (some d) ttl now ≡ true
    → d +ℤ effective_ttl ttl <ℤ now
unfolding expired_at
expired_at_after d ttl now h e = ground arith

-- A time to live that is positive and leaves room for the grace of an hour in 64 bits is given to
-- every tombstone: an expired issue is a tombstone whose deletion and time to live are over.
is_expired_late :
    (i : Issue) (ttl now : ℤ)
    → pos 0 <ℤ ttl
    → ttl +ℤ pos hour <ℤ pos two63
    → is_expired i ttl now ≡ true
    → (deleted : ℤ) × (i.status ≡ "tombstone")
      × (i.deleted_at ≡ some deleted)
      × (deleted +ℤ ttl <ℤ now)
unfolding is_expired
is_expired_late i ttl now h k e = go i.deleted_at refl
  where
    go :
        (d : Option ℤ)
        → i.deleted_at ≡ d
        → (deleted : ℤ) × (i.status ≡ "tombstone")
          × (i.deleted_at ≡ some deleted)
          × (deleted +ℤ ttl <ℤ now)
    go none q = absurd (ground (arith, q))
    go (some d) q = (d, ground (arith, eq_iff i.status "tombstone"), q, late d (ground (arith, q)))
      where
        late : (d : ℤ) → expired_at (some d) ttl now ≡ true → d +ℤ ttl <ℤ now
        late d x =
            let w = effective_ttl_long ttl h k in
            let y : d +ℤ effective_ttl ttl <ℤ now = expired_at_after d ttl now h x in
            omega (arith, w, y, +ℤ_sum d ttl, +ℤ_sum d (effective_ttl ttl))

effective_ttl_wraps :
    (ttl : ℤ)
    → ttl <ℤ pos two63
    → pos two63 ≤ℤ ttl +ℤ pos hour
    → effective_ttl ttl ≡ ttl +ℤ pos hour +ℤ negsuc (two64 - 1)
unfolding effective_ttl wrap64
effective_ttl_wraps (pos n) h k = ground arith
effective_ttl_wraps (negsuc n) h k = absurd (ground arith)

-- A time to live within an hour of the largest of 64 bits wraps with the grace: every tombstone is
-- expired from its deletion on.
is_expired_wraps :
    (i : Issue) (deleted ttl now : ℤ)
    → i.status ≡ "tombstone"
    → i.deleted_at ≡ some deleted
    → ttl <ℤ pos two63
    → pos two63 ≤ℤ ttl +ℤ pos hour
    → deleted ≤ℤ now
    → is_expired i ttl now ≡ true
unfolding is_expired expired_at
is_expired_wraps i deleted ttl now s d h k l =
    rw (s, d) (wraps ttl h k (effective_ttl_wraps ttl h k))
  where
    wraps :
        (ttl : ℤ)
        → ttl <ℤ pos two63
        → pos two63 ≤ℤ ttl +ℤ pos hour
        → effective_ttl ttl ≡ ttl +ℤ pos hour +ℤ negsuc (two64 - 1)
        → (if ltb_ℤ ttl (pos 0) then true else ltb_ℤ (deleted +ℤ effective_ttl ttl) now) ≡ true
    wraps ttl h k e = rw e (
        ground (
          arith,
          +ℤ_sum deleted (ttl +ℤ pos hour +ℤ negsuc (two64 - 1)),
          +ℤ_sum (ttl +ℤ pos hour) (negsuc (two64 - 1)),
          +ℤ_sum ttl (pos hour),
        ))

-- An issue that validation accepts has nothing left to default.
set_defaults-validate : (i : Issue) → validate i ≡ none → set_defaults i ≡ i
unfolding set_defaults validate validate_with_custom
set_defaults-validate i h =
    let (c, t, _) = (validate_with_custom_iff [] [] i).0 h in
    rw
      (
        named i.status statuses refl (ground (arith, c)),
        named i.issue_type issue_types refl (ground (arith, t)),
      )
      refl
  where
    named :
        (s : String) (values : List String)
        → any (λ v. str_eq v "") values ≡ false
        → In s values
        → str_eq s "" ≡ false
    named s (v ∷ vs) e m = ground (arith, named s vs)
    named s [] e m = absurd m
