-- ===== src/Terminal/Token.antt =====
-- Tokens of internal/webui/terminal_auth.go are good once.
use loomcli.Common.{
  ℕ, ◌+◌, ◌≤◌, ◌<◌, ◌≡◌, ◌≢◌, refl, ap, sym, ◌∙◌, true, false, not, Option, none, some, List, [],
  ◌∷◌, String, str_eq, eq_iff, eq_refl, ltb, lookup, insert, lookup-insert, cut, cut-append, keep,
  if◌then◌else◌, arith, Bool-cases, inl, inr, ◌⊎◌,
}
use loomcli.Terminal.{
  Codec, TerminalTokenPayload, TerminalAuth, unix, payload_of, generate_token, use_nonce,
  check_payload, check_signature, check_bytes, check_parts, validate_token, cleanup,
}

-- What ValidateToken makes of a token that GenerateToken made with the same secret.
pub validate_token-generate_token :
    (c : Codec) (ta tb : TerminalAuth) (made now : ℕ) (nonce session asked : String)
    → ta.secret ≡ tb.secret
    → validate_token c tb now (generate_token c ta made nonce session) asked
      ≡ check_payload tb now asked (some (payload_of made nonce session))
unfolding validate_token generate_token
validate_token-generate_token c ta tb made now nonce session asked e =
    let bytes = c.write (payload_of made nonce session) in
    rw (cut-append "." (c.encode bytes) (c.encode (c.mac ta.secret bytes)) (c.encode-Lacks bytes)) (
      rw (c.decode-encode bytes, c.decode-encode (c.mac ta.secret bytes))
        (rw e (
          rw (eq_refl (c.mac tb.secret bytes), c.read-write (payload_of made nonce session)) refl)))

-- A validation of any token, and a cleanup, after a time that has passed.
pub data Event : Type 0 where
  validates : String → String → Event
  cleans : Event

abbrev pub after : Codec → TerminalAuth → ℕ → Event → TerminalAuth
after c ta now (validates token session) = (validate_token c ta now token session).0
after c ta now cleans = cleanup ta now

abbrev pub run : Codec → TerminalAuth → ℕ → List (ℕ × Event) → TerminalAuth
run c ta now [] = ta
run c ta now ((wait, e) ∷ es) = run c (after c ta (now + wait) e) (now + wait) es

abbrev pub end_of : ℕ → List (ℕ × Event) → ℕ
end_of now [] = now
end_of now ((wait, e) ∷ es) = end_of (now + wait) es

-- A validation leaves the state as it is, or takes down a nonce that was not there.
module _ (P : TerminalAuth → Type 0) (ta : TerminalAuth) (now : ℕ) (same : P ta)
    (taken : (k : String)
      → lookup k ta.used ≡ none
      → P (record ta { used = insert k now ta.used })) where
  use_nonce_either : (k : String) (o : Option ℕ) → lookup k ta.used ≡ o → P (use_nonce ta now k o).0
  use_nonce_either k (some at) e = same
  use_nonce_either k none e = taken k e

  check_payload_either :
      (session : String) (o : Option TerminalTokenPayload) → P (check_payload ta now session o).0
  unfolding check_payload
  check_payload_either session none = same
  check_payload_either session (some p) = elim (Bool-cases (ltb p.exp (unix now))) [
    | inl e ↦ rw e same
    | inr e ↦ elim (Bool-cases (str_eq p.session session)) [
      | inl f ↦ rw (e, f) (use_nonce_either p.nonce (lookup p.nonce ta.used) refl)
      | inr f ↦ rw (e, f) same
    ]
  ]

  validate_token_either :
      (c : Codec) (token session : String) → P (validate_token c ta now token session).0
  unfolding validate_token
  validate_token_either c token session = parts (cut "." token)
    where
      signed : (bytes : String) (o : Option String) → P (check_signature c ta now session bytes o).0
      signed bytes none = same
      signed bytes (some sig) = elim (Bool-cases (str_eq sig (c.mac ta.secret bytes))) [
        | inl e ↦ rw e (check_payload_either session (c.read bytes))
        | inr e ↦ rw e same
      ]

      decoded : (sig : String) (o : Option String) → P (check_bytes c ta now session sig o).0
      decoded sig none = same
      decoded sig (some bytes) = signed bytes (c.decode sig)

      parts : (p : String × Option String) → P (check_parts c ta now session p).0
      parts (payload, none) = same
      parts (payload, some sig) = decoded sig (c.decode payload)

run-secret :
    (c : Codec) (ta : TerminalAuth) (now : ℕ) (es : List (ℕ × Event))
    → (run c ta now es).secret ≡ ta.secret
unfolding cleanup
run-secret c ta now [] = refl
run-secret c ta now ((wait, validates token session) ∷ es) =
    run-secret c (validate_token c ta (now + wait) token session).0 (now + wait) es
    ∙ validate_token_either (λ tb. tb.secret ≡ ta.secret) ta (now + wait) refl (λ k e. refl) c token
        session
run-secret c ta now ((wait, cleans) ∷ es) = run-secret c (cleanup ta (now + wait)) (now + wait) es

le-end_of : (now : ℕ) (es : List (ℕ × Event)) → now ≤ end_of now es
le-end_of now [] = omega arith
le-end_of now ((wait, e) ∷ es) = omega (arith, le-end_of (now + wait) es)

module _ (n : String) (taken : ℕ) where
  abbrev Remembers : TerminalAuth → Type 0
  Remembers ta = lookup n ta.used ≡ some taken

  insert-Remembers :
      (ta : TerminalAuth) (now : ℕ) (k : String)
      → lookup k ta.used ≡ none
      → Remembers ta
      → Remembers (record ta { used = insert k now ta.used })
  insert-Remembers ta now k e h = lookup-insert k n now ta.used ∙ go (Bool-cases (str_eq k n))
    where
      go :
          (str_eq k n ≡ true) ⊎ (str_eq k n ≡ false)
          → (if str_eq k n then some now else lookup n ta.used) ≡ some taken
      go (inl x) = absurd (cc (e, h, (eq_iff k n).0 x))
      go (inr x) = rw x h

  lookup-keep :
      (m : List (String × ℕ)) (now : ℕ)
      → now ≤ taken + 120000
      → lookup n m ≡ some taken
      → lookup n (keep (λ e. not (ltb (e.1 + 120000) now)) m) ≡ some taken
  lookup-keep [] now l h = h
  lookup-keep ((k, at) ∷ m) now l h = ground (arith, lookup-keep m now l)

  -- The nonce is remembered for two minutes from its use on.
  abbrev Kept : TerminalAuth → ℕ → Type 0
  Kept ta now = Remembers ta ⊎ (taken + 120000 < now)

  after-Kept :
      (c : Codec) (ta : TerminalAuth) (now wait : ℕ) (e : Event)
      → Kept ta now
      → Kept (after c ta (now + wait) e) (now + wait)
  unfolding cleanup
  after-Kept c ta now wait e (inr l) = inr (omega (arith, l))
  after-Kept c ta now wait (validates token session) (inl h) = inl (
      validate_token_either Remembers ta (now + wait) h
        (λ k e. insert-Remembers ta (now + wait) k e h) c token session)
  after-Kept c ta now wait cleans (inl h) = elim (Bool-cases (ltb (taken + 120000) (now + wait))) [
    | inl e ↦ inr (ground arith)
    | inr e ↦ inl (lookup-keep ta.used (now + wait) (ground arith) h)
  ]

  run-Kept :
      (c : Codec) (ta : TerminalAuth) (now : ℕ) (es : List (ℕ × Event))
      → Kept ta now
      → Kept (run c ta now es) (end_of now es)
  run-Kept c ta now [] h = h
  run-Kept c ta now ((wait, e) ∷ es) h =
      run-Kept c (after c ta (now + wait) e) (now + wait) es (after-Kept c ta now wait e h)

-- What a token needs to be accepted.
use_nonce-none :
    (ta : TerminalAuth) (now : ℕ) (k : String) (o : Option ℕ)
    → (use_nonce ta now k o).1 ≡ none
    → (o ≡ none) × ((use_nonce ta now k o).0 ≡ record ta { used = insert k now ta.used })
use_nonce-none ta now k none h = (refl, refl)
use_nonce-none ta now k (some at) h = absurd (cc h)

check_payload-none :
    (ta : TerminalAuth) (now : ℕ) (session : String) (p : TerminalTokenPayload)
    → (check_payload ta now session (some p)).1 ≡ none
    → (unix now ≤ p.exp)
      × (lookup p.nonce ta.used ≡ none)
      × ((check_payload ta now session (some p)).0
          ≡ record ta { used = insert p.nonce now ta.used })
unfolding check_payload
check_payload-none ta now session p = elim (Bool-cases (ltb p.exp (unix now))) [
  | inl e ↦ rw e (λ h. absurd (cc h))
  | inr e ↦ elim (Bool-cases (str_eq p.session session)) [
    | inl f ↦
        rw (e, f)
          (λ h.
            let (g, k) = use_nonce-none ta now p.nonce (lookup p.nonce ta.used) h in
            (ground arith, g, k))
    | inr f ↦ rw (e, f) (λ h. absurd (cc h))
  ]
]

refused :
    (c : Codec) (ta tb : TerminalAuth) (made taken now : ℕ) (nonce session asked : String)
    → ta.secret ≡ tb.secret
    → made ≤ taken
    → Kept nonce taken tb now
    → (validate_token c tb now (generate_token c ta made nonce session) asked).1 ≢ none
refused c ta tb made taken now nonce session asked e le k h =
    let (fresh, free, same) =
      check_payload-none tb now asked (payload_of made nonce session)
        (rw (validate_token-generate_token c ta tb made now nonce session asked e) at h) in
    over fresh free k
  where
    over :
        unix now ≤ unix (made + 60000) → lookup nonce tb.used ≡ none → Kept nonce taken tb now → ⊥
    over fresh free (inl r) = cc (free, r)
    over fresh free (inr l) = omega (arith, l, fresh, le)

-- A token that was accepted once is refused ever after.
pub validate_token_once :
    (c : Codec) (ta tb : TerminalAuth) (made waited : ℕ) (nonce session asked again : String)
    (es : List (ℕ × Event))
    → ta.secret ≡ tb.secret
    → (validate_token c tb (made + waited) (generate_token c ta made nonce session) asked).1 ≡ none
    → (validate_token c
        (run c
          (validate_token c tb (made + waited) (generate_token c ta made nonce session) asked).0
          (made + waited)
          es)
        (end_of (made + waited) es)
        (generate_token c ta made nonce session)
        again).1
      ≢ none
validate_token_once c ta tb made waited nonce session asked again es e h =
    let now = made + waited in
    let first = (validate_token c tb now (generate_token c ta made nonce session) asked).0 in
    let round = validate_token-generate_token c ta tb made now nonce session asked e in
    let (fresh, free, same) =
      check_payload-none tb now asked (payload_of made nonce session) (rw round at h) in
    let went : first ≡ record tb { used = insert nonce now tb.used } = ap (λ x. x.0) round ∙ same in
    refused c ta (run c first now es) made now (end_of now es) nonce session again
      (e ∙ sym (run-secret c first now es ∙ ap (λ x. x.secret) went)) (omega arith)
      (run-Kept nonce now c first now es (
        inl (
          ap (λ x. lookup nonce x.used) went
          ∙ lookup-insert nonce nonce now tb.used
          ∙ rw (eq_refl nonce) refl)))
