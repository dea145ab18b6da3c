-- ===== src/Terminal/Texts.antt =====
-- An encoding of the tokens of internal/webui/terminal_auth.go that keeps the laws of `Codec`: "~" escapes the
-- dot, the time is written in unary.
use Prim.Native.Char.{Char, code}
use Prim.Native.String.{◌++◌}
use text.Mathlib.TextEquality.{Char-path}
use loomcli.Common.{
  ℕ, zero, suc, ◌≡◌, refl, ap, Option, none, some, String, ◌==◌, arith, Bool-cases, inl, inr,
  if◌then◌else◌, Lacks, cut, cut-append,
}
use loomcli.Terminal.{TerminalTokenPayload, Codec}

pub escape : String → String
escape String.[] = ""
escape (String.◌∷◌ c s) =
    let rest = escape s in
    if code c == b'.'
    then String.◌∷◌ "~" (String.◌∷◌ "d" rest)
    else if code c == b'~'
    then String.◌∷◌ "~" (String.◌∷◌ "t" rest)
    else String.◌∷◌ c rest

before : Char → Option String → Option String
before c none = none
before c (some s) = some (String.◌∷◌ c s)

mutual
  pub unescape : String → Option String
  unescape String.[] = some ""
  unescape (String.◌∷◌ c s) =
      let plainly = before c (unescape s) in
      let marked = escaped s in if code c == b'~' then marked else plainly

  escaped : String → Option String
  escaped String.[] = none
  escaped (String.◌∷◌ c s) =
      let rest = unescape s in
      if code c == b'd' then before "." rest else if code c == b't' then before "~" rest else none

pub unescape-escape : (s : String) → unescape (escape s) ≡ some s
unfolding escape unescape escaped before
unescape-escape String.[] = refl
unescape-escape (String.◌∷◌ c s) = elim (Bool-cases (code c == b'.')) [
  | inl e ↦
      rw e
        (rw (unescape-escape s) (ap (λ d. some (String.◌∷◌ d s)) (Char-path "." c (ground arith))))
  | inr e ↦ elim (Bool-cases (code c == b'~')) [
    | inl f ↦
        rw (e, f)
          (rw (unescape-escape s)
            (ap (λ d. some (String.◌∷◌ d s)) (Char-path "~" c (ground arith))))
    | inr f ↦ rw (e, f) (rw (f, unescape-escape s) refl)
  ]
]

pub Lacks-escape : (s : String) → Lacks "." (escape s)
unfolding escape
Lacks-escape String.[] = tt
Lacks-escape (String.◌∷◌ c s) = ground (arith, Lacks-escape s)

ticks : ℕ → String
ticks zero = ""
ticks (suc n) = String.◌∷◌ "i" (ticks n)

ticks_of : String → ℕ
ticks_of String.[] = 0
ticks_of (String.◌∷◌ c s) = suc (ticks_of s)

ticks_of-ticks : (n : ℕ) → ticks_of (ticks n) ≡ n
unfolding ticks ticks_of
ticks_of-ticks zero = refl
ticks_of-ticks (suc n) = ap suc (ticks_of-ticks n)

Lacks-ticks : (n : ℕ) → Lacks "." (ticks n)
unfolding ticks
Lacks-ticks zero = tt
Lacks-ticks (suc n) = (ground arith, Lacks-ticks n)

pub write : TerminalTokenPayload → String
write p = escape p.session ++ "." ++ (ticks p.exp ++ "." ++ p.nonce)

with_nonce : Option String → String × Option String → Option TerminalTokenPayload
with_nonce none r = none
with_nonce (some session) (exp, none) = none
with_nonce (some session) (exp, some nonce) =
    some (record { session = session; exp = ticks_of exp; nonce = nonce })

with_session : String × Option String → Option TerminalTokenPayload
with_session (session, none) = none
with_session (session, some rest) = with_nonce (unescape session) (cut "." rest)

pub read : String → Option TerminalTokenPayload
read s = with_session (cut "." s)

pub read-write : (p : TerminalTokenPayload) → read (write p) ≡ some p
unfolding read write with_session with_nonce
read-write p =
    rw (cut-append "." (escape p.session) (ticks p.exp ++ "." ++ p.nonce) (Lacks-escape p.session))
      (rw
        (
          cut-append "." (ticks p.exp) p.nonce (Lacks-ticks p.exp),
          unescape-escape p.session,
          ticks_of-ticks p.exp,
        )
        refl)

-- A mac that is the key before the text.
unfoldable pub texts : Codec
unfolding read write escape unescape before ticks with_session with_nonce escaped ticks_of
texts = record {
  encode = escape;
  decode = unescape;
  write = write;
  read = read;
  mac = λ k s. k ++ s;
  decode-encode = unescape-escape;
  encode-Lacks = Lacks-escape;
  read-write = read-write;
}
