-- ===== src/Common/Scan.antt =====
-- Texts that a program takes apart: strings.HasPrefix, strings.Contains, strings.Cut and
-- strings.Split at one character, and strings.Join.
use Prim.Native.Char.{Char, code}
use Prim.Native.String.{String, ◌++◌}
use mathlib.Core.Path.{◌≡◌, refl, ap, ◌∙◌}
use mathlib.Core.Logic.{◌≢◌, inl, inr}
use mathlib.Core.Bool.{Bool, false, ◌||◌}
use mathlib.Core.Option.{Option, none, some}
use mathlib.Core.List.{List, [], ◌∷◌}
use native.Mathlib.Omega.{arith}
use text.Mathlib.Text.{◌==◌ as str_eq}
use text.Mathlib.TextEquality.{Char-path, eq_iff}
use text.Mathlib.TextLemmas.{nil-append, cons-append}
use loomcli.Common.Tests.{◌==◌, if◌then◌else◌, is_some, Bool-cases}

-- Texts that differ are told apart.
pub str_ne : (s t : String) → s ≢ t → str_eq s t ≡ false
str_ne s t h = ground (arith, eq_iff s t)

pub apart : (s t : String) → str_eq s t ≡ false → s ≢ t
apart s t h = λ e. ground (arith, eq_iff s t)

-- What is behind a prefix, if the text starts with it.
unfoldable pub strip : String → String → Option String
strip String.[] s = some s
strip (String.◌∷◌ c p) String.[] = none
strip (String.◌∷◌ c p) (String.◌∷◌ d s) =
    let rest = strip p s in if code c == code d then rest else none

pub strip-append : (p s : String) → strip p (p ++ s) ≡ some s
unfolding strip
strip-append String.[] s = rw nil-append refl
strip-append (String.◌∷◌ c p) s = rw cons-append (ground (arith, strip-append p s))

pub strip-some : (p t s : String) → strip p t ≡ some s → t ≡ p ++ s
unfolding strip
strip-some String.[] t s e = rw nil-append cc
strip-some (String.◌∷◌ c p) String.[] s e = cc
strip-some (String.◌∷◌ c p) (String.◌∷◌ d t) s e =
    rw cons-append (cc (Char-path d c (ground arith), strip-some p t s (ground arith)))

unfoldable pub contains : String → String → Bool
unfolding strip
contains String.[] sub = is_some (strip sub String.[])
contains (String.◌∷◌ c s) sub =
    let later = contains s sub in is_some (strip sub (String.◌∷◌ c s)) || later

-- The text up to the first separator, and what is behind it.
unfoldable pub cut : Char → String → String × Option String
cut sep String.[] = (String.[], none)
cut sep (String.◌∷◌ c s) =
    let rest = cut sep s in
    if code c == code sep then (String.[], some s) else (String.◌∷◌ c rest.0, rest.1)

abbrev pub one : Char → String
one c = String.◌∷◌ c String.[]

-- A text without the separator.
abbrev pub Lacks : Char → String → Type 0
Lacks sep String.[] = Unit {0}
Lacks sep (String.◌∷◌ c s) = (code c ≢ code sep) × Lacks sep s

pub cut-append :
    (sep : Char) (s t : String) → Lacks sep s → cut sep (s ++ one sep ++ t) ≡ (s, some t)
unfolding cut
cut-append sep String.[] t h = rw (nil-append, cons-append, nil-append) (ground arith)
cut-append sep (String.◌∷◌ d s) t h =
    rw (cons-append d s (one sep ++ t)) (ground (arith, cut-append sep s t h.1))

pub cut-Lacks : (sep : Char) (s : String) → Lacks sep s → cut sep s ≡ (s, none)
unfolding cut
cut-Lacks sep String.[] h = refl
cut-Lacks sep (String.◌∷◌ c s) h = ground (arith, cut-Lacks sep s h.1)

-- What is cut can be put together again.
pub cut-some :
    (sep : Char) (s r : String)
    → (cut sep s).1 ≡ some r
    → (s ≡ (cut sep s).0 ++ one sep ++ r) × Lacks sep (cut sep s).0
unfolding cut
cut-some sep String.[] r e = cc
cut-some sep (String.◌∷◌ c s) r e = elim (Bool-cases (code c == code sep)) [
  | inl h ↦
      rw (h, nil-append, cons-append, nil-append)
        (ground (arith, h, Char-path c sep (ground arith)))
  | inr h ↦
      rw (h, cons-append c (cut sep s).0 (one sep ++ r))
        (ground (arith, h, cut-some sep s r (ground arith)))
]

abbrev push : Char → List String → List String
push c [] = one c ∷ []
push c (w ∷ ws) = String.◌∷◌ c w ∷ ws

-- strings.Split at one character, and strings.Join with it.
unfoldable pub split : Char → String → List String
split sep String.[] = "" ∷ []
split sep (String.◌∷◌ c s) =
    let rest = split sep s in if code c == code sep then "" ∷ rest else push c rest

unfoldable pub join : Char → List String → String
join sep [] = ""
join sep (w ∷ []) = w
join sep (w ∷ v ∷ ws) = w ++ one sep ++ join sep (v ∷ ws)

pub split-append :
    (sep : Char) (w r : String) → Lacks sep w → split sep (w ++ one sep ++ r) ≡ w ∷ split sep r
unfolding split
split-append sep String.[] r h =
    rw (nil-append, cons-append sep String.[] r, nil-append) (ground arith)
split-append sep (String.◌∷◌ c w) r h =
    rw (cons-append c w (one sep ++ r)) (ground (arith, split-append sep w r h.1))

pub split-Lacks : (sep : Char) (w : String) → Lacks sep w → split sep w ≡ w ∷ []
unfolding split
split-Lacks sep String.[] h = refl
split-Lacks sep (String.◌∷◌ c w) h = ground (arith, split-Lacks sep w h.1)

-- No text of a list has the separator.
abbrev pub AllLack : Char → List String → Type 0
AllLack sep [] = Unit {0}
AllLack sep (w ∷ ws) = Lacks sep w × AllLack sep ws

pub split-join :
    (sep : Char) (w : String) (ws : List String)
    → AllLack sep (w ∷ ws)
    → split sep (join sep (w ∷ ws)) ≡ w ∷ ws
unfolding join
split-join sep w [] h = split-Lacks sep w h.0
split-join sep w (v ∷ ws) h =
    split-append sep w (join sep (v ∷ ws)) h.0 ∙ ap (λ l. w ∷ l) (split-join sep v ws h.1)

-- A test for `Lacks`, which computes at a literal.
unfoldable pub has : Char → String → Bool
has sep String.[] = false
has sep (String.◌∷◌ c s) = let rest = has sep s in code c == code sep || rest

pub has-Lacks : (sep : Char) (s : String) → has sep s ≡ false → Lacks sep s
unfolding has
has-Lacks sep String.[] h = tt
has-Lacks sep (String.◌∷◌ c s) h = (ground arith, has-Lacks sep s (ground arith))
