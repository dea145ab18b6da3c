-- ===== src/Common/Decimal.antt =====
-- strconv.Itoa, and that strconv.Atoi reads it back.
use Prim.Native.Nat.{ℕ, zero, suc, ◌+◌, ◌-◌, ◌/◌, ◌%◌, ◌≤◌, ◌<◌}
use Prim.Native.Char.{Char, code}
use Prim.Native.String.{String}
use mathlib.Core.Path.{◌≡◌, refl, ◌∙◌}
use mathlib.Core.Logic.{◌≢◌, ◌⊎◌}
use mathlib.Core.Option.{some}
use native.Mathlib.Omega.{arith}
use loomcli.Common.Tests.{ltb, if◌then◌else◌}
use loomcli.Common.Int.{ℤ, pos, negsuc, two63, ◌≤ℤ◌, ◌<ℤ◌}
use loomcli.Common.Scan.{Lacks}
use loomcli.Common.Text.{codes, digits_from, digits, positive, negative, atoi_codes, atoi}

digit : ℕ → Char
digit zero = "0"
digit (suc zero) = "1"
digit (suc (suc zero)) = "2"
digit (suc (suc (suc zero))) = "3"
digit (suc (suc (suc (suc zero)))) = "4"
digit (suc (suc (suc (suc (suc zero))))) = "5"
digit (suc (suc (suc (suc (suc (suc zero)))))) = "6"
digit (suc (suc (suc (suc (suc (suc (suc zero))))))) = "7"
digit (suc (suc (suc (suc (suc (suc (suc (suc zero)))))))) = "8"
digit _ = "9"

code-digit : (d : ℕ) → d < 10 → code (digit d) ≡ 48 + d
unfolding digit
code-digit zero h = refl
code-digit (suc zero) h = refl
code-digit (suc (suc zero)) h = refl
code-digit (suc (suc (suc zero))) h = refl
code-digit (suc (suc (suc (suc zero)))) h = refl
code-digit (suc (suc (suc (suc (suc zero))))) h = refl
code-digit (suc (suc (suc (suc (suc (suc zero)))))) h = refl
code-digit (suc (suc (suc (suc (suc (suc (suc zero))))))) h = refl
code-digit (suc (suc (suc (suc (suc (suc (suc (suc zero)))))))) h = refl
code-digit (suc (suc (suc (suc (suc (suc (suc (suc (suc zero))))))))) h = refl
code-digit (suc (suc (suc (suc (suc (suc (suc (suc (suc (suc d)))))))))) h = absurd (omega arith)

-- The digits of a number before a text; the fuel is the number and one more.
show_from : ℕ → ℕ → String → String
show_from zero n s = s
show_from (suc fuel) n s =
    let more = show_from fuel (n / 10) (String.◌∷◌ (digit (n % 10)) s) in
    if ltb n 10 then String.◌∷◌ (digit n) s else more

show : ℕ → String
unfolding show_from digit
show n = show_from (n + 1) n ""

unfoldable pub itoa : ℤ → String
unfolding show
itoa (pos n) = show n
itoa (negsuc n) = String.◌∷◌ "-" (show (suc n))

Lacks-show_from :
    (c : Char)
    → (code c < 48) ⊎ (57 < code c)
    → (fuel n : ℕ) (s : String) → Lacks c s
    → Lacks c (show_from fuel n s)
unfolding show_from
Lacks-show_from c h zero n s l = l
Lacks-show_from c h (suc fuel) n s l = ground (
  arith,
  code-digit n,
  code-digit (n % 10),
  Lacks-show_from c h fuel (n / 10) (String.◌∷◌ (digit (n % 10)) s),
)

-- Only digits and a minus sign are in a number.
pub Lacks-itoa :
    (c : Char) (z : ℤ) → (code c < 48) ⊎ (57 < code c) → code c ≢ b'-' → Lacks c (itoa z)
unfolding itoa show
Lacks-itoa c (pos n) h k = Lacks-show_from c h (n + 1) n "" tt
Lacks-itoa c (negsuc n) h k = ground (arith, Lacks-show_from c h (suc n + 1) (suc n) "" tt)

digits_from_show :
    (fuel n : ℕ) (s : String)
    → n < fuel
    → digits_from 0 (codes (show_from fuel n s)) ≡ digits_from n (codes s)
unfolding show_from digits_from
digits_from_show zero n s h = absurd (omega arith)
digits_from_show (suc fuel) n s h = ground (
  arith,
  code-digit n,
  code-digit (n % 10),
  digits_from_show fuel (n / 10) (String.◌∷◌ (digit (n % 10)) s),
)

abbrev Starts : String → Type 0
Starts String.[] = ⊥
Starts (String.◌∷◌ c s) = (48 ≤ code c) × (code c < 58)

-- A digit comes first.
Starts-show_from : (fuel n : ℕ) (s : String) → n < fuel → Starts (show_from fuel n s)
unfolding show_from
Starts-show_from zero n s h = absurd (omega arith)
Starts-show_from (suc fuel) n s h =
    ground (arith, code-digit n, Starts-show_from fuel (n / 10) (String.◌∷◌ (digit (n % 10)) s))

digits-Starts : (s : String) → Starts s → digits (codes s) ≡ digits_from 0 (codes s)
unfolding digits
digits-Starts String.[] h = absurd h
digits-Starts (String.◌∷◌ c s) h = refl

atoi-Starts : (s : String) → Starts s → atoi_codes (codes s) ≡ positive (digits (codes s))
unfolding atoi_codes digits
atoi-Starts String.[] h = absurd h
atoi-Starts (String.◌∷◌ c s) h = ground arith

digits-show : (n : ℕ) → digits (codes (show n)) ≡ some n
unfolding show digits_from
digits-show n =
    digits-Starts (show n) (Starts-show_from (n + 1) n "" (omega arith))
    ∙ digits_from_show (n + 1) n "" (omega arith)

-- A number of 64 bits is read back from its digits.
pub atoi-itoa : (z : ℤ) → z <ℤ pos two63 → negsuc (two63 - 1) ≤ℤ z → atoi (itoa z) ≡ some z
unfolding itoa atoi show
atoi-itoa (pos n) h k =
    atoi-Starts (show n) (Starts-show_from (n + 1) n "" (omega arith))
    ∙ rw (digits-show n) (unfold positive in ground arith)
atoi-itoa (negsuc n) h k = unfold atoi_codes negative in rw (digits-show (suc n)) (ground arith)
