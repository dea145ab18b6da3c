-- ===== src/Common/Text.antt =====
-- Texts as Go uses them: strconv.Atoi, strings.Join and strings.Split at one character.
use Prim.Native.Nat.{ℕ, zero, suc, ◌+◌, ◌-◌, ◌*◌}
use Prim.Native.String.{String}
use Prim.Native.Char.{code}
use mathlib.Core.Path.{◌≡◌, refl}
use mathlib.Core.Bool.{Bool, ◌&&◌}
use mathlib.Core.Option.{Option, none, some}
use mathlib.Core.List.{List, [], ◌∷◌}
use loomcli.Common.Tests.{ltb, leb, ◌==◌, if◌then◌else◌}
use loomcli.Common.Int.{ℤ, pos, negsuc, two63}

-- The code points of a text.
abbrev pub codes : String → List ℕ
codes String.[] = []
codes (String.◌∷◌ c s) = code c ∷ codes s

abbrev is_digit : ℕ → Bool
is_digit c = leb b'0' c && leb c b'9'

-- The value of a run of digits, `none` where another character stands.
unfoldable pub digits_from : ℕ → List ℕ → Option ℕ
digits_from acc [] = some acc
digits_from acc (c ∷ cs) =
    let rest = digits_from (acc * 10 + (c - b'0')) cs in if is_digit c then rest else none

unfoldable pub digits : List ℕ → Option ℕ
digits [] = none
digits (c ∷ cs) = digits_from 0 (c ∷ cs)

-- Out of the range of int64 is an error.
unfoldable pub positive : Option ℕ → Option ℤ
positive none = none
positive (some n) = if ltb n two63 then some (pos n) else none

unfoldable pub negative : Option ℕ → Option ℤ
negative none = none
negative (some zero) = some (pos 0)
negative (some (suc n)) = if ltb n two63 then some (negsuc n) else none

unfoldable pub atoi_codes : List ℕ → Option ℤ
atoi_codes [] = none
atoi_codes (c ∷ cs) =
    if c == b'-'
    then negative (digits cs)
    else if c == b'+'
    then positive (digits cs)
    else positive (digits (c ∷ cs))

unfoldable pub atoi : String → Option ℤ
unfolding digits_from digits positive negative atoi_codes
atoi s = atoi_codes (codes s)

atoi_example : atoi "-120" ≡ some (negsuc 119)
unfolding atoi
atoi_example = refl
