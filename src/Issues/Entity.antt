-- ===== src/Issues/Entity.antt =====
-- EntityRef of internal/types/relations.go: the URI of an entity and its parser.
pub mod RoundTrip
use Prim.Native.String.{String, ◌++◌}
use Prim.Native.Char.{Char}
use loomcli.Common.{
  ℕ, zero, suc, ◌≡◌, refl, Bool, true, false, ◌&&◌, ◌||◌, not, Option, none, some, List, [], ◌∷◌,
  str_eq, strip, cut, if◌then◌else◌,
}
use loomcli.Issues.{EntityRef}

-- A nil reference counts as empty.
unfoldable pub is_empty : Option EntityRef → Bool
is_empty none = true
is_empty (some e) = str_eq e.name "" && str_eq e.platform "" && str_eq e.org "" && str_eq e.id ""

unfoldable pub uri : Option EntityRef → String
uri none = ""
uri (some e) =
    if str_eq e.platform "" || str_eq e.org "" || str_eq e.id ""
    then ""
    else "entity://hop/" ++ e.platform ++ "/" ++ e.org ++ "/" ++ e.id

unfoldable pub string : Option EntityRef → String
unfolding uri
string none = ""
string (some e) =
    if not (str_eq e.name "")
    then e.name
    else let u = uri (some e) in if not (str_eq u "") then u else e.id

pub data UriError : Type 0 where
  wrong_prefix wrong_parts : UriError

pub data Parsed : Type 0 where
  ok : EntityRef → Parsed
  err : UriError → Parsed

-- `strings.SplitN(s, sep, n + 1)`: at most `n` cuts.
pub with_rest : String × Option String → (String → List String) → List String
with_rest (a, none) k = a ∷ []
with_rest (a, some r) k = a ∷ k r

pub split_cuts : ℕ → Char → String → List String
unfolding cut with_rest
split_cuts zero sep s = s ∷ []
split_cuts (suc n) sep s = with_rest (cut sep s) (split_cuts n sep)

pub three_parts : List String → Parsed
three_parts (p ∷ o ∷ i ∷ []) =
    if str_eq p "" || str_eq o "" || str_eq i ""
    then err wrong_parts
    else ok (record { name = ""; platform = p; org = o; id = i })
three_parts _ = err wrong_parts

pub behind_prefix : Option String → Parsed
unfolding split_cuts three_parts
behind_prefix none = err wrong_prefix
behind_prefix (some rest) = three_parts (split_cuts 2 "/" rest)

unfoldable pub parse_entity_uri : String → Parsed
unfolding strip behind_prefix
parse_entity_uri u = behind_prefix (strip "entity://hop/" u)
