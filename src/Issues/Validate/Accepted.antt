-- ===== src/Issues/Validate/Accepted.antt =====
-- What Issue.Validate and Issue.ValidateForImport of internal/types/issue.go accept.
use Prim.Native.String.{len}
use loomcli.Common.{
  ◌≤◌, ◌<◌, ◌≡◌, ◌≢◌, refl, ◌↔◌, ◌⊎◌, inl, inr, Bool, true, false, Option, none, some, List, ◌∷◌,
  String, ℤ, pos, ◌≤ℤ◌, arith, eq_iff, In, is_some, not, ap, if◌then◌else◌,
}
use loomcli.Issues.{Issue}
use loomcli.Issues.Enums.{statuses, issue_types, agent_states, is_valid_type_with_custom}
use loomcli.Issues.Enums.Laws.{
  any_iff, is_valid_status_with_custom_iff, is_valid_type_with_custom_iff,
}
use loomcli.Issues.Validate.{
  ValidationError, negative_estimate, negative_minutes, stamps_error, agent_state_error,
  times_error, content_error, validate_with_custom, validate_for_import,
}

-- The times that a status asks for: a closing time if closed, perhaps one on a tombstone; a time of
-- deletion exactly on a tombstone.
abbrev pub StampsFit : String → Option ℤ → Option ℤ → Type 0
StampsFit status closed_at deleted_at =
    ((status ≡ "closed") × (is_some closed_at ≡ true) × (is_some deleted_at ≡ false))
    ⊎ ((status ≡ "tombstone") × (is_some deleted_at ≡ true))
    ⊎ ((status ≢ "closed")
        × (status ≢ "tombstone")
        × (is_some closed_at ≡ false)
        × (is_some deleted_at ≡ false))

abbrev EstimateFits : Option ℤ → Type 0
EstimateFits none = Unit {0}
EstimateFits (some m) = pos 0 ≤ℤ m

abbrev pub ContentFits : List String → Issue → Type 0
ContentFits customs i =
    (0 < len i.title)
    × (len i.title ≤ 500)
    × (pos 0 ≤ℤ i.priority)
    × (i.priority ≤ℤ pos 4)
    × (In i.status statuses ⊎ In i.status customs)

negative_minutes_iff : (m : Option ℤ) → (negative_minutes m ≡ false) ↔ EstimateFits m
unfolding negative_minutes
negative_minutes_iff none = ground arith
negative_minutes_iff (some m) = ground arith

stamps_error_iff :
    (status : String) (c d : Option ℤ) (behind : Option ValidationError)
    → (stamps_error status c d behind ≡ none) ↔ (StampsFit status c d × (behind ≡ none))
unfolding stamps_error
stamps_error_iff status c d behind =
    ground (arith, eq_iff status "closed", eq_iff status "tombstone", eq_iff "closed" "tombstone")

agent_state_error_iff : (s : String) → (agent_state_error s ≡ none) ↔ In s agent_states
unfolding agent_state_error
agent_state_error_iff s = ground (arith, any_iff agent_states s)

if_none_iff :
    (b : Bool) (e : ValidationError) (rest : Option ValidationError)
    → ((if b then some e else rest) ≡ none) ↔ ((b ≡ false) × (rest ≡ none))
if_none_iff b e rest = ground arith

true_of_not : (b : Bool) → not b ≡ false → b ≡ true
true_of_not b h = ground arith

-- The checks that both validations make behind the type.
abbrev pub TimesFit : Issue → Type 0
TimesFit i =
    EstimateFits i.estimated_minutes
    × StampsFit i.status i.closed_at i.deleted_at
    × In i.agent_state agent_states

times_error_iff : (i : Issue) → (times_error i ≡ none) ↔ TimesFit i
unfolding times_error
times_error_iff i = (
  λ h.
      let (m, r) = (if_none_iff (negative_minutes i.estimated_minutes) negative_estimate _).0 h in
      let (t, a) = (stamps_error_iff i.status i.closed_at i.deleted_at _).0 r in
      (
        (negative_minutes_iff i.estimated_minutes).0 m,
        t,
        (agent_state_error_iff i.agent_state).0 a,
      ),
  λ (m, t, a). (if_none_iff (negative_minutes i.estimated_minutes) negative_estimate _).1 (
    (negative_minutes_iff i.estimated_minutes).1 m,
    (stamps_error_iff i.status i.closed_at i.deleted_at _).1
        (t, (agent_state_error_iff i.agent_state).1 a),
  ),
)

content_error_iff :
    (customs : List String) (i : Issue) (behind : Option ValidationError)
    → (content_error customs i behind ≡ none) ↔ (ContentFits customs i × (behind ≡ none))
unfolding content_error
content_error_iff customs i behind =
    ground (arith, is_valid_status_with_custom_iff customs i.status)

-- Validation accepts an issue exactly if its title has 1 to 500 bytes, its priority is within 0 and
-- 4, its status and its type are built in or given as custom, its estimate is not negative, it has
-- the times that its status asks for, and the agent state is a known one.
pub validate_with_custom_iff :
    (customs types : List String) (i : Issue)
    → (validate_with_custom customs types i ≡ none)
      ↔ (ContentFits customs i × (In i.issue_type issue_types ⊎ In i.issue_type types) × TimesFit i)
unfolding validate_with_custom
validate_with_custom_iff customs types i = (
  λ h.
      let (c, r) = (content_error_iff customs i _).0 h in
      let (v, t) = (if_none_iff _ _ _).0 r in
      (
        c,
        (is_valid_type_with_custom_iff types i.issue_type).0 (true_of_not _ v),
        (times_error_iff i).0 t,
      ),
  λ (c, y, t). (content_error_iff customs i _).1 (
    c,
    (if_none_iff _ _ _).1
        (ap not ((is_valid_type_with_custom_iff types i.issue_type).1 y), (times_error_iff i).1 t),
  ),
)

validate_for_import_iff :
    (customs : List String) (i : Issue)
    → (validate_for_import customs i ≡ none) ↔ (ContentFits customs i × TimesFit i)
unfolding validate_for_import
validate_for_import_iff customs i = (
  λ h. let (c, t) = (content_error_iff customs i _).0 h in (c, (times_error_iff i).0 t),
  λ (c, t). (content_error_iff customs i _).1 (c, (times_error_iff i).1 t),
)

trusted : (types : List String) (t : String) → is_valid_type_with_custom (t ∷ types) t ≡ true
trusted types t = (is_valid_type_with_custom_iff (t ∷ types) t).1 (inr (inl refl))

-- An import gives the result, the error included, of a validation for which the issue's own type is
-- among the custom types, whatever others are.
validate_for_import_trusts :
    (customs types : List String) (i : Issue)
    → validate_for_import customs i ≡ validate_with_custom customs (i.issue_type ∷ types) i
unfolding validate_for_import validate_with_custom
validate_for_import_trusts customs types i = rw (trusted types i.issue_type) refl
