-- ===== src/Issues/Validate.antt =====
-- Issue.Validate and its kin of internal/types/issue.go: validation, defaults and tombstones.
-- The errors are values; their texts are not modelled. `now` is time.Now, in nanoseconds.
pub mod Accepted
pub mod Expiry
use Prim.Native.String.{String, len}
use loomcli.Common.{
  ℕ, ◌*◌, Bool, true, false, ◌&&◌, ◌||◌, not, Option, none, some, List, [], ◌∷◌, ℤ, pos, ltb, ltb_ℤ,
  eqb_ℤ, ◌==◌, ◌+ℤ◌, length, str_eq, is_some, wrap64, if◌then◌else◌,
}
use loomcli.Issues.{Issue, BondRef}
use loomcli.Issues.Enums.{
  is_valid_status_with_custom, is_valid_type_with_custom, is_valid_agent_state,
}

pub data ValidationError : Type 0 where
  title_required : ValidationError
  title_too_long : ℕ → ValidationError
  invalid_priority : ℤ → ValidationError
  invalid_status invalid_type invalid_agent_state : String → ValidationError
  negative_estimate closed_without_time time_without_closed : ValidationError
  tombstone_without_time time_without_tombstone : ValidationError

unfoldable pub is_tombstone : Issue → Bool
is_tombstone i = str_eq i.status "tombstone"

unfoldable pub negative_minutes : Option ℤ → Bool
negative_minutes none = false
negative_minutes (some m) = ltb_ℤ m (pos 0)

-- The four checks of `closed_at` and `deleted_at`, and what is checked behind them.
unfoldable pub stamps_error :
    String → Option ℤ → Option ℤ → Option ValidationError → Option ValidationError
stamps_error status closed_at deleted_at behind =
    if str_eq status "closed" && not (is_some closed_at)
    then some closed_without_time
    else if not (str_eq status "closed") && not (str_eq status "tombstone") && is_some closed_at
    then some time_without_closed
    else if str_eq status "tombstone" && not (is_some deleted_at)
    then some tombstone_without_time
    else if not (str_eq status "tombstone") && is_some deleted_at
    then some time_without_tombstone
    else behind

unfoldable pub agent_state_error : String → Option ValidationError
unfolding is_valid_agent_state
agent_state_error s = if not (is_valid_agent_state s) then some (invalid_agent_state s) else none

-- The checks behind those of the status and the type.
unfoldable pub times_error : Issue → Option ValidationError
unfolding negative_minutes stamps_error agent_state_error
times_error i =
    if negative_minutes i.estimated_minutes
    then some negative_estimate
    else stamps_error i.status i.closed_at i.deleted_at (agent_state_error i.agent_state)

-- The checks of the title, the priority and the status, and what is checked behind them.
unfoldable pub content_error : List String → Issue → Option ValidationError → Option ValidationError
unfolding is_valid_status_with_custom
content_error statuses i behind =
    if len i.title == 0
    then some title_required
    else if ltb 500 (len i.title)
    then some (title_too_long (len i.title))
    else if ltb_ℤ i.priority (pos 0) || ltb_ℤ (pos 4) i.priority
    then some (invalid_priority i.priority)
    else if not (is_valid_status_with_custom statuses i.status)
    then some (invalid_status i.status)
    else behind

unfoldable pub validate_with_custom : List String → List String → Issue → Option ValidationError
unfolding content_error times_error is_valid_type_with_custom
validate_with_custom statuses types i = content_error statuses i (
    if not (is_valid_type_with_custom types i.issue_type)
    then some (invalid_type i.issue_type)
    else times_error i)

unfoldable pub validate_with_custom_statuses : List String → Issue → Option ValidationError
unfolding validate_with_custom
validate_with_custom_statuses statuses i = validate_with_custom statuses [] i

unfoldable pub validate : Issue → Option ValidationError
unfolding validate_with_custom_statuses
validate i = validate_with_custom_statuses [] i

-- The type is trusted.
unfoldable pub validate_for_import : List String → Issue → Option ValidationError
unfolding content_error times_error
validate_for_import statuses i = content_error statuses i (times_error i)

unfoldable pub set_defaults : Issue → Issue
set_defaults i = record i {
  status = if str_eq i.status "" then "open" else i.status;
  issue_type = if str_eq i.issue_type "" then "task" else i.issue_type;
}

abbrev pub hour : ℕ
hour = 3_600_000_000_000

abbrev pub default_tombstone_ttl : ℤ
default_tombstone_ttl = pos (30 * 24 * hour)

abbrev pub clock_skew_grace : ℤ
clock_skew_grace = pos hour

-- The time to live with the grace, a `time.Duration` of 64 bits.
unfoldable pub effective_ttl : ℤ → ℤ
unfolding wrap64
effective_ttl ttl =
    let ttl = if eqb_ℤ ttl (pos 0) then default_tombstone_ttl else ttl in
    if ltb_ℤ clock_skew_grace ttl then wrap64 (ttl +ℤ clock_skew_grace) else ttl

unfoldable pub expired_at : Option ℤ → ℤ → ℤ → Bool
unfolding effective_ttl
expired_at none ttl now = false
expired_at (some deleted) ttl now =
    if ltb_ℤ ttl (pos 0) then true else ltb_ℤ (deleted +ℤ effective_ttl ttl) now

unfoldable pub is_expired : Issue → ℤ → ℤ → Bool
unfolding is_tombstone expired_at
is_expired i ttl now = if not (is_tombstone i) then false else expired_at i.deleted_at ttl now

unfoldable pub is_compound : Issue → Bool
is_compound i = ltb 0 (length i.bonded_from)

unfoldable pub get_constituents : Issue → List BondRef
get_constituents i = i.bonded_from
