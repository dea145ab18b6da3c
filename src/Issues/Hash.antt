-- ===== src/Issues/Hash.antt =====
-- Issue.ComputeContentHash of internal/types/issue.go. Every method of `hashFieldWriter` writes texts
-- that each end in a null byte; here a writer is the list of those texts. SHA-256 and the layouts of
-- time.Format are the parameter `Digest`.
pub mod Order
pub mod Injective
use Prim.Native.Char.{nul}
use Prim.Native.String.{◌++◌}
use loomcli.Common.{
  ℤ, Bool, List, Option, String, [], ◌∷◌, ◌++◌ as append, if◌then◌else◌, ltb_ℤ, itoa, map, none,
  one, some, sort_by, str_ltb,
}
use loomcli.Issues.{EntityRef, Dependency, Comment, BondRef, Validation, Issue}

pub record Digest : Type 0 where
  pub sha256_hex : String → String
  pub rfc3339 : ℤ → String
  pub rfc3339_nano : ℤ → String

infixr 65 ◌then◌
abbrev ◌then◌ : List String → List String → List String
xs then ys = append xs ys

abbrev str : String → List String
str s = s ∷ []

abbrev pub or_nothing : {A : Type 0} → (A → String) → Option A → String
or_nothing show none = ""
or_nothing show (some a) = show a

abbrev str_ptr : Option String → List String
str_ptr p = or_nothing (λ s. s) p ∷ []

abbrev flag : Bool → String → List String
flag b label = (if b then label else "") ∷ []

int_ptr : Option ℤ → List String
unfolding itoa
int_ptr p = or_nothing (λ n. "set:" ++ itoa n) p ∷ []

time_ptr : Digest → Option ℤ → List String
time_ptr g t = or_nothing (λ t. "set:" ++ g.rfc3339_nano t) t ∷ []

unfoldable pub sorted_strings : List String → List String
unfolding sort_by str_ltb
sorted_strings ss = append (sort_by str_ltb ss) ("" ∷ [])

unfoldable pub dependency_key : Dependency → String
dependency_key d = d.issue_id ++ ":" ++ d.depends_on_id ++ ":" ++ d.type ++ ":" ++ d.created_by

-- The keys are sorted as texts, as labels are.
unfoldable pub dependencies : List Dependency → List String
unfolding sorted_strings dependency_key
dependencies deps = sorted_strings (map dependency_key deps)

abbrev pub comment_less : ℤ × String → ℤ × String → Bool
comment_less a b = ltb_ℤ a.0 b.0

unfoldable pub comment_key : Comment → ℤ × String
unfolding itoa
comment_key c = (c.id, itoa c.id ++ ":" ++ c.issue_id ++ ":" ++ c.author ++ ":" ++ c.text)

unfoldable pub comments : List Comment → List String
unfolding sort_by comment_key
comments cs = append (map (λ k. k.1) (sort_by comment_less (map comment_key cs))) ("" ∷ [])

unfoldable pub bonds : List BondRef → List String
bonds [] = []
bonds (b ∷ bs) = str b.source_id then str b.bond_type then str b.bond_point then bonds bs

unfoldable pub entity_ref : Option EntityRef → List String
entity_ref none = []
entity_ref (some e) = str e.name then str e.platform then str e.org then str e.id

unfoldable pub validations : Digest → List Validation → List String
unfolding entity_ref
validations g [] = []
validations g (v ∷ vs) =
    entity_ref v.validator
    then str v.outcome
    then str (g.rfc3339 v.timestamp)
    then str_ptr v.score
    then validations g vs

-- The fields before the labels: one text each.
unfoldable pub core_fields : Digest → Issue → List String
unfolding itoa int_ptr time_ptr
core_fields g i =
    str i.title
    then str i.description
    then str i.design
    then str i.acceptance_criteria
    then str i.notes
    then str i.status
    then str (itoa i.priority)
    then str i.issue_type
    then str i.assignee
    then str i.owner
    then str i.created_by
    then str_ptr i.external_ref
    then str i.source_system
    then flag i.pinned "pinned"
    then flag i.is_template "template"
    then int_ptr i.estimated_minutes
    then time_ptr g i.due_at
    then time_ptr g i.defer_until
    then str i.close_reason
    then str i.closed_by_session
    then str i.sender
    then str i.source_formula
    then str i.source_location
    then flag i.ephemeral "ephemeral"
    then str i.deleted_by
    then str i.delete_reason
    then str i.original_type

-- The fields behind the validations.
unfoldable pub last_fields : Digest → Issue → List String
unfolding itoa sorted_strings
last_fields g i =
    str_ptr i.quality_score
    then flag i.crystallizes "crystallizes"
    then str i.await_type
    then str i.await_id
    then str (itoa i.timeout)
    then sorted_strings i.waiters
    then str i.holder
    then str i.hook_bead
    then str i.role_bead
    then str i.agent_state
    then str i.role_type
    then str i.rig
    then str i.mol_type
    then str i.work_type
    then str i.event_kind
    then str i.actor
    then str i.target
    then str i.payload

unfoldable pub fields : Digest → Issue → List String
unfolding core_fields last_fields sorted_strings dependencies comments bonds entity_ref validations
fields g i =
    core_fields g i
    then sorted_strings i.labels
    then dependencies i.dependencies
    then comments i.comments
    then bonds i.bonded_from
    then entity_ref i.creator
    then validations g i.validations
    then last_fields g i

-- The bytes that the hash reads.
unfoldable pub written : List String → String
written [] = ""
written (s ∷ ss) = s ++ one nul ++ written ss

unfoldable pub compute_content_hash : Digest → Issue → String
unfolding fields written
compute_content_hash g i = g.sha256_hex (written (fields g i))
