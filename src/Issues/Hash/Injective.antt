-- ===== src/Issues/Hash/Injective.antt =====
-- What the bytes that Issue.ComputeContentHash of internal/types/issue.go hashes tell of the issue.
use Prim.Native.Char.{nul}
use loomcli.Common.{
  ◌≡◌, refl, none, some, List, [], ◌∷◌, String, ℤ, pos, negsuc, ◌<ℤ◌, ◌≤ℤ◌, two63, ◌-◌, arith, ℕ,
  zero, suc, any, Option, false, has, has-Lacks, Lacks,
}
use mathlib.Core.Option
use loomcli.Issues.{Issue}
use loomcli.Issues.Hash.{Digest, compute_content_hash, bonds, validations, or_nothing}

-- No text has a null byte.
abbrev pub NullFree : List String → Type 0
NullFree [] = Unit {0}
NullFree (s ∷ ss) = Lacks nul s × NullFree ss

-- A test for it.
pub NullFree-any : (ss : List String) → any (has nul) ss ≡ false → NullFree ss
NullFree-any [] h = tt
NullFree-any (s ∷ ss) h = (has-Lacks nul s (ground arith), NullFree-any ss (ground arith))

abbrev pub IsInt64 : ℤ → Type 0
IsInt64 z = (z <ℤ pos two63) × (negsuc (two63 - 1) ≤ℤ z)

-- The text at a place of a list.
abbrev nth : ℕ → List String → String
nth n [] = ""
nth zero (s ∷ ss) = s
nth (suc n) (s ∷ ss) = nth n ss

-- A number that is not set is no number.
abbrev pub FitsInt64 : Option ℤ → Type 0
FitsInt64 none = Unit {0}
FitsInt64 (some z) = IsInt64 z

-- The issues have the same fields, among those that are hashed before the labels. An external
-- reference that is not set is as good as an empty one, and a time is the text of it, if it is set.
pub record SameCore (g : Digest) (i j : Issue) : Type 0 where
  pub title : i.title ≡ j.title
  pub description : i.description ≡ j.description
  pub design : i.design ≡ j.design
  pub acceptance_criteria : i.acceptance_criteria ≡ j.acceptance_criteria
  pub notes : i.notes ≡ j.notes
  pub status : i.status ≡ j.status
  pub issue_type : i.issue_type ≡ j.issue_type
  pub assignee : i.assignee ≡ j.assignee
  pub owner : i.owner ≡ j.owner
  pub created_by : i.created_by ≡ j.created_by
  pub source_system : i.source_system ≡ j.source_system
  pub close_reason : i.close_reason ≡ j.close_reason
  pub closed_by_session : i.closed_by_session ≡ j.closed_by_session
  pub sender : i.sender ≡ j.sender
  pub source_formula : i.source_formula ≡ j.source_formula
  pub source_location : i.source_location ≡ j.source_location
  pub deleted_by : i.deleted_by ≡ j.deleted_by
  pub delete_reason : i.delete_reason ≡ j.delete_reason
  pub original_type : i.original_type ≡ j.original_type
  pub priority : i.priority ≡ j.priority
  pub pinned : i.pinned ≡ j.pinned
  pub is_template : i.is_template ≡ j.is_template
  pub ephemeral : i.ephemeral ≡ j.ephemeral
  pub external_ref : or_nothing (λ s. s) i.external_ref ≡ or_nothing (λ s. s) j.external_ref
  pub estimated_minutes : i.estimated_minutes ≡ j.estimated_minutes
  pub due_at : Option.map g.rfc3339_nano i.due_at ≡ Option.map g.rfc3339_nano j.due_at
  pub defer_until :
      Option.map g.rfc3339_nano i.defer_until ≡ Option.map g.rfc3339_nano j.defer_until

-- A bond and a validation can stand for each other: an issue with one bond, of a time's text as type
-- and no bond point, has the content hash of the issue with no bond but with one validation
-- by nobody of that outcome and time, without a score.
compute_content_hash_collides :
    (g : Digest) (i : Issue) (outcome : String) (t : ℤ)
    → compute_content_hash g (record i {
      bonded_from = record { source_id = outcome; bond_type = g.rfc3339 t; bond_point = "" } ∷ [];
      creator = none;
      validations = [];
    })
      ≡ compute_content_hash g (record i {
        bonded_from = [];
        creator = none;
        validations =
            record { validator = none; outcome = outcome; timestamp = t; score = none } ∷ [];
      })
unfolding compute_content_hash bonds validations
compute_content_hash_collides g i outcome t = refl
