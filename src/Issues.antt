-- ===== src/Issues.antt =====
-- internal/types/issue.go and relations.go: the records of the issue tracker that loom shares with
-- bd. A `time.Time` is its nanoseconds, a nil pointer is `none`. The identifier, the content hash,
-- the times of creation and update and the compaction and routing fields are left out: no function
-- of internal/types reads them.
pub mod Enums
pub mod Entity
pub mod Hierarchy
pub mod Validate
pub mod Lock
pub mod Hash
use loomcli.Common.{String, Bool, List, Option, ℤ}

pub record EntityRef : Type 0 where
  pub name : String
  pub platform : String
  pub org : String
  pub id : String

-- `created_at`, `metadata` and `thread_id` are left out.
pub record Dependency : Type 0 where
  pub issue_id : String
  pub depends_on_id : String
  pub type : String
  pub created_by : String

pub record Comment : Type 0 where
  pub id : ℤ
  pub issue_id : String
  pub author : String
  pub text : String

pub record BondRef : Type 0 where
  pub source_id : String
  pub bond_type : String
  pub bond_point : String

-- The score is the text that `%f` prints.
pub record Validation : Type 0 where
  pub validator : Option EntityRef
  pub outcome : String
  pub timestamp : ℤ
  pub score : Option String

-- The quality score is the text that `%f` prints.
pub record Issue : Type 0 where
  pub title : String
  pub description : String
  pub design : String
  pub acceptance_criteria : String
  pub notes : String
  pub status : String
  pub priority : ℤ
  pub issue_type : String
  pub assignee : String
  pub owner : String
  pub estimated_minutes : Option ℤ
  pub created_by : String
  pub closed_at : Option ℤ
  pub close_reason : String
  pub closed_by_session : String
  pub due_at : Option ℤ
  pub defer_until : Option ℤ
  pub external_ref : Option String
  pub source_system : String
  pub labels : List String
  pub dependencies : List Dependency
  pub comments : List Comment
  pub deleted_at : Option ℤ
  pub deleted_by : String
  pub delete_reason : String
  pub original_type : String
  pub sender : String
  pub ephemeral : Bool
  pub pinned : Bool
  pub is_template : Bool
  pub bonded_from : List BondRef
  pub creator : Option EntityRef
  pub validations : List Validation
  pub quality_score : Option String
  pub crystallizes : Bool
  pub await_type : String
  pub await_id : String
  pub timeout : ℤ
  pub waiters : List String
  pub holder : String
  pub source_formula : String
  pub source_location : String
  pub hook_bead : String
  pub role_bead : String
  pub agent_state : String
  pub role_type : String
  pub rig : String
  pub mol_type : String
  pub work_type : String
  pub event_kind : String
  pub actor : String
  pub target : String
  pub payload : String
