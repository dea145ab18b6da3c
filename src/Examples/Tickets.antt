-- ===== src/Examples/Tickets.antt =====
-- Issues, entities, identifiers and locks of internal/types at concrete inputs.
use mathlib.Core.List.{Permᴰ}
use loomcli.Common.{
  ℕ, ◌≡◌, refl, ◌↔◌, ◌⊎◌, inl, inr, true, false, none, some, [], ◌∷◌, String, pos, In, has,
  has-Lacks, apart, ap, ◌+◌, str_eq,
}
use loomcli.Issues.{EntityRef, Dependency, Comment, Issue}
use loomcli.Issues.Entity.{uri, parse_entity_uri, ok}
use loomcli.Issues.Entity.RoundTrip.{parse_entity_uri-uri}
use loomcli.Issues.Hierarchy.{parse_hierarchical_id, generate_child_id}
use loomcli.Issues.Hierarchy.RoundTrip.{parse_hierarchical_id-generate_child_id}
use loomcli.Issues.Enums.{issue_types}
use loomcli.Issues.Validate.{validate_with_custom}
use loomcli.Issues.Validate.Accepted.{ContentFits, TimesFit, validate_with_custom_iff}
use loomcli.Issues.Lock.{
  ExclusiveLock, World, bytes, not_exist, no_such_process, should_skip_database,
}
use loomcli.Issues.Lock.Safe.{HasStaleLock, should_skip_database_proceeds}
use loomcli.Issues.Hash.{Digest, compute_content_hash}
use loomcli.Issues.Hash.Order.{compute_content_hash-Permᴰ}

abbrev nux : EntityRef
nux = record { name = "polecat/Nux"; platform = "gastown"; org = "steveyegge"; id = "polecat/nux" }

parse_entity_uri-uri_example : parse_entity_uri (uri (some nux)) ≡ ok (record nux { name = "" })
unfolding has
parse_entity_uri-uri_example =
    parse_entity_uri-uri nux (apart "gastown" "" refl) (apart "steveyegge" "" refl)
      (apart "polecat/nux" "" refl) (has-Lacks "/" "gastown" refl) (has-Lacks "/" "steveyegge" refl)

parse_hierarchical_id-generate_child_id_example :
    parse_hierarchical_id (generate_child_id "bd-a3.7" (pos 12)) ≡ record {
      root = (parse_hierarchical_id "bd-a3.7").root;
      parent = "bd-a3.7";
      depth = (parse_hierarchical_id "bd-a3.7").depth + 1;
    }
parse_hierarchical_id-generate_child_id_example =
    parse_hierarchical_id-generate_child_id "bd-a3.7" (pos 12)

abbrev label_of : String → String → Dependency
label_of a b = record { issue_id = a; depends_on_id = b; type = "blocks"; created_by = "mayor" }

abbrev says : ℕ → String → Comment
says n text = record { id = pos n; issue_id = "bd-1"; author = "nux"; text = text }

abbrev ticket : Issue
ticket = record {
  title = "Fix the pool";
  description = "";
  design = "";
  acceptance_criteria = "";
  notes = "";
  status = "tombstone";
  priority = pos 1;
  issue_type = "molecule";
  assignee = "";
  owner = "";
  estimated_minutes = some (pos 30);
  created_by = "mayor";
  closed_at = none;
  close_reason = "";
  closed_by_session = "";
  due_at = none;
  defer_until = none;
  external_ref = none;
  source_system = "";
  labels = "go" ∷ "db" ∷ [];
  dependencies = label_of "bd-1" "bd-3" ∷ label_of "bd-1" "bd-2" ∷ [];
  comments = says 2 "done" ∷ says 1 "start" ∷ [];
  deleted_at = some (pos 1000);
  deleted_by = "mayor";
  delete_reason = "";
  original_type = "task";
  sender = "";
  ephemeral = false;
  pinned = true;
  is_template = false;
  bonded_from = [];
  creator = some nux;
  validations = [];
  quality_score = none;
  crystallizes = false;
  await_type = "";
  await_id = "";
  timeout = pos 0;
  waiters = "b" ∷ "a" ∷ [];
  holder = "";
  source_formula = "";
  source_location = "";
  hook_bead = "";
  role_bead = "";
  agent_state = "idle";
  role_type = "";
  rig = "";
  mol_type = "";
  work_type = "";
  event_kind = "";
  actor = "";
  target = "";
  payload = "";
}

validate_with_custom_iff_example : (validate_with_custom [] ("molecule" ∷ []) ticket ≡ none) ↔ (
    ContentFits [] ticket
    × (In ticket.issue_type issue_types ⊎ In ticket.issue_type ("molecule" ∷ []))
    × TimesFit ticket)
validate_with_custom_iff_example = validate_with_custom_iff [] ("molecule" ∷ []) ticket

abbrev lock : ExclusiveLock
lock = record {
  holder = "vc-executor";
  pid = pos 77;
  hostname = "build1";
  started_at = some (pos 5);
  version = "1.0";
}

-- A host on which the process of the lock is gone.
abbrev world : World
world = record {
  hostname = some "build1";
  equal_fold = str_eq;
  probe = λ _. no_such_process;
  read_lock = bytes "{...}";
  unmarshal = λ _. some lock;
  can_remove = true;
}

should_skip_database_proceeds_example :
    ((should_skip_database world).skip ≡ false ↔ (world.read_lock ≡ not_exist) ⊎ HasStaleLock world)
    × ((should_skip_database world).removed ≡ true ↔ HasStaleLock world)
should_skip_database_proceeds_example = should_skip_database_proceeds world

abbrev digest : Digest
digest = record {
  sha256_hex = λ s. s;
  rfc3339 = λ _. "2026-01-01T00:00:00Z";
  rfc3339_nano = λ _. "2026-01-01T00:00:00.5Z";
}

one_comment :
    (a b : Comment) → In a (ticket.comments) → In b (ticket.comments) → a.id ≡ b.id → a ≡ b
one_comment a b (inl p) (inl q) e = cc (p, q)
one_comment a b (inl p) (inr (inl q)) e = absurd (cc (ap (λ c. c.id) p, ap (λ c. c.id) q, e))
one_comment a b (inr (inl p)) (inl q) e = absurd (cc (ap (λ c. c.id) p, ap (λ c. c.id) q, e))
one_comment a b (inr (inl p)) (inr (inl q)) e = cc (p, q)
one_comment a b (inl p) (inr (inr m)) e = absurd m
one_comment a b (inr (inl p)) (inr (inr m)) e = absurd m
one_comment a b (inr (inr m)) _ e = absurd m

compute_content_hash-Permᴰ_example :
    compute_content_hash digest (record ticket {
      labels = "db" ∷ "go" ∷ [];
      waiters = "a" ∷ "b" ∷ [];
      dependencies = label_of "bd-1" "bd-2" ∷ label_of "bd-1" "bd-3" ∷ [];
      comments = says 1 "start" ∷ says 2 "done" ∷ [];
    })
    ≡ compute_content_hash digest ticket
compute_content_hash-Permᴰ_example =
    compute_content_hash-Permᴰ digest ticket (Permᴰ.swap refl refl) (Permᴰ.swap refl refl)
      (Permᴰ.swap refl refl) one_comment (Permᴰ.swap refl refl)

-- The same issue with its labels in another order.
abbrev relabelled : Issue
relabelled = record ticket { labels = "db" ∷ "go" ∷ [] }
