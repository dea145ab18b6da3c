-- ===== src/Examples/Changes.antt =====
-- Answers of the daemon to the subscriber of internal/webui/subscription.go.
use loomcli.Common.{
  String, contains, ℕ, ◌+◌, ◌<◌, ◌≡◌, refl, true, none, some, [], ◌∷◌, pos, inl, arith,
}
use loomcli.Subscription.{
  MutationEvent, DaemonSubscriber, call_failed, answered, new_daemon_subscriber, subscription_turn,
  wait_for_mutations, poll_mutations, process_mutation_response, max_timestamp,
  is_unknown_operation_error, poll_db_changes,
}
use loomcli.Subscription.Order.{turns_apart}
use loomcli.Subscription.Polls.{count_after, refreshes, failed_count_forgets}

abbrev changed : String → ℕ → MutationEvent
changed id at = record {
  kind = "update";
  issue_id = id;
  title = "";
  assignee = "";
  actor = "";
  timestamp = at;
  old_status = "";
  new_status = "";
  parent_id = "";
  step_count = pos 0;
}

-- Two mutations, an old daemon, and a third mutation.
turns_apart_example : (◌+◌ 700 1) < 950
unfolding subscription_turn wait_for_mutations poll_mutations process_mutation_response
    max_timestamp is_unknown_operation_error contains
turns_apart_example =
    turns_apart true new_daemon_subscriber
      (answered (some (changed "bd-1" 700 ∷ changed "bd-2" 800 ∷ [])))
      (call_failed "unknown operation: wait_for_mutations"
        ∷ answered (some (changed "bd-3" 950 ∷ []))
        ∷ [])
      (changed "bd-1" 700) (changed "bd-3" 950) (tt, ((omega arith, tt), tt)) (inl refl)
      (omega arith) (inl refl)

abbrev subscriber : DaemonSubscriber
subscriber = record new_daemon_subscriber {
  last_known_count = pos 3;
  last_poll_time = 10500;
  count_initialized = true;
}

failed_count_forgets_example :
    ((poll_db_changes subscriber true 13600
        (some (pos 3))
        (some (pos (count_after (11000 ∷ []) 10000)))).1
      ≡ some 13600)
    × ((poll_db_changes subscriber true 13600 (some (pos 3)) none).1 ≡ none)
    × (refreshes
          (poll_db_changes subscriber true 13600 (some (pos 3)) none).0
          (11000 ∷ [])
          (pos 3)
          13600
          (3000 ∷ 3000 ∷ [])
        ≡ [])
failed_count_forgets_example =
    failed_count_forgets subscriber (11000 ∷ []) 13600 11000 (3000 ∷ 3000 ∷ []) refl (inl refl)
      (omega arith) (omega arith, tt)
