-- ===== src/Subscription.antt =====
-- internal/webui/subscription.go: the subscriber that asks the daemon for mutations and hands them to the hub,
-- and its poll of the database. What the daemon answers is an argument. Times are milliseconds from 1970
-- on. An error, a response without success and data that cannot be parsed are told apart where the code does.
pub mod Order
pub mod Polls
use loomcli.Common.{
  ℕ, ◌+◌, ◌*◌, ◌/◌, Bool, true, false, ◌||◌, not, Option, none, some, List, [], ◌∷◌, ◌++◌, String,
  ℤ, pos, ltb, leb, ltb_ℤ, contains, if◌then◌else◌,
}
use loomcli.Hub.{MutationPayload}

pub record MutationEvent : Type 0 where
  pub kind : String
  pub issue_id : String
  pub title : String
  pub assignee : String
  pub actor : String
  pub timestamp : ℕ
  pub old_status : String
  pub new_status : String
  pub parent_id : String
  pub step_count : ℤ

pub record DaemonSubscriber : Type 0 where
  pub last_since : ℕ
  pub use_fallback : Bool
  pub last_known_count : ℤ
  pub last_poll_time : ℕ
  pub count_initialized : Bool

-- What comes of a call for mutations.
pub data Answer : Type 0 where
  no_connection refused : Answer
  call_failed : String → Answer
  answered : Option (List MutationEvent) → Answer

-- What becomes of the connection.
pub data Connection : Type 0 where
  not_taken put_back discarded : Connection

pub record Turn : Type 0 where
  pub state : DaemonSubscriber
  pub sent : List MutationEvent
  pub wait : ℕ
  pub connection : Connection

abbrev pub retry_delay : ℕ
retry_delay = 2000

abbrev pub fallback_poll_interval : ℕ
fallback_poll_interval = 100

abbrev pub new_daemon_subscriber : DaemonSubscriber
new_daemon_subscriber = record {
  last_since = 0;
  use_fallback = false;
  last_known_count = pos 0;
  last_poll_time = 0;
  count_initialized = false;
}

-- `write` is the format RFC3339 of a time.
abbrev pub rpc_mutation_to_payload : (ℕ → String) → MutationEvent → MutationPayload
rpc_mutation_to_payload write m = record {
  kind = m.kind;
  issue_id = m.issue_id;
  title = m.title;
  assignee = m.assignee;
  actor = m.actor;
  timestamp = write m.timestamp;
  old_status = m.old_status;
  new_status = m.new_status;
  parent_id = m.parent_id;
  step_count = m.step_count;
}

unfoldable pub is_unknown_operation_error : String → Bool
is_unknown_operation_error e = contains e "unknown operation" || contains e "unsupported"

unfoldable pub max_timestamp : ℕ → List MutationEvent → ℕ
max_timestamp t [] = t
max_timestamp t (m ∷ ms) = max_timestamp (if ltb t m.timestamp then m.timestamp else t) ms

abbrev pub advanced : DaemonSubscriber → ℕ → DaemonSubscriber
advanced s t =
    if ltb 0 t then (if leb s.last_since t then record s { last_since = t + 1 } else s) else s

-- The state after a response, and what is broadcast.
unfoldable pub process_mutation_response :
    DaemonSubscriber → Option (List MutationEvent) → DaemonSubscriber × List MutationEvent
process_mutation_response s none = (s, [])
process_mutation_response s (some []) = (s, [])
process_mutation_response s (some (m ∷ ms)) = (advanced s (max_timestamp 0 (m ∷ ms)), m ∷ ms)

abbrev pub processed : ℕ → DaemonSubscriber × List MutationEvent → Turn
processed wait (s, sent) = record { state = s; sent = sent; wait = wait; connection = put_back }

abbrev pub idle : DaemonSubscriber → ℕ → Connection → Turn
idle s wait c = record { state = s; sent = []; wait = wait; connection = c }

unfoldable pub wait_for_mutations : DaemonSubscriber → Answer → Turn
wait_for_mutations s no_connection = idle s retry_delay not_taken
wait_for_mutations s (call_failed e) =
    if is_unknown_operation_error e
    then idle (record s { use_fallback = true }) 0 discarded
    else idle s retry_delay discarded
wait_for_mutations s refused = idle s retry_delay put_back
wait_for_mutations s (answered d) = processed 0 (process_mutation_response s d)

unfoldable pub poll_mutations : DaemonSubscriber → Answer → Turn
poll_mutations s no_connection = idle s retry_delay not_taken
poll_mutations s (call_failed e) = idle s retry_delay put_back
poll_mutations s refused = idle s retry_delay put_back
poll_mutations s (answered d) = processed fallback_poll_interval (process_mutation_response s d)

-- A turn of subscriptionLoop that is not told to stop; the flag tells whether there is a pool.
unfoldable pub subscription_turn : Bool → DaemonSubscriber → Answer → Turn
subscription_turn has_pool s a =
    if not has_pool
    then idle s retry_delay not_taken
    else if s.use_fallback
    then poll_mutations s a
    else wait_for_mutations s a

-- GetMutationsSince, for a stream that comes back.
abbrev pub get_mutations_since : Bool → Answer → List MutationEvent
get_mutations_since true (answered (some ms)) = ms
get_mutations_since _ _ = []

-- With the refresh that is broadcast, if there is one.
abbrev pub refreshed : DaemonSubscriber → ℕ → ℤ → DaemonSubscriber × Option ℕ
refreshed s now n = (record s { last_known_count = n; last_poll_time = now }, some now)

abbrev pub polled : DaemonSubscriber → ℕ → DaemonSubscriber × Option ℕ
polled s now = (record s { last_poll_time = now }, none)

-- A count that the daemon does not give is `none`.
abbrev pub after_second : DaemonSubscriber → ℕ → ℤ → Option ℤ → DaemonSubscriber × Option ℕ
after_second s now n none = polled s now
after_second s now n (some k) = if ltb_ℤ (pos 0) k then refreshed s now n else polled s now

abbrev pub after_count : DaemonSubscriber → ℕ → Option ℤ → Option ℤ → DaemonSubscriber × Option ℕ
after_count s now none second = (s, none)
after_count s now (some n) second =
    if not s.count_initialized
    then (record s { last_known_count = n; last_poll_time = now; count_initialized = true }, none)
    else if ltb_ℤ n s.last_known_count || ltb_ℤ s.last_known_count n
    then refreshed s now n
    else after_second s now n second

-- pollDBChanges: the flag tells whether there is a connection; `second` is the count of the issues
-- that were updated after the last poll.
unfoldable pub poll_db_changes :
    DaemonSubscriber → Bool → ℕ → Option ℤ → Option ℤ → DaemonSubscriber × Option ℕ
poll_db_changes s false now first second = (s, none)
poll_db_changes s true now first second = after_count s now first second

-- The time that the second count asks for, written in seconds.
abbrev pub updated_after : DaemonSubscriber → ℕ
updated_after s = s.last_poll_time / 1000 * 1000
