-- ===== src/Kv/Client.antt =====
-- internal/kv/client.go: the operations behind the circuit breaker, and what they make of the replies
-- of the scripts. An error of the driver is left out.
use loomcli.Common.{
  ℕ, Bool, true, false, ◌||◌, Option, none, some, List, [], ◌∷◌, String, ℤ, pos, str_eq, eqb_ℤ, has,
  contains, itoa, atoi, if◌then◌else◌, ◌-◌,
}
use loomcli.Kv.{
  Redis, Reply, int, str, null, fields_of, task_owner_key, worker_state_key, active_workers_key,
  default_ttl_seconds, claim_script, heartbeat_script, complete_script, cleanup_owner_script, get,
}

pub data IdError : Type 0 where
  empty_id invalid_characters : IdError

pub data KvError : Type 0 where
  bad_id : IdError → KvError
  wrong_length bad_status bad_message : KvError

pub data Result (A : Type 0) : Type 0 where
  ok : A → Result A
  err : KvError → Result A

pub record ClaimResult : Type 0 where
  pub success : Bool
  pub existing_owner : String

pub record HeartbeatResult : Type 0 where
  pub success : Bool
  pub ttl : ℤ
  pub error : String

pub record CompleteResult : Type 0 where
  pub success : Bool
  pub error : String

unfoldable pub validate_id : String → Option IdError
validate_id id =
    if str_eq id ""
    then some empty_id
    else if has ":" id || has "\n" id || has "\r" id || has "\t" id || has " " id
    then some invalid_characters
    else none

abbrev pub to_int64 : Reply → Option ℤ
to_int64 (int z) = some z
to_int64 (str s) = atoi s
to_int64 null = none

abbrev pub to_string : Reply → Option String
to_string (str s) = some s
to_string (int z) = some (itoa z)
to_string null = some ""

-- The status and the message of a reply.
abbrev pub with_message : ℤ → Option String → Result (ℤ × String)
with_message status none = err bad_message
with_message status (some m) = ok (status, m)

abbrev pub with_status : Option ℤ → Reply → Result (ℤ × String)
with_status none b = err bad_status
with_status (some status) b = with_message status (to_string b)

abbrev pub read_reply : List Reply → Result (ℤ × String)
read_reply (a ∷ b ∷ []) = with_status (to_int64 a) b
read_reply _ = err wrong_length

abbrev pub claim_result : Result (ℤ × String) → Result ClaimResult
claim_result (err e) = err e
claim_result (ok (status, m)) =
    if eqb_ℤ status (pos 1)
    then ok (record { success = true; existing_owner = "" })
    else ok (record { success = false; existing_owner = m })

abbrev pub number_or_zero : Option ℤ → ℤ
number_or_zero none = pos 0
number_or_zero (some z) = z

abbrev pub heartbeat_result : Result (ℤ × String) → Result HeartbeatResult
heartbeat_result (err e) = err e
heartbeat_result (ok (status, m)) =
    if eqb_ℤ status (pos 1)
    then ok (record { success = true; ttl = number_or_zero (atoi m); error = "" })
    else ok (record { success = false; ttl = pos 0; error = m })

abbrev pub complete_result : Result (ℤ × String) → Result CompleteResult
complete_result (err e) = err e
complete_result (ok (status, m)) =
    if eqb_ℤ status (pos 1)
    then ok (record { success = true; error = "" })
    else ok (record { success = false; error = m })

-- An operation behind the check of its ids.
abbrev pub guarded : {S A : Type 0} → S → Option IdError → S × Result A → S × Result A
guarded s none x = x
guarded s (some e) x = (s, err (bad_id e))

abbrev pub fst_map : {S A B : Type 0} → (A → B) → S × A → S × B
fst_map f (s, a) = (s, f a)

module _ (r : Redis) where
  open r use {Server, view, del, zrem, zrange}

  unfoldable pub claim_task :
      Server → ℕ → String → String → String → String → Server × Result ClaimResult
  claim_task s now worker task title agent = guarded s (validate_id worker) (
      guarded s (validate_id task) (
        fst_map (λ l. claim_result (read_reply l))
          (claim_script r s now worker task title agent default_ttl_seconds)))

  unfoldable pub heartbeat : Server → ℕ → String → Server × Result HeartbeatResult
  heartbeat s now worker = guarded s (validate_id worker) (
      fst_map (λ l. heartbeat_result (read_reply l))
        (heartbeat_script r s now worker default_ttl_seconds))

  unfoldable pub complete_task : Server → ℕ → String → String → Server × Result CompleteResult
  complete_task s now worker task = guarded s (validate_id worker) (
      guarded s (validate_id task) (
        fst_map (λ l. complete_result (read_reply l))
          (complete_script r s now worker task default_ttl_seconds)))

  unfoldable pub delete_task_owner_if_match : Server → ℕ → String → String → Server × Result Bool
  delete_task_owner_if_match s now task expected =
      guarded s (validate_id task)
        (guarded s (validate_id expected) (fst_map ok (cleanup_owner_script r s now task expected)))

  -- The empty text stands for no owner.
  abbrev pub or_empty : Option String → String
  or_empty none = ""
  or_empty (some v) = v

  unfoldable pub get_task_owner : Server → ℕ → String → String
  get_task_owner s now task = or_empty (get r s now (task_owner_key task))

  unfoldable pub get_worker_state : Server → ℕ → String → List (String × String)
  get_worker_state s now worker = fields_of (view s now (worker_state_key worker))

  -- The cutoff stops at time 0. Scores up to the cutoff are returned, the cutoff included.
  unfoldable pub get_stale_workers : Server → ℕ → ℕ → List (String × ℕ)
  get_stale_workers s now threshold = zrange s active_workers_key (now - threshold)

  unfoldable pub delete_task_owner : Server → String → Server
  delete_task_owner s task = del s (task_owner_key task)

  unfoldable pub delete_worker_state : Server → String → Server
  delete_worker_state s worker = del s (worker_state_key worker)

  unfoldable pub remove_active_worker : Server → String → Server
  remove_active_worker s worker = zrem s active_workers_key worker

-- What a call of the driver returned: no error, the context's errors, an error of the network, and any
-- other by its text.
pub data RedisError : Type 0 where
  no_error canceled deadline_exceeded network : RedisError
  other : String → RedisError

unfoldable pub redis_should_trip : RedisError → Bool
unfolding contains
redis_should_trip no_error = false
redis_should_trip canceled = false
redis_should_trip deadline_exceeded = false
redis_should_trip network = true
redis_should_trip (other e) =
    contains e "connection refused"
    || contains e "EOF"
    || contains e "connection reset"
    || contains e "broken pipe"
