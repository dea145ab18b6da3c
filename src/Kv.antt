-- ===== src/Kv.antt =====
-- internal/kv: the claims of tasks by the workers of a fleet, kept in Redis by Lua scripts. Redis is the
-- parameter `Redis`; a script is one step. Times are milliseconds, and commands that the network loses
-- are left out.
pub mod Client
pub mod Leases
pub mod Listed
pub mod Keys
pub mod Effects
pub mod Requests
pub mod Refines
pub mod Exclusion
pub mod Forgets
pub mod Server
pub mod Stale
use Prim.Native.String.{◌++◌}
use loomcli.Fleet.{is_recorded}
use loomcli.Common.{
  ℕ, ◌+◌, ◌*◌, ◌≤◌, ◌≡◌, Bool, true, false, not, ◌||◌, Option, none, some, List, [], ◌∷◌, String, ℤ,
  pos, str_eq, ltb, leb, insert, remove, lookup, is_some, if◌then◌else◌, itoa, has,
}

-- What a key holds.
pub data Value : Type 0 where
  plain : String → Value
  hash : List (String × String) → Value

abbrev pub text_of : Option Value → Option String
text_of (some (plain v)) = some v
text_of (some (hash fs)) = none
text_of none = none

abbrev pub fields_of : Option Value → List (String × String)
fields_of (some (hash fs)) = fs
fields_of (some (plain v)) = []
fields_of none = []

-- HSET of one field, for what the key holds when it is run and what it would hold at a later time.
abbrev pub put_field : String → String → Option Value → Option Value → Option Value
put_field f v none later = some (hash ((f, v) ∷ []))
put_field f v (some (plain x)) later = later
put_field f v (some (hash fs)) none = none
put_field f v (some (hash fs)) (some _) = some (hash (insert f v fs))

-- A hash without fields is no key.
abbrev pub hash_of : List (String × String) → Option Value
hash_of [] = none
hash_of (f ∷ fs) = some (hash (f ∷ fs))

-- HDEL of one field.
abbrev pub drop_field : String → Option Value → Option Value → Option Value
drop_field f none later = later
drop_field f (some (plain x)) later = later
drop_field f (some (hash fs)) none = none
drop_field f (some (hash fs)) (some _) = hash_of (remove f fs)

-- The commands SET with EX, SET with NX and EX, EXPIRE, DEL, HSET, HDEL, ZADD, ZREM and ZRANGEBYSCORE, and
-- what a key holds after them. A key is gone from its deadline on; a deadline is
-- given in milliseconds from now.
pub record Redis : Type 1 where
  pub Server : Type 0
  pub view : Server → ℕ → String → Option Value
  pub set_ex : Server → ℕ → String → String → ℕ → Server
  pub set_nx : Server → ℕ → String → String → ℕ → Server × Bool
  pub expire : Server → ℕ → String → ℕ → Server
  pub del : Server → String → Server
  pub hset : Server → ℕ → String → String → String → Server
  pub hdel : Server → ℕ → String → String → Server
  pub zadd : Server → String → ℕ → String → Server
  pub zrem : Server → String → String → Server
  pub zrange : Server → String → ℕ → List (String × ℕ)
  pub view-set_ex :
      (s : Server) (now : ℕ) (k v : String) (ttl t : ℕ) (j : String)
      → now ≤ t
      → view (set_ex s now k v ttl) t j
        ≡ (if str_eq k j then (if ltb t (now + ttl) then some (plain v) else none) else view s t j)
  pub set_nx-free :
      (s : Server) (now : ℕ) (k v : String) (ttl : ℕ)
      → (set_nx s now k v ttl).1 ≡ not (is_some (view s now k))
  pub view-set_nx :
      (s : Server) (now : ℕ) (k v : String) (ttl t : ℕ) (j : String)
      → now ≤ t
      → view (set_nx s now k v ttl).0 t j ≡ (
          if str_eq k j
          then (if is_some (view s now j)
              then view s t j
              else if ltb t (now + ttl)
              then some (plain v)
              else none)
          else view s t j)
  pub view-expire :
      (s : Server) (now : ℕ) (k : String) (ttl t : ℕ) (j : String)
      → now ≤ t
      → view (expire s now k ttl) t j
        ≡ (if str_eq k j then (if ltb t (now + ttl) then view s now j else none) else view s t j)
  pub view-del :
      (s : Server) (k : String) (t : ℕ) (j : String)
      → view (del s k) t j ≡ (if str_eq k j then none else view s t j)
  pub view-hset :
      (s : Server) (now : ℕ) (k f v : String) (t : ℕ) (j : String)
      → now ≤ t
      → view (hset s now k f v) t j
        ≡ (if str_eq k j then put_field f v (view s now j) (view s t j) else view s t j)
  pub view-hdel :
      (s : Server) (now : ℕ) (k f : String) (t : ℕ) (j : String)
      → now ≤ t
      → view (hdel s now k f) t j
        ≡ (if str_eq k j then drop_field f (view s now j) (view s t j) else view s t j)
  pub view-zadd :
      (s : Server) (z : String) (score : ℕ) (m : String) (t : ℕ) (j : String)
      → view (zadd s z score m) t j ≡ view s t j
  pub view-zrem :
      (s : Server) (z m : String) (t : ℕ) (j : String) → view (zrem s z m) t j ≡ view s t j
  pub zrange-zadd :
      (s : Server) (z : String) (score : ℕ) (m : String) (max : ℕ) (x : String)
      → is_recorded x (zrange (zadd s z score m) z max)
        ≡ (if str_eq m x then leb score max else is_recorded x (zrange s z max))
  pub zrange-zrem :
      (s : Server) (z m : String) (max : ℕ) (x : String)
      → is_recorded x (zrange (zrem s z m) z max)
        ≡ (if str_eq m x then false else is_recorded x (zrange s z max))
  pub zrange-set_ex :
      (s : Server) (now : ℕ) (k v : String) (ttl : ℕ) (z : String) (max : ℕ)
      → str_eq k z ≡ false
      → zrange (set_ex s now k v ttl) z max ≡ zrange s z max
  pub zrange-expire :
      (s : Server) (now : ℕ) (k : String) (ttl : ℕ) (z : String) (max : ℕ)
      → str_eq k z ≡ false
      → zrange (expire s now k ttl) z max ≡ zrange s z max
  pub zrange-del :
      (s : Server) (k z : String) (max : ℕ)
      → str_eq k z ≡ false
      → zrange (del s k) z max ≡ zrange s z max
  pub zrange-hset :
      (s : Server) (now : ℕ) (k f v z : String) (max : ℕ)
      → str_eq k z ≡ false
      → zrange (hset s now k f v) z max ≡ zrange s z max
  pub zrange-hdel :
      (s : Server) (now : ℕ) (k f z : String) (max : ℕ)
      → str_eq k z ≡ false
      → zrange (hdel s now k f) z max ≡ zrange s z max

abbrev pub task_owner_key : String → String
task_owner_key task = "loom:task:" ++ task ++ ":owner"

abbrev pub worker_state_key : String → String
worker_state_key worker = "loom:worker:" ++ worker ++ ":state"

abbrev pub active_workers_key : String
active_workers_key = "loom:workers:active"

abbrev pub default_ttl_seconds : ℕ
default_ttl_seconds = 300

-- Of a key's time to live in seconds.
abbrev pub ms : ℕ → ℕ
ms seconds = seconds * 1000

-- What a script returns, as the driver gives it.
pub data Reply : Type 0 where
  int : ℤ → Reply
  str : String → Reply
  null : Reply

-- What claimScript writes to the state of the worker.
abbrev pub claimed_fields : ℕ → String → String → String → List (String × String)
claimed_fields now task title agent =
    ("task_id", task)
    ∷ ("task_title", title)
    ∷ ("state", "working")
    ∷ ("claimed_at", itoa (pos now))
    ∷ ("agent_type", agent)
    ∷ []

-- What completeScript deletes from it.
abbrev pub cleared_fields : List String
cleared_fields = "task_id" ∷ "task_title" ∷ "claimed_at" ∷ []

module _ (r : Redis) where
  open r use {Server, view, set_ex, expire, del, hset, hdel, zadd}

  -- GET and HGET.
  abbrev pub get : Server → ℕ → String → Option String
  get s now k = text_of (view s now k)

  abbrev pub hget : Server → ℕ → String → String → Option String
  hget s now k f = lookup f (fields_of (view s now k))

  abbrev pub hset_all : Server → ℕ → String → List (String × String) → Server
  hset_all s now k [] = s
  hset_all s now k ((f, v) ∷ fs) = hset_all (hset s now k f v) now k fs

  abbrev pub hdel_all : Server → ℕ → String → List String → Server
  hdel_all s now k [] = s
  hdel_all s now k (f ∷ fs) = hdel_all (hdel s now k f) now k fs

  -- The two commands at the end of each script: EXPIRE for the state, and ZADD.
  unfoldable pub keep_alive : Server → ℕ → String → ℕ → Server
  keep_alive s now worker ttl =
      zadd (expire s now (worker_state_key worker) (ms ttl)) active_workers_key now worker

  -- claimScript, behind its guard.
  unfoldable pub take_task : Server → ℕ → String → String → String → String → ℕ → Server
  take_task s now worker task title agent ttl =
      let owned = set_ex s now (task_owner_key task) worker (ms ttl) in
      let stated =
        hset_all owned now (worker_state_key worker) (claimed_fields now task title agent) in
      keep_alive stated now worker ttl

  abbrev pub claim_guarded :
      Server → ℕ → String → String → String → String → ℕ → Option String → Server × List Reply
  claim_guarded s now worker task title agent ttl none =
      (take_task s now worker task title agent ttl, int (pos 1) ∷ str "" ∷ [])
  claim_guarded s now worker task title agent ttl (some existing) =
      if str_eq existing worker
      then (take_task s now worker task title agent ttl, int (pos 1) ∷ str "" ∷ [])
      else (s, int (pos 0) ∷ str existing ∷ [])

  unfoldable pub claim_script :
      Server → ℕ → String → String → String → String → ℕ → Server × List Reply
  claim_script s now worker task title agent ttl =
      claim_guarded s now worker task title agent ttl (get s now (task_owner_key task))

  -- heartbeatScript.
  abbrev pub beat : Server → ℕ → String → ℕ → Server × List Reply
  beat s now worker ttl = (keep_alive s now worker ttl, int (pos 1) ∷ str (itoa (pos ttl)) ∷ [])

  abbrev pub beat_for : Server → ℕ → String → ℕ → String → Option String → Server × List Reply
  beat_for s now worker ttl task none = beat s now worker ttl
  beat_for s now worker ttl task (some owner) =
      if str_eq owner worker
      then beat (expire s now (task_owner_key task) (ms ttl)) now worker ttl
      else (s, int (pos 0) ∷ str "ownership_lost" ∷ [])

  abbrev pub beat_task : Server → ℕ → String → ℕ → Option String → Server × List Reply
  beat_task s now worker ttl none = beat s now worker ttl
  beat_task s now worker ttl (some task) =
      beat_for s now worker ttl task (get s now (task_owner_key task))

  unfoldable pub heartbeat_script : Server → ℕ → String → ℕ → Server × List Reply
  heartbeat_script s now worker ttl =
      if is_some (view s now (worker_state_key worker))
      then beat_task s now worker ttl (hget s now (worker_state_key worker) "task_id")
      else (s, int (pos 0) ∷ str "no_active_session" ∷ [])

  -- completeScript.
  unfoldable pub finish_task : Server → ℕ → String → String → ℕ → Server
  finish_task s now worker task ttl =
      let freed = del s (task_owner_key task) in
      let dropped = hdel_all freed now (worker_state_key worker) cleared_fields in
      let idle = hset dropped now (worker_state_key worker) "state" "idle" in
      keep_alive idle now worker ttl

  abbrev pub complete_guarded :
      Server → ℕ → String → String → ℕ → Option String → Server × List Reply
  complete_guarded s now worker task ttl none = (s, int (pos 0) ∷ str "task_not_found" ∷ [])
  complete_guarded s now worker task ttl (some owner) =
      if str_eq owner worker
      then (finish_task s now worker task ttl, int (pos 1) ∷ str "" ∷ [])
      else (s, int (pos 0) ∷ str "not_owner" ∷ [])

  unfoldable pub complete_script : Server → ℕ → String → String → ℕ → Server × List Reply
  complete_script s now worker task ttl =
      complete_guarded s now worker task ttl (get s now (task_owner_key task))

  -- cleanupOwnerScript; what it returns is 1 or 0.
  abbrev pub cleanup_guarded : Server → String → String → Option String → Server × Bool
  cleanup_guarded s task worker none = (s, true)
  cleanup_guarded s task worker (some owner) =
      if str_eq owner worker then (del s (task_owner_key task), true) else (s, false)

  unfoldable pub cleanup_owner_script : Server → ℕ → String → String → Server × Bool
  cleanup_owner_script s now task worker =
      cleanup_guarded s task worker (get s now (task_owner_key task))
