-- ===== src/Fleet.antt =====
-- internal/webui/fleet/store.go and timeout.go: the claims of tasks by the workers of a fleet, kept in
-- Redis. The server is the parameter `Redis`; a script is one step. Times are seconds. Calls that
-- the network loses are left out.
pub mod Lease
pub mod Server
pub mod Timeouts
use Prim.Native.String.{◌++◌}
use loomcli.Common.{
  ℕ, ◌+◌, ◌-◌, ◌*◌, ◌<◌, ◌≤◌, ◌≡◌, Bool, true, false, ◌||◌, Option, none, some, List, [], ◌∷◌,
  String, ℤ, pos_part, str_eq, ltb, leb, has, if◌then◌else◌, is_some,
}

-- A task is among members of a sorted set.
abbrev pub is_recorded : String → List (String × ℕ) → Bool
is_recorded task [] = false
is_recorded task ((other, _) ∷ zs) = str_eq other task || is_recorded task zs

-- The commands GET, SET with EX, EXPIRE, DEL, ZADD, ZREM and ZRANGEBYSCORE, and what GET shows
-- after them, and ZRANGEBYSCORE after a ZADD. A key is gone from its deadline on.
pub record Redis : Type 1 where
  pub Server : Type 0
  pub get : Server → ℕ → String → Option String
  pub set_ex : Server → ℕ → String → String → ℕ → Server
  pub expire : Server → ℕ → String → ℕ → Server
  pub del : Server → String → Server
  pub zadd : Server → String → ℕ → String → Server
  pub zrem : Server → String → String → Server
  pub zrange : Server → String → ℕ → List (String × ℕ)
  pub get-set_ex :
      (s : Server) (now : ℕ) (k v : String) (ttl t : ℕ) (j : String)
      → now ≤ t
      → get (set_ex s now k v ttl) t j
        ≡ (if str_eq k j then (if ltb t (now + ttl) then some v else none) else get s t j)
  pub get-expire :
      (s : Server) (now : ℕ) (k : String) (ttl t : ℕ) (j : String)
      → now ≤ t
      → get (expire s now k ttl) t j
        ≡ (if str_eq k j then (if ltb t (now + ttl) then get s now j else none) else get s t j)
  pub get-del :
      (s : Server) (k : String) (t : ℕ) (j : String)
      → get (del s k) t j ≡ (if str_eq k j then none else get s t j)
  pub get-zadd :
      (s : Server) (z : String) (score : ℕ) (m : String) (t : ℕ) (j : String)
      → get (zadd s z score m) t j ≡ get s t j
  pub get-zrem : (s : Server) (z m : String) (t : ℕ) (j : String) → get (zrem s z m) t j ≡ get s t j
  pub zrange-zadd :
      (s : Server) (z : String) (score : ℕ) (m : String) (max : ℕ) (x : String)
      → is_recorded x (zrange (zadd s z score m) z max)
        ≡ (if str_eq m x then leb score max else is_recorded x (zrange s z max))

abbrev pub claimed_task_key : String → String
claimed_task_key task = "fleet:tasks:claimed:" ++ task

abbrev pub claim_times_key : String
claim_times_key = "fleet:tasks:claim_times"

abbrev pub default_claim_ttl : ℕ
default_claim_ttl = 300

pub data IdError : Type 0 where
  empty_id invalid_characters : IdError

unfoldable pub validate_id : String → Option IdError
validate_id id =
    if str_eq id ""
    then some empty_id
    else if has ":" id || has "\n" id || has "\r" id || has "\t" id || has " " id
    then some invalid_characters
    else none

pub data Claim : Type 0 where
  claimed : Claim
  taken : String → Claim
  refused : IdError → Claim

module _ (r : Redis) where
  open r use {Server, get, set_ex, expire, del, zadd, zrem, zrange}

  -- The script `claimLua`, on what GET gave. The owner that `taken` names is in the script's reply and in
  -- TryClaim's log line; TryClaim returns that there was no claim.
  unfoldable pub claim_on : Server → ℕ → String → String → Option String → Server × Claim
  claim_on s now task worker none =
      (set_ex s now (claimed_task_key task) worker default_claim_ttl, claimed)
  claim_on s now task worker (some existing) =
      if str_eq existing worker
      then (expire s now (claimed_task_key task) default_claim_ttl, claimed)
      else (s, taken existing)

  unfoldable pub record_claim_time : Server → ℕ → String → Server
  record_claim_time s now task = zadd s claim_times_key now task

  unfoldable pub recorded : ℕ → String → Server × Claim → Server × Claim
  unfolding record_claim_time
  recorded now task (s, claimed) = (record_claim_time s now task, claimed)
  recorded now task (s, taken w) = (s, taken w)
  recorded now task (s, refused e) = (s, refused e)

  unfoldable pub claim_checked :
      Server → ℕ → String → String → Option IdError → Option IdError → Server × Claim
  unfolding claim_on recorded
  claim_checked s now task worker (some e) b = (s, refused e)
  claim_checked s now task worker none (some e) = (s, refused e)
  claim_checked s now task worker none none =
      recorded now task (claim_on s now task worker (get s now (claimed_task_key task)))

  unfoldable pub try_claim : Server → ℕ → String → String → Server × Claim
  unfolding claim_checked validate_id
  try_claim s now task worker =
      claim_checked s now task worker (validate_id task) (validate_id worker)

  -- The error is that there is no claim. The minutes are too few for their product to wrap: fewer than
  -- 153 millions.
  unfoldable pub extend_claim_ttl : Server → ℕ → String → ℤ → Server × Bool
  unfolding validate_id
  extend_claim_ttl s now task minutes =
      if is_some (validate_id task)
      then (s, false)
      else if is_some (get s now (claimed_task_key task))
      then (expire s now (claimed_task_key task) (pos_part minutes * 60), true)
      else (s, false)

  unfoldable pub release_claim : Server → String → Server
  unfolding validate_id
  release_claim s task =
      if is_some (validate_id task)
      then s
      else zrem (del s (claimed_task_key task)) claim_times_key task

  abbrev cons_task :
      String
      → ℕ
      → String
      → Server × List (String × String × ℕ)
      → Server × List (String × String × ℕ)
  cons_task task at worker (s, tasks) = (s, (task, worker, at) ∷ tasks)

  -- The loop of FindTimedOutTasks over the members of the sorted set, with their times.
  unfoldable pub timed_out_from :
      Server → ℕ → List (String × ℕ) → Server × List (String × String × ℕ)
  timed_out_from s now [] = (s, [])
  timed_out_from s now ((task, at) ∷ zs) = elim (get s now (claimed_task_key task)) [
    | none ↦ timed_out_from (zrem s claim_times_key task) now zs
    | some worker ↦ cons_task task at worker (timed_out_from s now zs)
  ]

  unfoldable pub find_timed_out_tasks : Server → ℕ → ℕ → Server × List (String × String × ℕ)
  unfolding timed_out_from
  find_timed_out_tasks s now timeout =
      timed_out_from s now (zrange s claim_times_key (now - timeout))

  -- The loop of checkTimeouts, over the tasks that were found.
  unfoldable pub release_all : Server → List (String × String × ℕ) → Server
  unfolding release_claim
  release_all s [] = s
  release_all s ((task, _, _) ∷ tasks) = release_all (release_claim s task) tasks

  unfoldable pub check_timeouts : Server → ℕ → ℕ → Server
  unfolding release_all find_timed_out_tasks
  check_timeouts s now timeout =
      let (s', tasks) = find_timed_out_tasks s now timeout in release_all s' tasks
