-- ===== src/Kv/Leases.antt =====
-- What the scripts of internal/kv promise, without keys, commands and expiry: who holds which task and
-- which worker has a session, until when.
use loomcli.Common.{
  ℕ, ◌+◌, Bool, true, false, Option, none, some, List, [], ◌∷◌, String, pos, str_eq, ltb, insert,
  remove, lookup, if◌then◌else◌,
}
use loomcli.Kv.Client.{ClaimResult, HeartbeatResult, CompleteResult}

abbrev pub lease : ℕ
lease = 300000

pub record Leases : Type 0 where
  pub owners : String → Option (String × ℕ)
  pub sessions : String → Option (List (String × String) × ℕ)

-- Something with a deadline, at a time.
abbrev pub live : {A : Type 0} → ℕ → Option (A × ℕ) → Option A
live t none = none
live t (some (x, until)) = if ltb t until then some x else none

abbrev pub put : {A : Type 0} → (String → A) → String → A → String → A
put f k v j = if str_eq k j then v else f j

abbrev pub or_no_fields : Option (List (String × String)) → List (String × String)
or_no_fields none = []
or_no_fields (some fs) = fs

abbrev pub insert_all : List (String × String) → List (String × String) → List (String × String)
insert_all [] gs = gs
insert_all ((f, v) ∷ fs) gs = insert_all fs (insert f v gs)

abbrev pub grant : Leases → ℕ → String → String → List (String × String) → Leases
grant a now worker task claimed = record {
  owners = put a.owners task (some (worker, now + lease));
  sessions =
      put a.sessions worker
        (some (insert_all claimed (or_no_fields (live now (a.sessions worker))), now + lease));
}

-- A free task, or the worker's own, is the worker's from now on; a held one stays its holder's.
abbrev pub claim_lease :
    Leases → ℕ → String → String → List (String × String) → Option String → Leases × ClaimResult
claim_lease a now worker task claimed none =
    (grant a now worker task claimed, record { success = true; existing_owner = "" })
claim_lease a now worker task claimed (some holder) =
    if str_eq holder worker
    then (grant a now worker task claimed, record { success = true; existing_owner = "" })
    else (a, record { success = false; existing_owner = holder })

abbrev pub extend_session : Leases → ℕ → String → List (String × String) → Leases
extend_session a now worker fs = record a {
  sessions = put a.sessions worker (some (fs, now + lease));
}

abbrev pub beaten : Leases → ℕ → String → List (String × String) → Leases × HeartbeatResult
beaten a now worker fs =
    (extend_session a now worker fs, record { success = true; ttl = pos 300; error = "" })

-- The lease that goes on is that of the task in the worker's session.
abbrev pub beat_lease :
    Leases → ℕ → String → List (String × String) → String → Option String → Leases × HeartbeatResult
beat_lease a now worker fs task none = beaten a now worker fs
beat_lease a now worker fs task (some holder) =
    if str_eq holder worker
    then beaten (record a { owners = put a.owners task (some (worker, now + lease)) }) now worker fs
    else (a, record { success = false; ttl = pos 0; error = "ownership_lost" })

abbrev pub beat_of :
    Leases → ℕ → String → List (String × String) → Option String → Leases × HeartbeatResult
beat_of a now worker fs none = beaten a now worker fs
beat_of a now worker fs (some task) = beat_lease a now worker fs task (live now (a.owners task))

abbrev pub beat_session :
    Leases → ℕ → String → Option (List (String × String)) → Leases × HeartbeatResult
beat_session a now worker none =
    (a, record { success = false; ttl = pos 0; error = "no_active_session" })
beat_session a now worker (some fs) = beat_of a now worker fs (lookup "task_id" fs)

abbrev pub idle_fields : List (String × String) → List (String × String)
idle_fields fs =
    insert "state" "idle" (remove "claimed_at" (remove "task_title" (remove "task_id" fs)))

-- Only the holder ends a lease by completion.
abbrev pub complete_lease : Leases → ℕ → String → String → Option String → Leases × CompleteResult
complete_lease a now worker task none = (a, record { success = false; error = "task_not_found" })
complete_lease a now worker task (some holder) =
    if str_eq holder worker
    then (
      record {
        owners = put a.owners task none;
        sessions =
            put a.sessions worker
              (some (idle_fields (or_no_fields (live now (a.sessions worker))), now + lease));
      },
      record { success = true; error = "" },
    )
    else (a, record { success = false; error = "not_owner" })

abbrev pub clean_lease : Leases → String → String → Option String → Leases × Bool
clean_lease a task worker none = (a, true)
clean_lease a task worker (some holder) =
    if str_eq holder worker
    then (record a { owners = put a.owners task none }, true)
    else (a, false)
