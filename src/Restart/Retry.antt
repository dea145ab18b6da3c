-- ===== src/Restart/Retry.antt =====
-- When the daemon restarts an agent and when it gives up.
use loomcli.Common.{
  ℕ, suc, ◌+◌, ◌≤◌, ◌≡◌, ◌≢◌, ◌↔◌, refl, Bool, true, false, ◌&&◌, Option, none, some, List, [], ◌∷◌,
  pos, leb, length, arith, ◌≤ℤ◌, ◌⊎◌, if◌then◌else◌,
}
use loomcli.AgentError.{AgentError, no_work, rate_limited, model_not_found, is_fatal}
use loomcli.Config.{RestartPolicy}
use loomcli.Restart.{
  AgentProcess, restart_by_error, should_restart, try_fallback_backend, after_exit, Verdict,
  give_up, restart_after_backoff, get_max_retries, get_rate_limit_no_count,
}

-- One more retry is within the maximum.
abbrev Within : RestartPolicy → AgentProcess → Type 0
Within rp ap = pos (suc ap.restart_count) ≤ℤ get_max_retries rp

abbrev pub MayRestart : RestartPolicy → AgentProcess → Option AgentError → Type 0
MayRestart rp ap none = (ap.last_exit_code ≡ pos 0) ⊎ Within rp ap
MayRestart rp ap (some e) =
    (e.class ≡ no_work)
    ⊎ ((e.class ≡ rate_limited) × (get_rate_limit_no_count rp ≡ true)
        ⊎ (is_fatal e.class ≡ false) × Within rp ap)

-- An agent is started again exactly if it exited with 0 and no error, or found no work, or was rate
-- limited where such retries do not count, or ended in any other way that is not fatal and this
-- retry is within the maximum.
should_restart_iff :
    (rp : RestartPolicy) (ap : AgentProcess) (now : ℕ)
    → ((should_restart rp ap now).1 ≡ true) ↔ MayRestart rp ap ap.last_error
unfolding should_restart
should_restart_iff rp ap now = split ap.last_error
  where
    split : (o : Option AgentError) → ((restart_by_error rp ap now o).1 ≡ true) ↔ MayRestart rp ap o
    split none = ground arith
    split (some e) = ground arith

-- An exit that leaves an error.
abbrev pub exit_with : AgentProcess → AgentError → AgentProcess
exit_with ap e = record ap { last_error = some e; last_exit_code = e.exit_code }

abbrev pub goes_on : Verdict → Bool
goes_on give_up = false
goes_on _ = true

-- Whether the daemon still runs the agent after a run of such exits.
unfoldable pub survives : RestartPolicy → AgentProcess → ℕ → List AgentError → Bool
survives rp ap now [] = true
survives rp ap now (e ∷ es) =
    goes_on (after_exit rp (exit_with ap e) now).1
    && survives rp (after_exit rp (exit_with ap e) now).0 now es

-- An error that counts toward the maximum and triggers no failover.
abbrev IsCounted : RestartPolicy → AgentError → Type 0
IsCounted rp e =
    (is_fatal e.class ≡ false)
    × (e.class ≢ no_work)
    × (e.class ≢ model_not_found)
    × (e.class ≢ rate_limited)

abbrev pub AllCounted : RestartPolicy → List AgentError → Type 0
AllCounted rp [] = Unit {0}
AllCounted rp (e ∷ es) = IsCounted rp e × AllCounted rp es

exit_counted :
    (rp : RestartPolicy) (ap : AgentProcess) (now m : ℕ) (e : AgentError)
    → get_max_retries rp ≡ pos m
    → IsCounted rp e
    → after_exit rp (exit_with ap e) now ≡ (
      record (exit_with ap e) { restart_count = suc ap.restart_count; rate_retry_count = 0 },
      if leb (suc ap.restart_count) m then restart_after_backoff else give_up,
    )
unfolding after_exit should_restart try_fallback_backend
exit_counted rp ap now m e h c = ground arith

-- An agent whose exits all leave errors that count survives a run of them exactly if the retries so
-- far and the run together are within the maximum of retries.
pub survives_counted :
    (rp : RestartPolicy) (ap : AgentProcess) (now m : ℕ) (es : List AgentError)
    → get_max_retries rp ≡ pos m
    → ap.restart_count ≤ m
    → AllCounted rp es
    → survives rp ap now es ≡ leb (ap.restart_count + length es) m
unfolding survives
survives_counted rp ap now m [] h le c = ground arith
survives_counted rp ap now m (e ∷ es) h le c =
    let ap' = record (exit_with ap e) {
      restart_count = suc ap.restart_count;
      rate_retry_count = 0;
    } in
    rw (exit_counted rp ap now m e h c.0) (ground (arith, survives_counted rp ap' now m es h))

-- An error that never makes the daemon give up.
abbrev IsPatient : RestartPolicy → AgentError → Type 0
IsPatient rp e =
    (e.class ≡ no_work) ⊎ (e.class ≡ rate_limited) × (get_rate_limit_no_count rp ≡ true)

abbrev pub AllPatient : RestartPolicy → List AgentError → Type 0
AllPatient rp [] = Unit {0}
AllPatient rp (e ∷ es) = IsPatient rp e × AllPatient rp es

exit_patient :
    (rp : RestartPolicy) (ap : AgentProcess) (now : ℕ) (e : AgentError)
    → IsPatient rp e
    → goes_on (after_exit rp (exit_with ap e) now).1 ≡ true
unfolding after_exit should_restart try_fallback_backend
exit_patient rp ap now e h = ground arith

-- An agent that finds no work or is rate limited is never given up, however often that happens and
-- whatever its counters are, where rate-limit retries do not count.
pub survives_patient :
    (rp : RestartPolicy) (ap : AgentProcess) (now : ℕ) (es : List AgentError)
    → AllPatient rp es
    → survives rp ap now es ≡ true
unfolding survives
survives_patient rp ap now [] h = refl
survives_patient rp ap now (e ∷ es) h =
    rw (exit_patient rp ap now e h.0)
      (survives_patient rp (after_exit rp (exit_with ap e) now).0 now es h.1)
