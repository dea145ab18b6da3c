-- ===== src/Restart.antt =====
-- internal/cli/daemon_restart.go, daemon_backend.go and classifyAgentExit of daemon_classify.go:
-- what the daemon does when an agent's process has ended. A method that changes the agent returns
-- the new record. Configured seconds are Go ints, durations are nanoseconds in int64; the counters
-- only ever grow by one and stay natural numbers.
pub mod Backoff
pub mod Retry
pub mod Failover
use loomcli.Common.{
  ℕ, suc, ◌+◌, ◌-◌, ◌^◌, ◌≡◌, Bool, true, false, ◌&&◌, ◌||◌, not, Option, none, some, List, [], ◌∷◌,
  String, ℤ, pos, leb, ltb, ltb_ℤ, leb_ℤ, eqb_ℤ, ◌==◌, ◌*64◌, if◌then◌else◌, str_eq, length,
  get_elem?, is_some,
}
use loomcli.AgentError.{
  ErrorClass, AgentError, no_work, rate_limited, timeout, model_not_found, is_fatal, is_no_work,
  is_rate_limited,
}
use loomcli.AgentError.Classify.{GoPackages, classify_from_log, second}
use loomcli.Config.{RestartPolicy, RoleConfig, AgentEntry, DaemonConfig}

-- The fields of AgentProcess that these functions read or write. Times are nanoseconds.
pub record AgentProcess : Type 0 where
  pub entry : AgentEntry
  pub role_config : RoleConfig
  pub restart_count : ℕ
  pub last_start : ℕ
  pub last_exit_code : ℤ
  pub assigned_epic_id : String
  pub last_error : Option AgentError
  pub rate_retry_count : ℕ
  pub last_no_work : Bool
  pub current_backend_idx : ℕ

abbrev get_or {ℓ} : {A : Type ℓ} → Option A → A → A
get_or none d = d
get_or (some v) d = v

abbrev pub get_max_retries : RestartPolicy → ℤ
get_max_retries rp = get_or rp.max_retries (pos 3)

abbrev pub get_backoff_initial : RestartPolicy → ℤ
get_backoff_initial rp = get_or rp.backoff_initial (pos 2)

abbrev pub get_backoff_max : RestartPolicy → ℤ
get_backoff_max rp = get_or rp.backoff_max (pos 300)

abbrev pub get_output_timeout : RestartPolicy → ℤ
get_output_timeout rp = get_or rp.output_timeout (pos 900)

abbrev pub get_rate_limit_backoff : RestartPolicy → ℤ
get_rate_limit_backoff rp = get_or rp.rate_limit_backoff (pos 30)

abbrev pub get_rate_limit_max_wait : RestartPolicy → ℤ
get_rate_limit_max_wait rp = get_or rp.rate_limit_max_wait (pos 300)

abbrev pub get_rate_limit_no_count : RestartPolicy → Bool
get_rate_limit_no_count rp = get_or rp.rate_limit_no_count true

abbrev pub get_timeout_backoff : RestartPolicy → ℤ
get_timeout_backoff rp = get_or rp.timeout_backoff (pos 5)

abbrev pub get_no_work_backoff : RestartPolicy → ℤ
get_no_work_backoff rp = get_or rp.no_work_backoff (pos 30)

abbrev pub get_idle_poll_interval : RestartPolicy → ℤ
get_idle_poll_interval rp = get_or rp.idle_poll_interval (pos 30)

abbrev minute : ℕ
minute = 60_000_000_000

reset_counts : AgentProcess → AgentProcess
reset_counts ap = record ap { restart_count = 0; rate_retry_count = 0 }

clean_exit : AgentProcess → ℕ → AgentProcess
unfolding reset_counts
clean_exit ap now =
    let ap' = reset_counts ap in
    if ltb minute (now - ap.last_start) then record ap' { current_backend_idx = 0 } else ap'

count_retry : RestartPolicy → AgentProcess → AgentProcess × Bool
count_retry rp ap = (
  record ap { restart_count = suc ap.restart_count; rate_retry_count = 0 },
  leb_ℤ (pos (suc ap.restart_count)) (get_max_retries rp),
)

restart_by_class : RestartPolicy → AgentProcess → ErrorClass → AgentProcess × Bool
unfolding reset_counts count_retry
restart_by_class rp ap c =
    if is_no_work c
    then (reset_counts ap, true)
    else if is_fatal c
    then (ap, false)
    else if is_rate_limited c && get_rate_limit_no_count rp
    then (record ap { rate_retry_count = suc ap.rate_retry_count }, true)
    else count_retry rp ap

restart_by_error : RestartPolicy → AgentProcess → ℕ → Option AgentError → AgentProcess × Bool
unfolding clean_exit restart_by_class count_retry
restart_by_error rp ap now none =
    if eqb_ℤ ap.last_exit_code (pos 0) then (clean_exit ap now, true) else count_retry rp ap
restart_by_error rp ap now (some e) = restart_by_class rp ap e.class

-- `true`: the agent is started again.
unfoldable pub should_restart : RestartPolicy → AgentProcess → ℕ → AgentProcess × Bool
unfolding restart_by_error
should_restart rp ap now = restart_by_error rp ap now ap.last_error

-- `initial * (1 << retryN)` with the cap of the shift and of the product.
unfoldable pub exponential : ℤ → ℕ → ℤ → ℤ
exponential initial retry_n max_backoff =
    let n = if ltb 30 retry_n then 30 else retry_n in
    let backoff_sec = initial *64 (2 ^ n) in
    if ltb_ℤ max_backoff backoff_sec || ltb_ℤ backoff_sec (pos 0) then max_backoff else backoff_sec

-- `time.Duration(n) * time.Second`
unfoldable pub seconds : ℤ → ℤ
seconds n = n *64 second

hint : ℤ → ℤ → ℤ → ℤ
hint retry_after backoff max_duration =
    if ltb_ℤ backoff retry_after
    then if ltb_ℤ max_duration retry_after then max_duration else retry_after
    else backoff

backoff_by_class : RestartPolicy → AgentProcess → ErrorClass → ℤ → ℤ
unfolding hint
backoff_by_class rp ap no_work retry_after = seconds (get_no_work_backoff rp)
backoff_by_class rp ap rate_limited retry_after =
    let m = get_rate_limit_max_wait rp in
    hint retry_after (seconds (exponential (get_rate_limit_backoff rp) ap.rate_retry_count m))
      (seconds m)
backoff_by_class rp ap timeout retry_after =
    seconds (exponential (get_timeout_backoff rp) ap.restart_count (get_backoff_max rp))
backoff_by_class rp ap _ retry_after =
    seconds (exponential (get_backoff_initial rp) ap.restart_count (get_backoff_max rp))

backoff_by_error : RestartPolicy → AgentProcess → Option AgentError → ℤ
unfolding backoff_by_class
backoff_by_error rp ap none =
    seconds (exponential (get_backoff_initial rp) ap.restart_count (get_backoff_max rp))
backoff_by_error rp ap (some e) = backoff_by_class rp ap e.class e.retry_after

unfoldable pub compute_backoff : RestartPolicy → AgentProcess → ℤ
unfolding backoff_by_error
compute_backoff rp ap = backoff_by_error rp ap ap.last_error

-- `shutdown` says which of the two channels is ready first.
unfoldable pub handle_restart_after_error :
    RestartPolicy → AgentProcess → Bool → AgentProcess × Bool
handle_restart_after_error rp ap shutdown =
    let ap' = record ap { restart_count = suc ap.restart_count } in
    (ap', leb_ℤ (pos ap'.restart_count) (get_max_retries rp) && not shutdown)

or_text : String → String → String
or_text b d = if str_eq b "" then d else b

primary : AgentProcess → DaemonConfig → String
unfolding or_text
primary ap dc = or_text (or_text ap.entry.backend ap.role_config.backend) dc.backend

-- Beyond the list the role's backend is not looked at.
fallback : AgentProcess → DaemonConfig → Option String → String
unfolding or_text
fallback ap dc (some b) = b
fallback ap dc none = or_text ap.entry.backend dc.backend

unfoldable pub get_effective_backend : AgentProcess → DaemonConfig → String
unfolding primary fallback
get_effective_backend ap dc =
    if ap.current_backend_idx == 0
    then primary ap dc
    else fallback ap dc (get_elem? ap.entry.fallback_backends (ap.current_backend_idx - 1))

abbrev should_failover : AgentProcess → ErrorClass → Bool
should_failover ap model_not_found = true
should_failover ap rate_limited = ltb 3 ap.rate_retry_count
should_failover ap _ = false

next_backend : AgentProcess → AgentProcess × Bool
next_backend ap =
    let next_idx = suc ap.current_backend_idx in
    if leb (1 + length ap.entry.fallback_backends) next_idx then (ap, false) else (
      record ap { current_backend_idx = next_idx; restart_count = 0; rate_retry_count = 0 },
      true,
    )

failover_by_error : AgentProcess → Option AgentError → AgentProcess × Bool
unfolding next_backend
failover_by_error ap none = (ap, false)
failover_by_error ap (some e) =
    if length ap.entry.fallback_backends == 0
    then (ap, false)
    else if should_failover ap e.class
    then next_backend ap
    else (ap, false)

unfoldable pub try_fallback_backend : AgentProcess → AgentProcess × Bool
unfolding failover_by_error
try_fallback_backend ap = failover_by_error ap ap.last_error

-- `task` is the task that the lock file names, "" without a lock; `log` is the tail of the log.
unfoldable pub classify_agent_exit :
    GoPackages → DaemonConfig → AgentProcess → ℤ → String → String → AgentProcess
unfolding or_text
classify_agent_exit rx dc ap exit_code task log =
    let backend = or_text ap.entry.backend dc.backend in
    if eqb_ℤ exit_code (pos 0) && str_eq task ""
    then record ap {
      last_error = some (record {
        class = no_work;
        exit_code = pos 0;
        message = "no claimable tasks";
        backend = backend;
        retry_after = pos 0;
      });
      last_no_work = true;
    }
    else if eqb_ℤ exit_code (pos 0)
    then record ap { last_error = none; last_no_work = false }
    else record ap {
      last_error = some (classify_from_log rx log exit_code backend);
      last_no_work = false;
    }

-- Steps 7.5 and 8 of superviseAgent's loop: failover, or the restart decision.
pub data Verdict : Type 0 where
  retry_other_backend restart_after_backoff give_up : Verdict

unfoldable pub after_exit : RestartPolicy → AgentProcess → ℕ → AgentProcess × Verdict
after_exit rp ap now =
    let (ap', moved) = try_fallback_backend ap in
    let (ap'', again) = should_restart rp ap' now in
    if moved
    then (ap', retry_other_backend)
    else if again
    then (ap'', restart_after_backoff)
    else (ap'', give_up)
