-- ===== src/Lib.antt =====
-- The core of loom: how its daemon decides which agents run, on what, and when.
--
-- The daemon (internal/cli/daemon.go) runs one supervisor for each configured agent. A supervisor
-- takes a slot for its role, is given an epic, runs the agent's subprocess, classifies how it
-- ended, gives the slot and the epic back, fails over to another backend or decides on a restart,
-- and waits. The agents choose issues by the role's constraints. Calls of the issue tracker's
-- daemon go through a circuit breaker.
--
-- Breaker: internal/circuitbreaker/breaker.go. `execute` is Execute, `before_request` and
--   `after_request` its two critical sections, `reset` is Reset; the clock is an argument, in
--   nanoseconds. Breaker/Runs has sequences of calls and interleavings of critical sections.
-- Config: internal/cli/daemon_config.go, config_validate.go and daemon_role_merge.go. Config/Overlay
--   is overlayDaemonSettings, Config/Validate the validation, Config/Load is LoadDaemonConfig, and
--   Config/Roles is resolveRoleConfig.
-- AgentError: internal/agenterr. AgentError/Classify is ClassifyFromLog on the log's tail, with Go's
--   packages regexp and fmt as the parameter `GoPackages`.
-- Restart: internal/cli/daemon_restart.go, daemon_backend.go and classifyAgentExit of
--   daemon_classify.go. `should_restart`, `compute_backoff`, `try_fallback_backend` and the rest
--   are the methods of the same names; `after_exit` is how superviseAgent combines them.
-- Router: internal/cli/task_router.go, taskfilter.go and BuildRouterTaskCheck of
--   automode_poller.go.
-- Tracker: internal/cli/concurrency.go. Tracker/System has the supervisors that share a tracker,
--   as a machine whose moves are taken in any order; a waiting `Acquire` is cut at `cond.Wait()`.
-- Pool: internal/webui/daemon/pool.go and the errors of errors.go and breaker.go. A request is a
--   goroutine that runs through the phases of Get and Put; Pool/System interleaves them and Close.
-- Epics: internal/cli/daemon_epic.go. What the tracker and git answer is the argument `World`.
-- Supervise: superviseAgent of internal/cli/daemon.go. `turn` is one turn of its loop, as a function
--   of what it meets (`Events`), composed of the operations above.
-- Spawn: buildCommand of internal/cli/daemon_spawn.go, internal/cli/envfilter.go, and
--   RoleConfigFromEnv and AgentEntryFromEnv of internal/cli/task_router.go. Spawn/Env has
--   environments and the filter, Spawn/RoundTrip and Spawn/Routing what a spawned agent reads back.
-- Expand: ExpandEnvVars of internal/cli/config_envsubst.go, with os.LookupEnv as a parameter.
--   Expand/Nodes is walkNodes, over the tree of package yaml.v3; an error leaves no tree.
-- Fleet: internal/webui/fleet/store.go and timeout.go, the claims of tasks by workers. Redis is the
--   parameter `Redis`, its commands and what GET shows after them; Fleet/Lease/Runs has runs of claims,
--   extensions and releases, Fleet/Timeouts the checks of time-outs, without their callback, and
--   Fleet/Server a server that meets the laws.
-- Kv: internal/kv, the claims of tasks by Lua scripts. Redis is again a parameter; `claim_script` and the
--   like are the scripts, Kv/Client the operations of client.go, Kv/Stale is stale.go and reconcile.go.
--   Kv/Leases and Kv/Requests say what is promised, as leases with deadlines; Kv/Keys, Kv/Effects and
--   Kv/Refines prove that it is kept; Kv/Listed is about the list of active workers. Kv/Server is a
--   server that meets the laws.
-- Hub: the hub of internal/webui/sse.go, its goroutines interleaved by Hub/System.
-- AgentLock: internal/cli/lock.go, the lock file of a worktree, one step for each call of the file system.
--   AgentLock/System interleaves processes, which do not die meanwhile; AgentLock/Alone is one that nobody
--   disturbs, AgentLock/Dir where the file is.
-- Terminal: internal/webui/terminal_auth.go, with the encodings and the MAC as the parameter `Codec`, which
--   Terminal/Texts instantiates. Terminal/Token has runs of validations and cleanups.
-- Subscription: internal/webui/subscription.go. Subscription/Order is about what its turns broadcast,
--   Subscription/Polls about the polls of the database.
-- Usage: internal/usage, the collector and the store. Usage/Distinct is about the collector, Usage/Kept about
--   the store.
-- Issues: internal/types, the records of the issue tracker. Issues/Enums is enums.go,
--   Issues/Validate the validation, defaults and expiry of issue.go, Issues/Hash its content hash,
--   Issues/Entity the entity URIs of relations.go, Issues/Hierarchy is id_generator.go, and
--   Issues/Lock is lock.go, lock_check.go and process.go.
-- Common: tests, lists, integers, dictionaries, sorting and text that the parts share.
-- Examples: runs at concrete inputs.
--
-- Bounds: a Go int is an integer. Products wrap to 64 bits in the backoff and in the retry-after
-- hint, where the values come from configuration or a log; counters grow by one and are natural
-- numbers; scores and priorities are not wrapped. The loop of ExpandEnvVars takes fuel, one more
-- than the text has characters; the attempts for a lock are counted as in the source, and
-- every other loop of the source that is modelled runs over a list or a text. A Go string is a Unicode text, and the length of a title counts its UTF-8 bytes.
--
-- Not modelled: subprocesses, git, files, sockets, reading and writing JSON and YAML, Base64; SHA-256, HMAC,
-- time.Format and strings.ToLower, which are parameters; GenerateHashID and NewExclusiveLock;
-- texts of log lines and of validation messages; time stamps of errors; the daemon's other
-- methods, the rest of the web UI and of the fleet, the processes
-- of terminals. `sort.Slice` is an insertion sort: the orders used tie only items with one id, among
-- which Go's choice is not specified.
pub mod Usage
pub mod Subscription
pub mod AgentLock
pub mod Common
pub mod Config
pub mod Epics
pub mod Issues
pub mod Spawn
pub mod Expand
pub mod Fleet
pub mod Hub
pub mod Kv
pub mod Restart
pub mod Pool
pub mod Router
pub mod Supervise
pub mod Tracker
mod Examples
pub mod AgentError
pub mod Breaker
pub mod Terminal
