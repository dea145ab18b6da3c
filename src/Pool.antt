-- ===== src/Pool.antt =====
-- internal/webui/daemon/pool.go: the pool of connections to the daemon. A request's goroutine runs
-- through the phases below; each function is one critical section or one channel operation, so that
-- whatever happens between two of them is another goroutine's move. What a ping, a dial or a timer
-- gives is an argument. The channel is the number of connections in it: which one is received does
-- not matter, since a connection is known only by its ping. The counters are natural numbers.
pub mod System
pub mod Accounting
pub mod Closing
use loomcli.Common.{
  ℕ, zero, suc, ◌-◌, Bool, true, false, ℤ, pos, leb, ltb, leb_ℤ, ◌==◌, if◌then◌else◌, Option, none,
  some, String, str_eq,
}

pub data PoolError : Type 0 where
  daemon_not_running daemon_unhealthy connection_timeout invalid_socket_path : PoolError
  pool_exhausted pool_closed circuit_open canceled deadline_exceeded : PoolError

pub daemon_should_trip : Option PoolError → Bool
daemon_should_trip (some daemon_not_running) = true
daemon_should_trip (some connection_timeout) = true
daemon_should_trip (some daemon_unhealthy) = true
daemon_should_trip (some pool_exhausted) = true
daemon_should_trip _ = false

pub is_retryable : Option PoolError → Bool
is_retryable (some daemon_not_running) = true
is_retryable (some connection_timeout) = true
is_retryable (some daemon_unhealthy) = true
is_retryable _ = false

pub record Pool : Type 0 where
  pub socket_path : String
  pub size : ℕ
  pub available : ℕ
  pub channel_closed : Bool
  pub closed : Bool
  pub active_count : ℕ
  pub created_count : ℕ

-- Where a goroutine stands. A number is how many turns of Get's loop are left, this one included.
-- In `received` and `returning` it has a connection that is not counted as active, and in
-- `overflowing` one that it has closed and that is still counted as created.
pub data Phase : Type 0 where
  outside dialing holding returning overflowing panicked : Phase
  starting checked empty waiting received : ℕ → Phase

abbrev max_retries : ℕ
max_retries = 3

-- NewConnectionPool, or ErrInvalidSocketPath.
unfoldable pub new_connection_pool : String → ℤ → Option Pool
new_connection_pool path size =
    if str_eq path ""
    then none
    else some (record {
      socket_path = path;
      size = sized size;
      available = 0;
      channel_closed = false;
      closed = false;
      active_count = 0;
      created_count = 0;
    })
  where
    sized : ℤ → ℕ
    sized (pos (suc n)) = suc n
    sized _ = 100

-- Get, when its context is not done.
unfoldable pub get : Pool → Pool × Phase
get p = (p, starting max_retries)

-- tryGet: the test of `closed`.
unfoldable pub check_closed : Pool → ℕ → Pool × Phase
check_closed p n = if p.closed then (p, outside) else (p, checked n)

-- Receiving from a channel that is closed and empty gives nil, which fails validation and whose
-- Close method dereferences it.
unfoldable pub receive : Pool → ℕ → Phase → Pool × Phase
receive p n otherwise =
    if ltb 0 p.available
    then (record p { available = p.available - 1 }, received n)
    else if p.channel_closed
    then (p, panicked)
    else (p, otherwise)

-- tryGet: the receive that does not block.
unfoldable pub poll : Pool → ℕ → Pool × Phase
poll p n = receive p n (empty n)

-- Back in Get's loop, which ends with ErrPoolExhausted.
abbrev pub next_turn : ℕ → Phase
next_turn zero = outside
next_turn (suc zero) = outside
next_turn (suc (suc n)) = starting (suc n)

-- validateConnection and what follows on each result.
unfoldable pub validate : Pool → ℕ → Bool → Pool × Phase
validate p n healthy =
    if healthy
    then (record p { active_count = suc p.active_count }, holding)
    else (record p { created_count = p.created_count - 1 }, next_turn n)

-- tryGet: a new connection is counted, or the goroutine waits.
unfoldable pub reserve : Pool → ℕ → Pool × Phase
reserve p n =
    if ltb p.created_count p.size
    then (
      record p { created_count = suc p.created_count; active_count = suc p.active_count },
      dialing,
    )
    else (p, waiting n)

-- createConnection.
unfoldable pub dial : Pool → Bool → Pool × Phase
dial p ok = if ok then (p, holding) else (
  record p { created_count = p.created_count - 1; active_count = p.active_count - 1 },
  outside,
)

-- The blocking select: the timer or the context is ready first, or the channel.
unfoldable pub wait : Pool → ℕ → Bool → Pool × Phase
wait p n gives_up = if gives_up then (p, outside) else receive p n (waiting n)

-- Put up to its unlock.
unfoldable pub put : Pool → Pool × Phase
put p =
    if p.closed then (p, outside) else (record p { active_count = p.active_count - 1 }, returning)

-- Put's send, which panics on a closed channel.
unfoldable pub send : Pool → Pool × Phase
send p =
    if p.channel_closed
    then (p, panicked)
    else if ltb p.available p.size
    then (record p { available = suc p.available }, outside)
    else (p, overflowing)

-- Put when the channel is full.
unfoldable pub overflow : Pool → Pool × Phase
overflow p = (record p { created_count = p.created_count - 1 }, outside)

unfoldable pub discard : Pool → Pool × Phase
discard p =
    (record p { active_count = p.active_count - 1; created_count = p.created_count - 1 }, outside)

pub record PoolStats : Type 0 where
  pub size : ℕ
  pub created : ℕ
  pub active : ℕ
  pub available : ℕ
  pub closed : Bool

unfoldable pub stats : Pool → PoolStats
stats p = record {
  size = p.size;
  created = p.created_count;
  active = p.active_count;
  available = p.available;
  closed = p.closed;
}
