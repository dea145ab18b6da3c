-- ===== src/Pool/System.antt =====
-- The goroutines of internal/webui that share one pool.
use loomcli.Common.{
  ℕ, zero, suc, ◌-◌, Bool, true, false, not, ◌&&◌, Option, none, some, List, [], ◌∷◌, ltb,
  get_elem?, if◌then◌else◌,
}
use loomcli.Pool.{
  Pool, Phase, outside, dialing, holding, returning, overflowing, panicked, starting, checked,
  empty, waiting, received, get, check_closed, poll, validate, reserve, dial, wait, put, send,
  overflow, discard,
}

pub record System : Type 0 where
  pub pool : Pool
  pub phases : List Phase
  -- Close has set `closed` and has not closed the channel yet.
  pub closing : Bool

-- What is decided outside of the pool for a goroutine's move: the ping, the dial or the timer, and
-- whether a held connection is discarded or put.
pub record Answer : Type 0 where
  pub good : Bool
  pub discards : Bool

abbrev pub advance : Pool → Answer → Phase → Pool × Phase
advance p a outside = get p
advance p a (starting n) = check_closed p n
advance p a (checked n) = poll p n
advance p a (received n) = validate p n a.good
advance p a (empty n) = reserve p n
advance p a dialing = dial p a.good
advance p a (waiting n) = wait p n (not a.good)
advance p a holding = if a.discards then discard p else put p
advance p a returning = send p
advance p a overflowing = overflow p
advance p a panicked = (p, panicked)

abbrev pub set_phase : List Phase → ℕ → Phase → List Phase
set_phase [] i b = []
set_phase (a ∷ xs) zero b = b ∷ xs
set_phase (a ∷ xs) (suc i) b = a ∷ set_phase xs i b

-- A goroutine moves on, Close's first part, its `close`, and one turn of its loop.
pub data Move : Type 0 where
  moves : ℕ → Answer → Move
  closes closes_channel drains : Move

abbrev pub move_at : System → ℕ → Answer → Option Phase → System
move_at s i a none = s
move_at s i a (some ph) =
    let (p, next) = advance s.pool a ph in record s { pool = p; phases = set_phase s.phases i next }

unfoldable pub step : System → Move → System
step s (moves i a) = move_at s i a (get_elem? s.phases i)
step s closes =
    if s.pool.closed then s else record s { pool = record s.pool { closed = true }; closing = true }
step s closes_channel =
    if s.closing
    then record s { pool = record s.pool { channel_closed = true }; closing = false }
    else s
step s drains =
    if s.pool.channel_closed && ltb 0 s.pool.available
    then record s { pool = record s.pool { available = s.pool.available - 1 } }
    else s

unfoldable pub run : System → List Move → System
run s [] = s
run s (m ∷ ms) = run (step s m) ms

unfoldable pub init : Pool → ℕ → System
init p n = record { pool = p; phases = idle n; closing = false }
  where
    idle : ℕ → List Phase
    idle zero = []
    idle (suc k) = outside ∷ idle k
