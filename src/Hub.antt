-- ===== src/Hub.antt =====
-- internal/webui/sse.go: the hub that sends mutations to the event streams of the web UI. A channel is
-- a list with its capacity beside it. The hub's map of clients is the field `member` of each client.
pub mod System
pub mod Safe
pub mod Accounting
pub mod Leak
use loomcli.Common.{
  ℕ, ◌+◌, Bool, true, false, not, ◌&&◌, ◌||◌, Option, List, [], ◌∷◌, ◌++◌, String, ℤ, ltb, length,
  if◌then◌else◌,
}

pub record MutationPayload : Type 0 where
  pub kind : String
  pub issue_id : String
  pub title : String
  pub assignee : String
  pub actor : String
  pub timestamp : String
  pub old_status : String
  pub new_status : String
  pub parent_id : String
  pub step_count : ℤ

-- Where the handler of a client is: before RegisterClient, between its two selects, in the loop that
-- streams, at UnregisterClient, between its two selects, and behind it.
pub data Phase : Type 0 where
  outside connecting streaming leaving unregistering gone : Phase

-- A panic is that of a second close or of a send on a closed channel.
pub record Client : Type 0 where
  pub phase : Phase
  pub send : List MutationPayload
  pub closed : Bool
  pub member : Bool
  pub panicked : Bool

-- `drained` tells that Run is in drainRetryQueue and holds `retryMu`; `pending` has the mutations whose
-- Broadcast waits for that lock.
pub record Hub : Type 0 where
  pub clients : ℕ → Client
  pub register : List ℕ
  pub unregister : List ℕ
  pub broadcast : List MutationPayload
  pub retry_queue : List MutationPayload
  pub pending : List MutationPayload
  pub dropped_count : ℕ
  pub stopped : Bool
  pub drains : Bool
  pub exited : Bool

abbrev pub client_send_buf : ℕ
client_send_buf = 64

abbrev pub register_buf : ℕ
register_buf = 16

abbrev pub broadcast_buf : ℕ
broadcast_buf = 256

abbrev pub retry_limit : ℕ
retry_limit = 1024

abbrev pub new_client : Client
new_client = record { phase = outside; send = []; closed = false; member = false; panicked = false }

unfoldable pub new_hub : Hub
new_hub = record {
  clients = λ i. new_client;
  register = [];
  unregister = [];
  broadcast = [];
  retry_queue = [];
  pending = [];
  dropped_count = 0;
  stopped = false;
  drains = false;
  exited = false;
}

-- `close(client.send)`
abbrev pub close_send : Client → Client
close_send c = if c.closed then record c { panicked = true } else record c { closed = true }

-- `client.send <- mutation`, or nothing where the buffer is full.
abbrev pub offer : MutationPayload → Client → Client
offer m c =
    if c.closed
    then record c { panicked = true }
    else if ltb (length c.send) client_send_buf
    then record c { send = c.send ++ m ∷ [] }
    else c

-- Run's three loops over its map, at one client.
abbrev pub deliver : MutationPayload → Client → Client
deliver m c = if c.member then offer m c else c

abbrev pub expel : Client → Client
expel c = if c.member then record (close_send c) { member = false } else c

abbrev pub admit : Client → Client
admit c = record c { member = true }

abbrev pub in_phase : Phase → Client → Client
in_phase p c = record c { phase = p }

-- The select of RegisterClient on the closed `done`.
abbrev pub refuse : Client → Client
refuse c = in_phase streaming (close_send c)

-- The handler takes from `send`; it returns when that is closed and empty.
abbrev pub receive_from : List MutationPayload → Client → Client
receive_from [] c = if c.closed then in_phase leaving c else c
receive_from (m ∷ ms) c = record c { send = ms }
