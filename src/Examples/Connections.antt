-- ===== src/Examples/Connections.antt =====
-- Two requests that share a pool of one connection.
use loomcli.Common.{◌+◌, ◌≤◌, ◌≡◌, ◌⊎◌, refl, true, false, some, List, [], ◌∷◌, pos, get_elem?}
use loomcli.Pool.{
  Pool, waiting, panicked, new_connection_pool, get, check_closed, poll, receive, reserve, dial,
}
use loomcli.Pool.System.{System, Move, Answer, moves, run, step, init}
use loomcli.Pool.Accounting.{owns, uses, has_panicked, total, run-init_accounts}
use loomcli.Pool.Closing.{close_pool, closes_panic}

abbrev single : Pool
single = record {
  socket_path = "/tmp/bd.sock";
  size = 1;
  available = 0;
  channel_closed = false;
  closed = false;
  active_count = 0;
  created_count = 0;
}

abbrev yes : Answer
yes = record { good = true; discards = false }

-- The first request dials and holds the connection, the second waits.
abbrev one_waits : List Move
one_waits =
    moves 0 yes
    ∷ moves 0 yes
    ∷ moves 0 yes
    ∷ moves 0 yes
    ∷ moves 0 yes
    ∷ moves 1 yes
    ∷ moves 1 yes
    ∷ moves 1 yes
    ∷ moves 1 yes
    ∷ []

abbrev full : System
full = run (init single 2) one_waits

run-init_accounts_example :
    (full.pool.available + total owns full.phases ≤ full.pool.created_count)
    × (full.pool.created_count ≤ full.pool.size)
    × ((full.pool.closed ≡ true)
        ⊎ (full.pool.created_count ≡ full.pool.available + total owns full.phases)
          × (full.pool.active_count ≡ total uses full.phases)
          × (total has_panicked full.phases ≡ 0))
unfolding new_connection_pool
run-init_accounts_example = run-init_accounts "/tmp/bd.sock" (pos 1) single 2 one_waits refl

closes_panic_example : get_elem? (step (run full close_pool) (moves 1 yes)).phases 1 ≡ some panicked
unfolding run step init get check_closed poll receive reserve dial
closes_panic_example = closes_panic full 1 yes (waiting 3) refl refl refl refl
