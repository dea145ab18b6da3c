-- ===== src/Pool/Closing.antt =====
-- internal/webui/daemon/pool.go: what Close does to the goroutines that are inside Get and Put.
use loomcli.Common.{
  ℕ, zero, suc, ◌≡◌, Bool, true, false, some, List, [], ◌∷◌, get_elem?, arith, refl, ap, ◌∙◌,
}
use loomcli.Pool.{
  Pool, Phase, outside, dialing, holding, returning, overflowing, panicked, starting, checked,
  empty, waiting, received, poll, wait, send, receive,
}
use loomcli.Pool.System.{
  System, Move, moves, closes, closes_channel, Answer, advance, set_phase, step, run,
}

get_elem?-set_phase :
    (xs : List Phase) (i : ℕ) (a b : Phase)
    → get_elem? xs i ≡ some a
    → get_elem? (set_phase xs i b) i ≡ some b
get_elem?-set_phase [] i a b h = ground arith
get_elem?-set_phase (x ∷ xs) zero a b h = refl
get_elem?-set_phase (x ∷ xs) (suc i) a b h = get_elem?-set_phase xs i a b h

-- The goroutine is about to receive from, or to send on, the channel.
abbrev pub AtChannel : Phase → Bool → Type 0
AtChannel (checked n) good = Unit {0}
AtChannel (waiting n) good = good ≡ true
AtChannel returning good = Unit {0}
AtChannel ph good = ⊥

abbrev pub close_pool : List Move
close_pool = closes ∷ closes_channel ∷ []

advance_closed :
    (p : Pool) (a : Answer) (ph : Phase)
    → AtChannel ph a.good
    → p.channel_closed ≡ true
    → p.available ≡ 0
    → (advance p a ph).1 ≡ panicked
unfolding poll receive wait send
advance_closed p a (checked n) at c e = ground arith
advance_closed p a (waiting n) at c e = ground arith
advance_closed p a returning at c e = ground arith
advance_closed p a outside at c e = elim at [ ]
advance_closed p a dialing at c e = elim at [ ]
advance_closed p a holding at c e = elim at [ ]
advance_closed p a overflowing at c e = elim at [ ]
advance_closed p a panicked at c e = elim at [ ]
advance_closed p a (starting n) at c e = elim at [ ]
advance_closed p a (empty n) at c e = elim at [ ]
advance_closed p a (received n) at c e = elim at [ ]

shut : System → System
shut s = record s { pool = record s.pool { closed = true; channel_closed = true }; closing = false }

run-close_pool : (s : System) → s.pool.closed ≡ false → run s close_pool ≡ shut s
unfolding run step shut
run-close_pool s c = rw c refl

moves_to :
    (s : System) (i : ℕ) (a : Answer) (ph : Phase)
    → get_elem? s.phases i ≡ some ph
    → get_elem? (step s (moves i a)).phases i ≡ some (advance s.pool a ph).1
unfolding step
moves_to s i a ph e = rw e (get_elem?-set_phase s.phases i ph (advance s.pool a ph).1 e)

-- When the pool is closed while its channel is empty, every goroutine that is between Get's test of
-- `closed` and its receive, that waits in Get for a connection, or that is between Put's unlock and
-- its send, panics on its next move unless its timer ends the wait first.
pub closes_panic :
    (s : System) (i : ℕ) (a : Answer) (ph : Phase)
    → get_elem? s.phases i ≡ some ph
    → AtChannel ph a.good
    → s.pool.closed ≡ false
    → s.pool.available ≡ 0
    → get_elem? (step (run s close_pool) (moves i a)).phases i ≡ some panicked
closes_panic s i a ph e at c z = rw (run-close_pool s c) (
    moves_to (shut s) i a ph (unfold shut in e)
    ∙ ap some (advance_closed (shut s).pool a ph at (unfold shut in refl) (unfold shut in z)))
