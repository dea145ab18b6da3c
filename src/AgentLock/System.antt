-- ===== src/AgentLock/System.antt =====
-- Processes that share one lock file of internal/cli/lock.go, in any interleaving of their calls of the
-- file system. Which processes live does not change meanwhile.
use loomcli.Common.{ℕ, Bool, true, false, Option, none, List, [], ◌∷◌, ◌==◌, if◌then◌else◌}
use loomcli.AgentLock.{
  LockFile, Phase, outside, holding, release_checking, releasing, writing, reading, rewriting, Call,
  begin, advance,
}

pub record World : Type 0 where
  pub file : Option LockFile
  pub phase : ℕ → Phase

pub data Move : Type 0 where
  calls : Call → Move
  goes : Bool → Move

abbrev pub put_phase : (ℕ → Phase) → ℕ → Phase → ℕ → Phase
put_phase phase n p m = if n == m then p else phase m

abbrev pub moved : (ℕ → Bool) → ℕ → Move → Option LockFile → Phase → Option LockFile × Phase
moved alive n (calls c) f p = (f, begin n c p)
moved alive n (goes ok) f p = advance alive n ok f p

abbrev pub updated_world : World → ℕ → Option LockFile × Phase → World
updated_world w n (f, p) = record { file = f; phase = put_phase w.phase n p }

unfoldable pub step : (ℕ → Bool) → World → ℕ → Move → World
step alive w n m = updated_world w n (moved alive n m w.file (w.phase n))

unfoldable pub run : (ℕ → Bool) → World → List (ℕ × Move) → World
run alive w [] = w
run alive w ((n, m) ∷ ms) = run alive (step alive w n m) ms

-- From the making of the file to its removal.
unfoldable pub is_owner : Phase → Bool
is_owner (writing i) = true
is_owner holding = true
is_owner release_checking = true
is_owner releasing = true
is_owner (reading h u) = h
is_owner (rewriting h i) = h
is_owner p = false

abbrev pub new_world : World
new_world = record { file = none; phase = λ n. outside }
