-- ===== src/AgentLock/Exclusion.antt =====
-- While no process dies, one process at a time has the lock of internal/cli/lock.go.
use loomcli.Common.{
  ℕ, ◌≡◌, ◌⊎◌, Bool, true, false, Option, none, some, is_some, List, [], ◌∷◌, ◌==◌, arith,
  Bool-cases, inl, inr,
}
use loomcli.AgentLock.{
  LockInfo, LockFile, Phase, outside, opening, writing, checking, creating, removing, rewriting,
  Call, acquire_lock, updated, open_exclusive, after_check, check_lock, write_handle,
  after_release_check, after_read, write_file, advance, begin,
}
use loomcli.AgentLock.System.{
  World, Move, calls, goes, put_phase, moved, step, run, is_owner, new_world,
}

module _ (alive : ℕ → Bool) where
  abbrev NamesLiving : Option LockInfo → Type 0
  NamesLiving none = Unit {0}
  NamesLiving (some i) = alive i.pid ≡ true

  abbrev FileOk : Option LockFile → Type 0
  FileOk none = Unit {0}
  FileOk (some f) = NamesLiving f.content

  abbrev PhaseOk : Phase → Type 0
  PhaseOk (opening i) = alive i.pid ≡ true
  PhaseOk (writing i) = alive i.pid ≡ true
  PhaseOk (checking i k) = alive i.pid ≡ true
  PhaseOk (creating i k) = alive i.pid ≡ true
  PhaseOk (removing i k) = ⊥
  PhaseOk (rewriting h i) = alive i.pid ≡ true
  PhaseOk p = Unit {0}

  -- What a step of a process keeps: an owner has a file, a new owner found none, and a file that is
  -- gone was the owner's.
  record Keeps (f g : Option LockFile) (p q : Phase) : Type 0 where
    pub file_ok : FileOk g
    pub phase_ok : PhaseOk q
    pub has_file : is_owner q ≡ true → is_some g ≡ true
    pub gained : is_owner q ≡ true → (is_owner p ≡ true) ⊎ (is_some f ≡ false)
    pub lost : is_some g ≡ false → (is_owner p ≡ true) ⊎ (is_some f ≡ false)

  HasFile : Option LockFile → Phase → Type 0
  HasFile f p = is_owner p ≡ true → is_some f ≡ true

  advance-Keeps :
      (n : ℕ) (ok : Bool) (f : Option LockFile) (p : Phase)
      → FileOk f
      → PhaseOk p
      → HasFile f p
      → Keeps f (advance alive n ok f p).0 p (advance alive n ok f p).1
  unfolding advance HasFile is_owner open_exclusive after_check check_lock write_handle
      after_release_check after_read write_file updated
  advance-Keeps n ok f outside fo po h = ground arith
  advance-Keeps n ok none p fo po h = ground arith
  advance-Keeps n ok (some f) p fo po h = ground arith

  begin-Keeps :
      (n : ℕ) (c : Call) (f : Option LockFile) (p : Phase)
      → alive n ≡ true
      → FileOk f
      → PhaseOk p
      → HasFile f p
      → Keeps f f p (begin n c p)
  unfolding begin HasFile is_owner
  begin-Keeps n (acquire_lock command agent now workspace) f outside a fo po h = ground arith
  begin-Keeps n c f outside a fo po h = ground arith
  begin-Keeps n c none p a fo po h = ground arith
  begin-Keeps n c (some f) p a fo po h = ground arith

  record IsExclusive (w : World) : Type 0 where
    pub file_ok : FileOk w.file
    pub phase_ok : (m : ℕ) → PhaseOk (w.phase m)
    pub has_file : (m : ℕ) → HasFile w.file (w.phase m)
    pub one_owner : (m o : ℕ) → is_owner (w.phase m) ≡ true → is_owner (w.phase o) ≡ true → m ≡ o

  moved-Keeps :
      (w : World) (n : ℕ) (m : Move)
      → alive n ≡ true
      → IsExclusive w
      → Keeps w.file
          (moved alive n m w.file (w.phase n)).0
          (w.phase n)
          (moved alive n m w.file (w.phase n)).1
  moved-Keeps w n (calls c) a e =
      begin-Keeps n c w.file (w.phase n) a e.file_ok (e.phase_ok n) (e.has_file n)
  moved-Keeps w n (goes ok) a e =
      advance-Keeps n ok w.file (w.phase n) e.file_ok (e.phase_ok n) (e.has_file n)

  -- The others keep their file, and nobody joins them.
  put-IsExclusive :
      (w : World) (n : ℕ) (g : Option LockFile) (q : Phase)
      → Keeps w.file g (w.phase n) q
      → IsExclusive w
      → IsExclusive (record { file = g; phase = put_phase w.phase n q })
  unfolding HasFile
  put-IsExclusive w n g q k e = record {
    file_ok = k.file_ok;
    phase_ok =
        λ m. elim (Bool-cases (n == m)) [ inl d ↦ rw d k.phase_ok | inr d ↦ rw d (e.phase_ok m) ];
    has_file = λ m. elim (Bool-cases (n == m)) [
      | inl d ↦ rw d k.has_file
      | inr d ↦ rw d (λ h. stays m d h (Bool-cases (is_some g)))
    ];
    one_owner = λ m o. elim (Bool-cases (n == m)) [
      | inl d ↦ elim (Bool-cases (n == o)) [
        | inl f ↦ λ x y. ground arith
        | inr f ↦ rw (d, f) (λ x y. absurd (alone o f y (k.gained x)))
      ]
      | inr d ↦ elim (Bool-cases (n == o)) [
        | inl f ↦ rw (d, f) (λ x y. absurd (alone m d x (k.gained y)))
        | inr f ↦ rw (d, f) (e.one_owner m o)
      ]
    ];
  }
    where
      alone :
          (m : ℕ)
          → (n == m) ≡ false
          → is_owner (w.phase m) ≡ true
          → (is_owner (w.phase n) ≡ true) ⊎ (is_some w.file ≡ false)
          → ⊥
      alone m d x (inl y) = ground (arith, e.one_owner n m y x)
      alone m d x (inr y) = cc (e.has_file m x, y)

      stays :
          (m : ℕ)
          → (n == m) ≡ false
          → is_owner (w.phase m) ≡ true
          → (is_some g ≡ true) ⊎ (is_some g ≡ false)
          → is_some g ≡ true
      stays m d x (inl y) = y
      stays m d x (inr y) = absurd (alone m d x (k.lost y))

  abbrev pub AllLive : List (ℕ × Move) → Type 0
  AllLive [] = Unit {0}
  AllLive ((n, m) ∷ ms) = (alive n ≡ true) × AllLive ms

  run-IsExclusive :
      (w : World) (ms : List (ℕ × Move)) → AllLive ms → IsExclusive w → IsExclusive (run alive w ms)
  unfolding step run
  run-IsExclusive w [] l e = e
  run-IsExclusive w ((n, m) ∷ ms) l e = run-IsExclusive (step alive w n m) ms l.1 (
      put-IsExclusive w n (moved alive n m w.file (w.phase n)).0
        (moved alive n m w.file (w.phase n)).1 (moved-Keeps w n m l.0 e) e)

  new_world-IsExclusive : IsExclusive new_world
  unfolding HasFile is_owner
  new_world-IsExclusive = record {
    file_ok = tt;
    phase_ok = λ m. tt;
    has_file = λ m h. absurd (cc h);
    one_owner = λ m o h. absurd (cc h);
  }

-- Starting without a lock file, in every interleaving of acquisitions, releases and updates by
-- processes that do not die meanwhile, two that own the lock are the same, and while one owns it there
-- is a file at the path.
pub run-new_world_exclusive :
    (alive : ℕ → Bool) (ms : List (ℕ × Move)) (a b : ℕ)
    → AllLive alive ms
    → is_owner ((run alive new_world ms).phase a) ≡ true
    → is_owner ((run alive new_world ms).phase b) ≡ true
    → (a ≡ b) × (is_some (run alive new_world ms).file ≡ true)
unfolding HasFile
run-new_world_exclusive alive ms a b l h k =
    let e = run-IsExclusive alive new_world ms l (new_world-IsExclusive alive) in
    (e.one_owner a b h k, e.has_file a h)
