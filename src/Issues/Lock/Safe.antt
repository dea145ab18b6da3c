-- ===== src/Issues/Lock/Safe.antt =====
-- internal/types/lock_check.go: the cases in which a database is not skipped.
use loomcli.Common.{
  ◌≡◌, ◌≢◌, ◌↔◌, refl, ◌⊎◌, inl, inr, true, false, Option, none, some, is_some, arith, String, pos,
  ◌<ℤ◌, eq_iff, str_ne, Bool-cases,
}
use loomcli.Issues.Lock.{
  ExclusiveLock, LockError, validate, is_process_alive, World, Probe, not_found, signalled,
  no_such_process, other_error, ReadFile, bytes, not_exist, read_error, should_skip_database,
  parsed, held, read, alive_on, probe_alive, started_error,
}

-- The lock says who holds the database, where, as which process and since when.
abbrev pub IsComplete : ExclusiveLock → Type 0
IsComplete lock =
    (lock.holder ≢ "")
    × (pos 0 <ℤ lock.pid)
    × (lock.hostname ≢ "")
    × (is_some lock.started_at ≡ true)

-- The process was on this host, whose name is known, and the system says that there is no such process.
abbrev pub IsGone : World → ExclusiveLock → Type 0
IsGone w lock =
    (here : String) × (w.hostname ≡ some here)
    × (w.equal_fold lock.hostname here ≡ true)
    × ((w.probe lock.pid ≡ not_found) ⊎ (w.probe lock.pid ≡ no_such_process))

abbrev pub IsStale : World → ExclusiveLock → Type 0
IsStale w lock = IsComplete lock × IsGone w lock × (w.can_remove ≡ true)

validate-IsComplete : (lock : ExclusiveLock) → validate lock ≡ none → IsComplete lock
unfolding validate started_error
validate-IsComplete lock h = (
  λ e. ground (arith, eq_iff lock.holder ""),
  ground arith,
  λ e. ground (arith, eq_iff lock.hostname ""),
  ground arith,
)

IsComplete-validate : (lock : ExclusiveLock) → IsComplete lock → validate lock ≡ none
unfolding validate started_error
IsComplete-validate lock h = ground (arith, str_ne lock.holder "" h.0, str_ne lock.hostname "" h.2)

is_process_alive-IsGone :
    (w : World) (lock : ExclusiveLock)
    → is_process_alive w lock.pid lock.hostname ≡ false
    → IsGone w lock
unfolding is_process_alive alive_on probe_alive
is_process_alive-IsGone w lock h = go w.hostname refl h
  where
    dead :
        (p : Probe)
        → w.probe lock.pid ≡ p
        → probe_alive p ≡ false
        → (w.probe lock.pid ≡ not_found) ⊎ (w.probe lock.pid ≡ no_such_process)
    dead not_found q a = inl q
    dead signalled q a = absurd (ground arith)
    dead no_such_process q a = inr q
    dead other_error q a = absurd (ground arith)

    go :
        (o : Option String)
        → w.hostname ≡ o
        → alive_on w o lock.pid lock.hostname ≡ false
        → IsGone w lock
    go none q a = absurd (cc a)
    go (some here) q a = elim (Bool-cases (w.equal_fold lock.hostname here)) [
      | inl f ↦ (here, q, f, dead (w.probe lock.pid) refl (ground arith))
      | inr f ↦ absurd (ground arith)
    ]

IsGone-is_process_alive :
    (w : World) (lock : ExclusiveLock)
    → IsGone w lock
    → is_process_alive w lock.pid lock.hostname ≡ false
unfolding is_process_alive alive_on probe_alive
IsGone-is_process_alive w lock (here, q, f, inl p) = rw q (rw (f, p) refl)
IsGone-is_process_alive w lock (here, q, f, inr p) = rw q (rw (f, p) refl)

-- The lock file is there, is a lock, and is stale.
abbrev pub HasStaleLock : World → Type 0
HasStaleLock w =
    (content : String) × (lock : ExclusiveLock) × (w.read_lock ≡ bytes content)
    × (w.unmarshal content ≡ some lock)
    × IsStale w lock

held_proceeds :
    (w : World) (lock : ExclusiveLock)
    → (held w lock (validate lock)).skip ≡ false
    → IsStale w lock × ((held w lock (validate lock)).removed ≡ true)
held_proceeds w lock = go (validate lock) refl
  where
    go :
        (e : Option LockError)
        → validate lock ≡ e
        → (held w lock e).skip ≡ false
        → IsStale w lock × ((held w lock e).removed ≡ true)
    go (some e) q h = absurd (unfold held in ground arith)
    go none q h = elim (Bool-cases (is_process_alive w lock.pid lock.hostname)) [
      | inl a ↦ absurd (unfold held in ground arith)
      | inr a ↦ (
        (validate-IsComplete lock q, is_process_alive-IsGone w lock a, unfold held in ground arith),
        unfold held in ground arith,
      )
    ]

parsed_proceeds :
    (w : World) (o : Option ExclusiveLock)
    → (parsed w o).skip ≡ false
    → (lock : ExclusiveLock) × (o ≡ some lock) × IsStale w lock × ((parsed w o).removed ≡ true)
unfolding parsed
parsed_proceeds w none h = absurd (ground arith)
parsed_proceeds w (some lock) h = let (s, r) = held_proceeds w lock h in (lock, refl, s, r)

read_proceeds :
    (w : World)
    → (should_skip_database w).skip ≡ false
    → ((w.read_lock ≡ not_exist) × ((should_skip_database w).removed ≡ false))
      ⊎ (HasStaleLock w × ((should_skip_database w).removed ≡ true))
unfolding should_skip_database
read_proceeds w h = go w.read_lock refl h
  where
    go :
        (r : ReadFile)
        → w.read_lock ≡ r
        → (read w r).skip ≡ false
        → ((w.read_lock ≡ not_exist) × ((read w r).removed ≡ false))
          ⊎ (HasStaleLock w × ((read w r).removed ≡ true))
    go not_exist q h = inl (q, unfold read in refl)
    go read_error q h = absurd (unfold read in ground arith)
    go (bytes content) q h =
        unfold read in
        let (lock, e, s, r) = parsed_proceeds w (w.unmarshal content) h in
        inr ((content, lock, q, e, s), r)

stale_proceeds : (w : World) → HasStaleLock w → (should_skip_database w).skip ≡ false
unfolding should_skip_database read parsed held
stale_proceeds w (content, lock, q, e, (complete, gone, removable)) =
    rw (q, e)
      (rw (IsComplete-validate lock complete, IsGone-is_process_alive w lock gone, removable) refl)

removed_proceeds :
    (w : World) → (should_skip_database w).removed ≡ true → (should_skip_database w).skip ≡ false
unfolding should_skip_database read parsed held
removed_proceeds w = go w.read_lock
  where
    of_lock :
        (lock : ExclusiveLock) (e : Option LockError)
        → (held w lock e).removed ≡ true
        → (held w lock e).skip ≡ false
    of_lock lock (some e) h = absurd (ground arith)
    of_lock lock none h = ground arith

    of_content :
        (o : Option ExclusiveLock) → (parsed w o).removed ≡ true → (parsed w o).skip ≡ false
    of_content none h = absurd (ground arith)
    of_content (some lock) h = of_lock lock (validate lock) h

    go : (r : ReadFile) → (read w r).removed ≡ true → (read w r).skip ≡ false
    go not_exist h = refl
    go read_error h = absurd (ground arith)
    go (bytes content) h = of_content (w.unmarshal content) h

-- A database is not skipped exactly if it has no lock file, or its lock file is a complete lock, its
-- process was on this host and is not there any more, and the file can be removed. The file is
-- removed exactly in the second case.
pub should_skip_database_proceeds :
    (w : World)
    → ((should_skip_database w).skip ≡ false ↔ (w.read_lock ≡ not_exist) ⊎ HasStaleLock w)
      × ((should_skip_database w).removed ≡ true ↔ HasStaleLock w)
unfolding should_skip_database read
should_skip_database_proceeds w = ((to, from), (taken, takes))
  where
    to : (should_skip_database w).skip ≡ false → (w.read_lock ≡ not_exist) ⊎ HasStaleLock w
    to h = elim (read_proceeds w h) [ inl x ↦ inl x.0 | inr x ↦ inr x.0 ]

    from : (w.read_lock ≡ not_exist) ⊎ HasStaleLock w → (should_skip_database w).skip ≡ false
    from (inl e) = rw e refl
    from (inr s) = stale_proceeds w s

    taken : (should_skip_database w).removed ≡ true → HasStaleLock w
    taken h = elim (read_proceeds w (removed_proceeds w h)) [
      | inl x ↦ absurd (cc (h, x.1))
      | inr x ↦ x.0
    ]

    takes : HasStaleLock w → (should_skip_database w).removed ≡ true
    takes s = elim (read_proceeds w (stale_proceeds w s)) [
      | inl x ↦ absurd (missing s x.0)
      | inr x ↦ x.1
    ]
      where
        missing : HasStaleLock w → w.read_lock ≡ not_exist → ⊥
        missing (content, lock, q, u, rest) e = cc (q, e)
