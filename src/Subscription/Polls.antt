-- ===== src/Subscription/Polls.antt =====
-- Polls of the database by internal/webui/subscription.go, and changes in place that they announce or forget.
use loomcli.Common.{
  ℕ, ◌+◌, ◌*◌, ◌/◌, ◌≤◌, ◌<◌, ◌≡◌, refl, true, Option, none, some, List, [], ◌∷◌, ℤ, pos, ltb,
  arith, inl, inr, if◌then◌else◌, In,
}
use loomcli.Subscription.{DaemonSubscriber, poll_db_changes, updated_after}

-- How many of the updates are after a time, which is what the daemon counts.
abbrev pub count_after : List ℕ → ℕ → ℕ
count_after [] t = 0
count_after (u ∷ us) t = (if ltb t u then 1 else 0) + count_after us t

abbrev pub AllUpTo : ℕ → List ℕ → Type 0
AllUpTo t [] = Unit {0}
AllUpTo t (u ∷ us) = (u ≤ t) × AllUpTo t us

abbrev pub cons_some : Option ℕ → List ℕ → List ℕ
cons_some none l = l
cons_some (some t) l = t ∷ l

-- The refreshes of polls that all work, while nothing changes.
abbrev pub refreshes : DaemonSubscriber → List ℕ → ℤ → ℕ → List ℕ → List ℕ
refreshes s us n now [] = []
refreshes s us n now (wait ∷ waits) =
    let p =
      poll_db_changes s true (now + wait) (some n)
        (some (pos (count_after us (updated_after s)))) in
    let rest = refreshes p.0 us n (now + wait) waits in cons_some p.1 rest

count_after-AllUpTo : (us : List ℕ) (t u : ℕ) → AllUpTo t us → t ≤ u → count_after us u ≡ 0
count_after-AllUpTo [] t u a l = refl
count_after-AllUpTo (x ∷ us) t u a l = ground (arith, count_after-AllUpTo us t u a.1 l)

count_after-pos : (us : List ℕ) (t u : ℕ) → In u us → t < u → 0 < count_after us t
count_after-pos [] t u i l = absurd i
count_after-pos (x ∷ us) t u (inl e) l = ground arith
count_after-pos (x ∷ us) t u (inr i) l = omega (arith, count_after-pos us t u i l)

poll_finds :
    (s : DaemonSubscriber) (us : List ℕ) (now u : ℕ)
    → s.count_initialized ≡ true
    → In u us
    → updated_after s < u
    → (poll_db_changes s true now
        (some s.last_known_count)
        (some (pos (count_after us (updated_after s))))).1
      ≡ some now
unfolding poll_db_changes
poll_finds s us now u e i l = ground (arith, count_after-pos us (updated_after s) u i l)

-- A poll that finds nothing, or whose second count fails, moves the time on.
poll_zero :
    (s : DaemonSubscriber) (now : ℕ)
    → s.count_initialized ≡ true
    → poll_db_changes s true now (some s.last_known_count) (some (pos 0))
      ≡ (record s { last_poll_time = now }, none)
unfolding poll_db_changes
poll_zero s now e = ground arith

poll_failed :
    (s : DaemonSubscriber) (now : ℕ)
    → s.count_initialized ≡ true
    → poll_db_changes s true now (some s.last_known_count) none
      ≡ (record s { last_poll_time = now }, none)
unfolding poll_db_changes
poll_failed s now e = ground arith

refreshes-nil :
    (s : DaemonSubscriber) (us : List ℕ) (t now : ℕ) (waits : List ℕ)
    → s.count_initialized ≡ true
    → AllUpTo t us
    → t ≤ updated_after s
    → s.last_poll_time ≤ now
    → refreshes s us s.last_known_count now waits ≡ []
refreshes-nil s us t now [] e a m l = refl
refreshes-nil s us t now (wait ∷ waits) e a m l =
    rw (count_after-AllUpTo us t (updated_after s) a m) (
      rw (poll_zero s (now + wait) e) (
        refreshes-nil (record s { last_poll_time = now + wait }) us t (now + wait) waits e a
          (omega (arith, m, l)) (omega arith)))

-- If the number of issues has not changed, a poll at `now` that works announces a change in place that is
-- after the time it asks from. If the second count of that poll fails instead, the change is not announced
-- then, and, if nothing changes any more and the changes were not in the second of `now`, by no later poll.
pub failed_count_forgets :
    (s : DaemonSubscriber) (us : List ℕ) (now u : ℕ) (waits : List ℕ)
    → s.count_initialized ≡ true
    → In u us
    → updated_after s < u
    → AllUpTo (now / 1000 * 1000) us
    → ((poll_db_changes s true now
          (some s.last_known_count)
          (some (pos (count_after us (updated_after s))))).1
        ≡ some now)
      × ((poll_db_changes s true now (some s.last_known_count) none).1 ≡ none)
      × (refreshes
            (poll_db_changes s true now (some s.last_known_count) none).0
            us
            s.last_known_count
            now
            waits
          ≡ [])
failed_count_forgets s us now u waits e i l a = (
  poll_finds s us now u e i l,
  rw (poll_failed s now e) refl,
  rw (poll_failed s now e) (
      refreshes-nil (record s { last_poll_time = now }) us (now / 1000 * 1000) now waits e a
        (omega arith) (omega arith)),
)
