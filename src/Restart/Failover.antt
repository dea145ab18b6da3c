-- ===== src/Restart/Failover.antt =====
-- Failover along the chain of backends: the primary, then the fallback backends in order.
use loomcli.Common.{
  ℕ, zero, suc, ◌+◌, ◌≤◌, ◌<◌, ◌≡◌, ◌↔◌, refl, true, Option, none, some, List, [], ◌∷◌, String, pos,
  leb, length, get_elem?, arith, ◌⊎◌, if◌then◌else◌, ◌∙◌,
}
use loomcli.AgentError.{AgentError, model_not_found, rate_limited}
use loomcli.Config.{RestartPolicy, DaemonConfig}
use loomcli.Restart.{
  AgentProcess, should_restart, try_fallback_backend, failover_by_error, after_exit, give_up,
  retry_other_backend, get_effective_backend, get_max_retries, restart_after_backoff,
}
use loomcli.Restart.Retry.{exit_with, survives}

-- The index points into the chain of backends.
abbrev pub InChain : AgentProcess → Type 0
InChain p = p.current_backend_idx ≤ length p.entry.fallback_backends

abbrev fallbacks : AgentProcess → List String
fallbacks p = p.entry.fallback_backends

-- A failover happens exactly on a missing model, or on more than 3 rate limits in a row, while a
-- backend is left in the chain; it moves on by one backend and clears both counters, and otherwise
-- nothing changes.
pub try_fallback_backend_cases :
    (p : AgentProcess)
    → let (p', moved) = try_fallback_backend p in
      ((moved ≡ true) ↔ (
        (e : AgentError) × (p.last_error ≡ some e)
        × ((e.class ≡ model_not_found) ⊎ ((e.class ≡ rate_limited) × (3 < p.rate_retry_count)))
        × (p.current_backend_idx < length (fallbacks p))))
      × (p' ≡ (
          if moved
          then record p {
            current_backend_idx = suc p.current_backend_idx;
            restart_count = 0;
            rate_retry_count = 0;
          }
          else p))
unfolding try_fallback_backend
try_fallback_backend_cases p = split p.last_error
  where
    split :
        (o : Option AgentError)
        → let (p', moved) = failover_by_error p o in
          ((moved ≡ true) ↔ (
            (e : AgentError) × (o ≡ some e)
            × ((e.class ≡ model_not_found) ⊎ ((e.class ≡ rate_limited) × (3 < p.rate_retry_count)))
            × (p.current_backend_idx < length (fallbacks p))))
          × (p' ≡ (
              if moved
              then record p {
                current_backend_idx = suc p.current_backend_idx;
                restart_count = 0;
                rate_retry_count = 0;
              }
              else p))
    split none = ((λ h. absurd (ground arith), λ h. ground arith), ground arith)
    split (some e) =
        ((λ h. (e, refl, ground arith, ground arith), λ (e', q, c, l). rest e' q c l), ground arith)
      where
        rest :
            (e' : AgentError)
            → some e ≡ some e'
            → ((e'.class ≡ model_not_found)
                ⊎ ((e'.class ≡ rate_limited) × (3 < p.rate_retry_count)))
            → p.current_backend_idx < length (fallbacks p)
            → (failover_by_error p (some e)).1 ≡ true
        rest e' q c l = ground arith

-- Failover, the restart decision and both together keep the index in the chain.
pub after_exit-InChain :
    (rp : RestartPolicy) (p : AgentProcess) (now : ℕ) → InChain p → InChain (after_exit rp p now).0
unfolding after_exit should_restart try_fallback_backend
after_exit-InChain rp p now h = ground arith

-- The backend in use is the primary at index 0 and else the fallback at that place in the list;
-- the code for an index beyond the list is never reached.
pub get_effective_backend-InChain :
    (p : AgentProcess) (dc : DaemonConfig) (k : ℕ)
    → InChain p
    → p.current_backend_idx ≡ suc k
    → get_elem? (fallbacks p) k ≡ some (get_effective_backend p dc)
unfolding get_effective_backend
get_effective_backend-InChain p dc k h e =
    let found = in_range (fallbacks p) k (omega arith) in ground (arith, found.1)
  where
    in_range : (bs : List String) (k : ℕ) → k < length bs → (b : String) × (get_elem? bs k ≡ some b)
    in_range [] k h = elim h [ ]
    in_range (b ∷ bs) zero h = (b, refl)
    in_range (b ∷ bs) (suc k) h = in_range bs k (omega arith)

exit_moves :
    (rp : RestartPolicy) (p : AgentProcess) (now : ℕ) (e : AgentError)
    → e.class ≡ model_not_found
    → p.current_backend_idx < length (fallbacks p)
    → after_exit rp (exit_with p e) now ≡ (
      record (exit_with p e) {
        current_backend_idx = suc p.current_backend_idx;
        restart_count = 0;
        rate_retry_count = 0;
      },
      retry_other_backend,
    )
unfolding after_exit should_restart try_fallback_backend
exit_moves rp p now e c l = ground arith

exit_exhausted :
    (rp : RestartPolicy) (p : AgentProcess) (now m : ℕ) (e : AgentError)
    → get_max_retries rp ≡ pos m
    → e.class ≡ model_not_found
    → p.current_backend_idx ≡ length (fallbacks p)
    → after_exit rp (exit_with p e) now ≡ (
      record (exit_with p e) { restart_count = suc p.restart_count; rate_retry_count = 0 },
      if leb (suc p.restart_count) m then restart_after_backoff else give_up,
    )
unfolding after_exit should_restart try_fallback_backend
exit_exhausted rp p now m e h c l = ground arith

abbrev pub AllMissing : List AgentError → Type 0
AllMissing [] = Unit {0}
AllMissing (e ∷ es) = (e.class ≡ model_not_found) × AllMissing es

survives_exhausted :
    (rp : RestartPolicy) (p : AgentProcess) (now m : ℕ) (es : List AgentError)
    → get_max_retries rp ≡ pos m
    → p.restart_count ≤ m
    → p.current_backend_idx ≡ length (fallbacks p)
    → AllMissing es
    → survives rp p now es ≡ leb (p.restart_count + length es) m
unfolding survives
survives_exhausted rp p now m [] h le l c = ground arith
survives_exhausted rp p now m (e ∷ es) h le l c =
    let p' = record (exit_with p e) { restart_count = suc p.restart_count; rate_retry_count = 0 } in
    rw (exit_exhausted rp p now m e h c.0 l) (ground (arith, survives_exhausted rp p' now m es h))

survives_moving :
    (rp : RestartPolicy) (p : AgentProcess) (now m k : ℕ) (es : List AgentError)
    → get_max_retries rp ≡ pos m
    → p.restart_count ≡ 0
    → p.current_backend_idx + k ≡ length (fallbacks p)
    → AllMissing es
    → survives rp p now es ≡ leb (length es) (k + m)
unfolding survives
survives_moving rp p now m k [] h z l c = ground arith
survives_moving rp p now m zero (e ∷ es) h z l c =
    survives_exhausted rp p now m (e ∷ es) h (omega arith) (omega arith) c ∙ ground arith
survives_moving rp p now m (suc k) (e ∷ es) h z l c =
    let p' = record (exit_with p e) {
      current_backend_idx = suc p.current_backend_idx;
      restart_count = 0;
      rate_retry_count = 0;
    } in
    rw (exit_moves rp p now e c.0 (omega arith))
      (survives_moving rp p' now m k es h refl (omega arith) c.1 ∙ ground arith)

-- An agent on its primary backend with no retries counted, whose model is missing on every backend,
-- survives exactly as many such exits as there are fallback backends and retries together.
pub survives_missing_models :
    (rp : RestartPolicy) (p : AgentProcess) (now m : ℕ) (es : List AgentError)
    → get_max_retries rp ≡ pos m
    → p.current_backend_idx ≡ 0
    → p.restart_count ≡ 0
    → AllMissing es
    → survives rp p now es ≡ leb (length es) (length (fallbacks p) + m)
survives_missing_models rp p now m es h i z c =
    survives_moving rp p now m (length (fallbacks p)) es h z (omega arith) c
