-- ===== src/AgentError/Classify/Outcome.antt =====
-- What a classification can be.
use loomcli.Common.{
  ◌≡◌, ◌≢◌, refl, true, false, Option, none, some, List, [], ◌∷◌, ◌++◌, String, ℤ, pos, arith,
  str_eq, any, inl, inr, ◌⊎◌, Bool-cases,
}
use loomcli.AgentError.{no_work, rate_limited, is_fatal}
use loomcli.AgentError.Classify.{
  GoPackages, Pattern, ClassifyResult, result_of, classify_with, classify_log, classify_claude,
  classify_codex, classify_opencode, classify_backend, or_exit_code, classify_by_exit_code,
  classify_from_log, claude_patterns, codex_patterns, opencode_patterns,
}

-- No pattern's class is NoWork.
abbrev NoneIdle : List Pattern → Type 0
NoneIdle [] = Unit {0}
NoneIdle (p ∷ ps) = (p.class ≢ no_work) × NoneIdle ps

-- What holds of every result that a table gives.
abbrev IsFound : Option ClassifyResult → Type 0
IsFound none = Unit {0}
IsFound (some r) = (r.class ≢ no_work) × ((r.retry_after ≡ pos 0) ⊎ (r.class ≡ rate_limited))

result_of_retry :
    (rx : GoPackages) (p : Pattern) (log : String)
    → ((result_of rx p log).retry_after ≡ pos 0) ⊎ ((result_of rx p log).class ≡ rate_limited)
unfolding result_of
result_of_retry rx p log = ground arith

classify_with-IsFound :
    (rx : GoPackages) (ps : List Pattern) (log : String)
    → NoneIdle ps
    → IsFound (classify_with rx ps log)
unfolding classify_with
classify_with-IsFound rx [] log h = tt
classify_with-IsFound rx (p ∷ ps) log h = elim (Bool-cases (rx.match_string p.re log)) [
  | inl e ↦ rw e (unfold result_of in h.0, result_of_retry rx p log)
  | inr e ↦ rw e (classify_with-IsFound rx ps log h.1)
]

classify_log-IsFound :
    (rx : GoPackages) (ps : List Pattern) (log : String)
    → NoneIdle ps
    → IsFound (classify_log rx ps log)
unfolding classify_log
classify_log-IsFound rx ps log h = elim (Bool-cases (str_eq log "")) [
  | inl e ↦ rw e tt
  | inr e ↦ rw e (classify_with-IsFound rx ps log h)
]

classify_backend-IsFound :
    (rx : GoPackages) (backend log : String) → IsFound (classify_backend rx backend log)
unfolding classify_backend classify_claude classify_codex classify_opencode
classify_backend-IsFound rx backend log = elim (Bool-cases (str_eq backend "claude")) [
  | inl e ↦ rw e (classify_log-IsFound rx claude_patterns log (ground arith))
  | inr e ↦ rw e (elim (Bool-cases (str_eq backend "codex")) [
    | inl e' ↦ rw e' (classify_log-IsFound rx codex_patterns log (ground arith))
    | inr e' ↦ rw e' (elim (Bool-cases (str_eq backend "opencode")) [
      | inl e'' ↦ rw e'' (classify_log-IsFound rx opencode_patterns log (ground arith))
      | inr e'' ↦ rw e'' tt
    ])
  ])
]

-- For every log, exit code and backend: the class is never NoWork; a retry-after hint comes only
-- with a rate limit; and a fatal class comes from a pattern that matched, never from the exit code.
classify_from_log_cases :
    (rx : GoPackages) (log : String) (exit_code : ℤ) (backend : String)
    → let e = classify_from_log rx log exit_code backend in
      (e.class ≢ no_work)
      × ((e.retry_after ≡ pos 0) ⊎ (e.class ≡ rate_limited))
      × ((is_fatal e.class ≡ false)
          ⊎ ((r : ClassifyResult) × (classify_backend rx backend log ≡ some r)
              × (e.class ≡ r.class)))
unfolding classify_from_log classify_by_exit_code
classify_from_log_cases rx log exit_code backend =
    split (classify_backend rx backend log) (classify_backend-IsFound rx backend log)
  where
    split :
        (o : Option ClassifyResult)
        → IsFound o
        → let r = or_exit_code rx exit_code o in
          (r.class ≢ no_work)
          × ((r.retry_after ≡ pos 0) ⊎ (r.class ≡ rate_limited))
          × ((is_fatal r.class ≡ false)
              ⊎ ((s : ClassifyResult) × (o ≡ some s) × (r.class ≡ s.class)))
    split none h = (ground arith, inl (ground arith), inl (ground arith))
    split (some r) h = (h.0, h.1, inr (r, refl, refl))

-- The first pattern of a table that matches decides: if none of those before it matches, the
-- result is its class and message.
pub classify_with_first :
    (rx : GoPackages) (ps : List Pattern) (p : Pattern) (qs : List Pattern) (log : String)
    → any (λ q. rx.match_string q.re log) ps ≡ false
    → rx.match_string p.re log ≡ true
    → classify_with rx (ps ++ p ∷ qs) log ≡ some (result_of rx p log)
unfolding classify_with
classify_with_first rx [] p qs log h m = rw m refl
classify_with_first rx (q ∷ ps) p qs log h m = ground (arith, classify_with_first rx ps p qs log)
