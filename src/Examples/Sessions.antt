-- ===== src/Examples/Sessions.antt =====
-- Events of a session and the file of sessions, internal/usage.
use loomcli.Common.{
  ◌↔◌, ◌≢◌, apart, sym, ◌∙◌, In, ℕ, ◌≡◌, refl, false, none, some, List, [], ◌∷◌, String, str_eq,
  inl, inr, has, has-Lacks, if◌then◌else◌,
}
use loomcli.Usage.{
  Tokens, SessionUsage, Filter, LineFormat, new_collector, finalize, matches_filter, read,
}
use loomcli.Usage.Distinct.{accumulate_all, accumulate_all_counts, IsReported}
use loomcli.Usage.Kept.{Entry, session, corrupt, appended, read-append}

abbrev tokens : ℕ → Tokens
tokens n = record { input = n; output = 2; cache_read = 0; cache_write = 0 }

abbrev reported : String → Tokens
reported id = tokens (if str_eq id "m1" then 10 else 20)

-- The first message is reported twice, and one event has no message.
abbrev events : List (String × Tokens)
events = ("m1", tokens 10) ∷ ("m2", tokens 20) ∷ ("", tokens 5) ∷ ("m1", tokens 10) ∷ []

each_message : (k : String) → In k ("m2" ∷ "m1" ∷ []) ↔ (k ≢ "") × IsReported k events
each_message k = (to, from)
  where
    to : In k ("m2" ∷ "m1" ∷ []) → (k ≢ "") × IsReported k events
    to (inl e) = (λ q. apart "m2" "" refl (sym e ∙ q), inr (inl (sym e)))
    to (inr (inl e)) = (λ q. apart "m1" "" refl (sym e ∙ q), inl (sym e))
    to (inr (inr m)) = absurd m

    from : (k ≢ "") × IsReported k events → In k ("m2" ∷ "m1" ∷ [])
    from (n, inl e) = inr (inl (sym e))
    from (n, inr (inl e)) = inl (sym e)
    from (n, inr (inr (inl e))) = absurd (n (sym e))
    from (n, inr (inr (inr (inl e)))) = inr (inl (sym e))
    from (n, inr (inr (inr (inr m)))) = absurd m

accumulate_all_counts_example :
    (accumulate_all (new_collector "claude" "falcon") events).tokens
    ≡ record { input = 35; output = 6; cache_read = 0; cache_write = 0 }
accumulate_all_counts_example =
    accumulate_all_counts "claude" "falcon" reported events ("m2" ∷ "m1" ∷ [])
      (inr refl, (inr refl, (inl refl, (inr refl, tt))))
      (λ i. elim i [ inl e ↦ apart "m2" "m1" refl e | inr m ↦ m ], (λ i. i, tt)) each_message

-- The session of an agent.
abbrev of_agent : String → SessionUsage
of_agent name = finalize (λ backend t. "") (new_collector "claude" name) "bd-1" "" 100 200 0

-- A format for such sessions.
abbrev by_name : LineFormat
by_name = record {
  write = λ r. r.agent_name;
  read = λ s. if str_eq s "oops" then none else some (of_agent s);
  is_too_long = λ s. false;
}

abbrev owl : Filter
owl = record {
  agent_name = "owl";
  backend = "";
  task_id = "";
  epic_id = "";
  since = some 50;
  until = none;
}

abbrev entries : List Entry
entries = session (of_agent "falcon") ∷ corrupt "oops" ∷ session (of_agent "owl") ∷ []

read-append_example :
    read by_name owl (some (appended by_name "" entries)) ≡ (of_agent "owl" ∷ [], false)
unfolding matches_filter has
read-append_example = read-append by_name owl entries (
  (has-Lacks "\n" "falcon" refl, refl, refl, refl),
  ((has-Lacks "\n" "oops" refl, refl, refl), ((has-Lacks "\n" "owl" refl, refl, refl, refl), refl)),
)
