-- ===== src/Config/Load/Accepted.antt =====
-- What every configuration satisfies that LoadDaemonConfig returns.
use loomcli.Common.{
  ℕ, suc, ◌≡◌, refl, sym, Bool, false, Option, none, List, [], ◌∷◌, String, str_eq, arith, subst,
}
use loomcli.Config.Types.{AgentEntry, DaemonConfig}
use loomcli.Config.Validate.{
  has_errors, entry_error, or_else, entries_error, validate_agents, validate_project_config,
  validate_agent_entries,
}
use loomcli.Config.Validate.Accepted.{
  AllNamed, Distinct, IsSanePolicy, has_errors_no, agent_issues_from-Distinct,
  agent_issues_from_roles, RolesKnown, validate_restart_policy_iff,
}
use loomcli.Config.Load.{
  LoomConfig, ProjectFile, Loaded, failed, found, config, merged, check_agents, load_daemon_config,
}

entry_error_named : (i : ℕ) (a : AgentEntry) → entry_error i a ≡ none → str_eq a.worktree "" ≡ false
unfolding entry_error
entry_error_named i a h = ground arith

entries_error_named :
    (i : ℕ) (agents : List AgentEntry) → entries_error i agents ≡ none → AllNamed agents
unfolding entries_error or_else
entries_error_named i [] h = tt
entries_error_named i (a ∷ as') h =
    ground (arith, entry_error_named i a, entries_error_named (suc i) as')

validate_agents_named :
    (dc : DaemonConfig) → validate_agents dc.agents dc.daemon.max_agents ≡ none → AllNamed dc.agents
unfolding validate_agents
validate_agents_named dc h = ground (arith, entries_error_named 0 dc.agents)

pub record IsAccepted (dc : DaemonConfig) : Type 0 where
  pub named : AllNamed dc.agents
  pub distinct : Distinct dc.agents
  pub roles_known : RolesKnown dc.roles dc.agents
  pub sane_policy : IsSanePolicy dc.daemon.restart_policy

validated-IsAccepted :
    (available : List String) (exists : String → Bool) (dc : DaemonConfig)
    → validate_agents dc.agents dc.daemon.max_agents ≡ none
    → has_errors (validate_project_config available exists dc) ≡ false
    → IsAccepted dc
unfolding validate_project_config validate_agent_entries
validated-IsAccepted available exists dc agents_ok h =
    let (b, h1) = has_errors_no _ _ h in
    let (a, h2) = has_errors_no _ _ h1 in
    let (r, p) = has_errors_no _ _ h2 in
    let named_agents = validate_agents_named dc agents_ok in
    record {
      named = named_agents;
      distinct = (agent_issues_from-Distinct available dc.roles 0 [] dc.agents named_agents a).1;
      roles_known = agent_issues_from_roles available dc.roles 0 [] dc.agents a;
      sane_policy = (validate_restart_policy_iff dc.daemon.restart_policy).0 p;
    }

-- Whatever the two files hold, a configuration that is returned is the merge of them, and in it
-- every agent has a worktree name, the names differ, each role that is given is built in or
-- defined, and the restart policy is sane.
pub load_daemon_config-IsAccepted :
    (available : List String) (exists : String → Bool) (g : Loaded LoomConfig)
    (p : Loaded ProjectFile) (dc : DaemonConfig)
    → load_daemon_config available exists g p ≡ config dc
    → (g' : Option LoomConfig) × (p' : Option ProjectFile) × (g ≡ found g')
      × (p ≡ found p')
      × (dc ≡ merged g' p')
      × IsAccepted dc
unfolding load_daemon_config
load_daemon_config-IsAccepted available exists (failed e) p dc h = cc
load_daemon_config-IsAccepted available exists (found g) (failed e) dc h = cc
load_daemon_config-IsAccepted available exists (found g) (found p) dc h =
    let (a, v, e) = checked (merged g p) dc h in
    (
      g,
      p,
      refl,
      refl,
      e,
      subst IsAccepted (sym e) (validated-IsAccepted available exists (merged g p) a v),
    )
  where
    checked :
        (m d : DaemonConfig)
        → check_agents available exists m (validate_agents m.agents m.daemon.max_agents) ≡ config d
        → (validate_agents m.agents m.daemon.max_agents ≡ none)
          × (has_errors (validate_project_config available exists m) ≡ false)
          × (d ≡ m)
    checked m d e = ground arith
