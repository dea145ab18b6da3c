-- ===== src/Config/Validate/Accepted.antt =====
-- What a configuration satisfies that passes validation.
use loomcli.Common.{
  ℕ, suc, ◌≡◌, ◌↔◌, subst, refl, Bool, true, false, ◌||◌, Option, none, some, List, [], ◌∷◌, ◌++◌,
  String, ℤ, pos, ◌≤ℤ◌, str_eq, any, lookup, insert, lookup-insert, is_some, arith,
}
use loomcli.Config.Types.{RestartPolicy, RoleConfig, AgentEntry}
use loomcli.Config.Validate.{
  Issue, is_error, has_errors, validate_restart_policy, agent_issues_from, see, duplicate_issues,
  character_issues, role_issues, built_in_role, negative_issue, below_initial_issue,
  backoff_initial_negative, backoff_max_negative, output_timeout_negative, max_retries_negative,
}

any-append {ℓ} :
    {A : Type ℓ} (p : A → Bool) (xs ys : List A) → any p (xs ++ ys) ≡ (any p xs || any p ys)
any-append p [] ys = refl
any-append p (x ∷ xs) ys = ground (arith, any-append p xs ys)

pub has_errors_no :
    (xs ys : List Issue)
    → has_errors (xs ++ ys) ≡ false
    → (has_errors xs ≡ false) × (has_errors ys ≡ false)
unfolding has_errors
has_errors_no xs ys h = ground (arith, any-append is_error xs ys)

has_errors-append : (xs ys : List Issue) → has_errors (xs ++ ys) ≡ (has_errors xs || has_errors ys)
unfolding has_errors
has_errors-append xs ys = any-append is_error xs ys

abbrev pub Nonneg? : Option ℤ → Type 0
Nonneg? none = Unit {0}
Nonneg? (some v) = pos 0 ≤ℤ v

abbrev pub Ordered? : Option ℤ → Option ℤ → Type 0
Ordered? (some v) (some w) = v ≤ℤ w
Ordered? _ _ = Unit {0}

-- The restart policies that validation lets through.
pub record IsSanePolicy (rp : RestartPolicy) : Type 0 where
  pub initial_nonneg : Nonneg? rp.backoff_initial
  pub max_nonneg : Nonneg? rp.backoff_max
  pub ordered : Ordered? rp.backoff_initial rp.backoff_max
  pub timeout_nonneg : Nonneg? rp.output_timeout
  pub retries_nonneg : Nonneg? rp.max_retries

negative_issue_iff :
    (issue : ℤ → Issue) (v : Option ℤ)
    → ((w : ℤ) → is_error (issue w) ≡ true)
    → (has_errors (negative_issue issue v) ≡ false) ↔ Nonneg? v
unfolding has_errors negative_issue
negative_issue_iff issue none e = (λ _. tt, λ _. refl)
negative_issue_iff issue (some v) e = ground (arith, e v)

below_initial_issue_iff :
    (v w : Option ℤ) → (has_errors (below_initial_issue v w) ≡ false) ↔ Ordered? v w
unfolding has_errors below_initial_issue
below_initial_issue_iff none w = (λ _. tt, λ _. refl)
below_initial_issue_iff (some v) none = (λ _. tt, λ _. refl)
below_initial_issue_iff (some v) (some w) = ground arith

or_false : {a b : Bool} → (a || b) ≡ false → (a ≡ false) × (b ≡ false)
or_false {a} {b} h = ground arith

-- The policy checks report no error exactly when the bounds that are given are not negative and
-- the initial backoff is at most the largest.
pub validate_restart_policy_iff :
    (rp : RestartPolicy) → (has_errors (validate_restart_policy rp) ≡ false) ↔ IsSanePolicy rp
unfolding validate_restart_policy
validate_restart_policy_iff rp =
    rw (has_errors-append _ _, has_errors-append _ _, has_errors-append _ _, has_errors-append _ _)
      (ground (
        arith,
        negative_issue_iff backoff_initial_negative rp.backoff_initial (λ _. refl),
        negative_issue_iff backoff_max_negative rp.backoff_max (λ _. refl),
        below_initial_issue_iff rp.backoff_initial rp.backoff_max,
        negative_issue_iff output_timeout_negative rp.output_timeout (λ _. refl),
        negative_issue_iff max_retries_negative rp.max_retries (λ _. refl),
      ))

-- Every name used so far is at hand in `seenWorktrees`.
abbrev pub Fresh : List (String × ℕ) → List AgentEntry → Type 0
Fresh seen [] = Unit {0}
Fresh seen (a ∷ as') = (lookup a.worktree seen ≡ none) × Fresh seen as'

-- The worktree names differ from one another.
abbrev pub Distinct : List AgentEntry → Type 0
Distinct [] = Unit {0}
Distinct (a ∷ as') = (any (λ b. str_eq a.worktree b.worktree) as' ≡ false) × Distinct as'

abbrev pub AllNamed : List AgentEntry → Type 0
AllNamed [] = Unit {0}
AllNamed (a ∷ as') = (str_eq a.worktree "" ≡ false) × AllNamed as'

turn_fresh :
    (i : ℕ) (a : AgentEntry) (seen : List (String × ℕ))
    → str_eq a.worktree "" ≡ false
    → has_errors (duplicate_issues i a seen) ≡ false
    → (lookup a.worktree seen ≡ none) × (see i a seen ≡ insert a.worktree i seen)
unfolding duplicate_issues see has_errors
turn_fresh i a seen named h = ground arith

Fresh-insert :
    (w : String) (i : ℕ) (seen : List (String × ℕ)) (as' : List AgentEntry)
    → Fresh (insert w i seen) as'
    → Fresh seen as' × (any (λ b. str_eq w b.worktree) as' ≡ false)
Fresh-insert w i seen [] h = (tt, refl)
Fresh-insert w i seen (a ∷ as') (h, hs) =
    let ih = Fresh-insert w i seen as' hs in
    let e = lookup-insert w a.worktree i seen in ((ground arith, ih.0), ground arith)

record Turn (available : List String) (roles : List (String × RoleConfig)) (i : ℕ) (a : AgentEntry)
    (seen : List (String × ℕ)) (as' : List AgentEntry) : Type 0 where
  chars : has_errors (character_issues i a) ≡ false
  unique : has_errors (duplicate_issues i a seen) ≡ false
  role : has_errors (role_issues i a roles) ≡ false
  rest : has_errors (agent_issues_from available roles (suc i) (see i a seen) as') ≡ false

turn :
    (available : List String) (roles : List (String × RoleConfig)) (i : ℕ) (a : AgentEntry)
    (seen : List (String × ℕ)) (as' : List AgentEntry)
    → has_errors (agent_issues_from available roles i seen (a ∷ as')) ≡ false
    → Turn available roles i a seen as'
unfolding agent_issues_from
turn available roles i a seen as' h =
    let (c, h1) = has_errors_no _ _ h in
    let (u, h2) = has_errors_no _ _ h1 in
    let (r, h3) = has_errors_no _ _ h2 in
    let (b, h4) = has_errors_no _ _ h3 in record { chars = c; unique = u; role = r; rest = h4 }

pub agent_issues_from-Distinct :
    (available : List String) (roles : List (String × RoleConfig)) (i : ℕ)
    (seen : List (String × ℕ)) (agents : List AgentEntry)
    → AllNamed agents
    → has_errors (agent_issues_from available roles i seen agents) ≡ false
    → Fresh seen agents × Distinct agents
agent_issues_from-Distinct available roles i seen [] named h = (tt, tt)
agent_issues_from-Distinct available roles i seen (a ∷ as') named h =
    let t = turn available roles i a seen as' h in
    let (none_seen, seen') = turn_fresh i a seen named.0 t.unique in
    let ih = agent_issues_from-Distinct available roles (suc i) (see i a seen) as' named.1 t.rest in
    let f = Fresh-insert a.worktree i seen as' (subst (λ m. Fresh m as') seen' ih.0) in
    ((none_seen, f.0), (f.1, ih.1))

-- A role that an agent names is built in or defined.
abbrev pub RolesKnown : List (String × RoleConfig) → List AgentEntry → Type 0
RolesKnown roles [] = Unit {0}
RolesKnown roles (a ∷ as') =
    ((str_eq a.role "" || built_in_role a.role || is_some (lookup a.role roles)) ≡ true)
    × RolesKnown roles as'

role_issues_known :
    (i : ℕ) (a : AgentEntry) (roles : List (String × RoleConfig))
    → has_errors (role_issues i a roles) ≡ false
    → (str_eq a.role "" || built_in_role a.role || is_some (lookup a.role roles)) ≡ true
unfolding role_issues has_errors
role_issues_known i a roles h = ground arith

pub agent_issues_from_roles :
    (available : List String) (roles : List (String × RoleConfig)) (i : ℕ)
    (seen : List (String × ℕ)) (agents : List AgentEntry)
    → has_errors (agent_issues_from available roles i seen agents) ≡ false
    → RolesKnown roles agents
agent_issues_from_roles available roles i seen [] h = tt
agent_issues_from_roles available roles i seen (a ∷ as') h =
    let t = turn available roles i a seen as' h in
    (
      role_issues_known i a roles t.role,
      agent_issues_from_roles available roles (suc i) (see i a seen) as' t.rest,
    )
