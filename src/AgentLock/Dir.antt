-- ===== src/AgentLock/Dir.antt =====
-- Where the lock is and how it is shown: ResolveLockDir, resolveWorkspaceName and GetLockStatus of
-- internal/cli/lock.go. The map of workspaces is given in the order in which the loop meets it.
use Prim.Native.String.{◌++◌}
use loomcli.Common.{
  ℕ, ◌-◌, ◌≡◌, refl, ap, Bool, true, false, ◌||◌, Option, none, some, is_some, List, [], ◌∷◌,
  String, str_eq, strip, In, any, if◌then◌else◌, Bool-cases, inl, inr,
}
use loomcli.AgentLock.{LockInfo, Checked, no_lock, unreadable, locked}

pub record RepoConfig : Type 0 where
  pub name : String
  pub path : String
  pub default_branch : String
  pub remote : String

pub record WorkspaceConfig : Type 0 where
  pub path : String
  pub repos : List RepoConfig

-- What path/filepath does.
pub record FilePaths : Type 0 where
  pub clean : String → String
  pub is_abs : String → Bool
  pub join : String → String → String

module _ (p : FilePaths) where
  -- A path or one below it.
  abbrev inside : String → String → Bool
  inside path root = str_eq path root || is_some (strip (root ++ "/") path)

  abbrev repo_path : String → String → String
  repo_path ws_path path = p.clean (if p.is_abs path then path else p.join ws_path path)

  abbrev pub in_repo : String → String → RepoConfig → Bool
  in_repo path ws_path repo =
      if str_eq repo.path "" then false else inside path (repo_path ws_path repo.path)

  abbrev pub in_workspace : String → WorkspaceConfig → Bool
  in_workspace path ws =
      if str_eq ws.path ""
      then false
      else inside path (p.clean ws.path) || any (in_repo path (p.clean ws.path)) ws.repos

  -- The first workspace that the path is in.
  unfoldable pub workspace_of :
      String → List (String × WorkspaceConfig) → Option (String × WorkspaceConfig)
  workspace_of path [] = none
  workspace_of path (e ∷ m) =
      let rest = workspace_of path m in if in_workspace path e.1 then some e else rest

  abbrev root_or : String → Option (String × WorkspaceConfig) → String
  root_or path none = path
  root_or path (some e) = p.clean e.1.path

  abbrev name_or_none : Option (String × WorkspaceConfig) → String
  name_or_none none = ""
  name_or_none (some e) = e.0

  -- Without a configuration there are no workspaces.
  unfoldable pub resolve_lock_dir : String → List (String × WorkspaceConfig) → String
  resolve_lock_dir path m = root_or path (workspace_of (p.clean path) m)

  unfoldable pub resolve_workspace_name : String → List (String × WorkspaceConfig) → String
  resolve_workspace_name path m = name_or_none (workspace_of (p.clean path) m)

  -- If a path is in a workspace, and all the workspaces that it is in have one root, then its lock is there,
  -- in whichever order the loop meets the workspaces.
  resolve_lock_dir-root :
      (path name : String) (ws : WorkspaceConfig) (m : List (String × WorkspaceConfig))
      → In (name, ws) m
      → in_workspace (p.clean path) ws ≡ true
      → ((e : String × WorkspaceConfig)
          → In e m
          → in_workspace (p.clean path) e.1 ≡ true
          → p.clean e.1.path ≡ p.clean ws.path)
      → resolve_lock_dir path m ≡ p.clean ws.path
  unfolding resolve_lock_dir workspace_of
  resolve_lock_dir-root path name ws [] i h all = absurd i
  resolve_lock_dir-root path name ws (e ∷ m) i h all =
      elim (Bool-cases (in_workspace (p.clean path) e.1)) [
        | inl d ↦ rw d (all e (inl refl) d)
        | inr d ↦ rw d (elim i [
          | inl x ↦ absurd (cc (h, d, ap (λ y. in_workspace (p.clean path) y.1) x))
          | inr x ↦ resolve_lock_dir-root path name ws m x h (λ k y. all k (inr y))
        ])
      ]

-- The words of a status; `shown` writes a duration, `task_status` asks bd.
abbrev worked : String → String → String
worked command status =
    if str_eq status "closed"
    then "done"
    else if str_eq status "needs_review"
    then (if str_eq command "plan" then "review" else "working")
    else if str_eq command "plan"
    then "planning"
    else "working"

abbrev started : LockInfo → Option ℕ → ℕ
started i none = i.started_at
started i (some t) = t

abbrev described : (String → String) → String → LockInfo → String
described task_status duration i =
    if str_eq i.state "idle"
    then "idle (" ++ duration ++ ")"
    else if str_eq i.task_id ""
    then (if str_eq i.command "plan" then "planning: ... (" else "working: ... (")
      ++ duration
      ++ ")"
    else worked i.command (task_status i.task_id) ++ ": " ++ i.task_id ++ " (" ++ duration ++ ")"

abbrev pub get_lock_status : (ℕ → String) → (String → String) → ℕ → Checked → String
get_lock_status shown task_status now no_lock = ""
get_lock_status shown task_status now unreadable = ""
get_lock_status shown task_status now (locked i false) = ""
get_lock_status shown task_status now (locked i true) =
    described task_status (shown (now - started i i.task_started_at)) i
