-- ===== src/Examples/Tokens.antt =====
-- A token of internal/webui/terminal_auth.go, used and used again.
use loomcli.Common.{cut, ◌≢◌, refl, none, [], ◌∷◌}
use loomcli.Terminal.{
  TerminalAuth, new_terminal_auth, generate_token, validate_token, check_payload,
}
use loomcli.Terminal.Texts.{texts}
use loomcli.Terminal.Token.{validate_token_once, validates, cleans, run}

abbrev auth : TerminalAuth
auth = new_terminal_auth "s"

validate_token_once_example :
    (validate_token texts
      (run texts
        (validate_token texts auth 3000 (generate_token texts auth 1000 "n" "main") "main").0
        3000
        ((300000, cleans) ∷ (5, validates "x.y" "main") ∷ []))
      303005
      (generate_token texts auth 1000 "n" "main")
      "main").1
    ≢ none
unfolding generate_token validate_token texts cut check_payload
validate_token_once_example =
    validate_token_once texts auth auth 1000 2000 "n" "main" "main" "main"
      ((300000, cleans) ∷ (5, validates "x.y" "main") ∷ []) refl refl
