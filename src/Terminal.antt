-- ===== src/Terminal.antt =====
-- internal/webui/terminal_auth.go: tokens for one use that open a terminal. Base64, JSON and HMAC are the
-- parameter `Codec`, and a nonce is given. Times are milliseconds.
pub mod Token
pub mod Texts
use Prim.Native.String.{◌++◌}
use loomcli.Common.{
  ℕ, ◌+◌, ◌/◌, ◌≡◌, Bool, true, false, not, Option, none, some, List, [], ◌∷◌, String, str_eq, ltb,
  lookup, insert, cut, Lacks, if◌then◌else◌, keep,
}

pub record TerminalTokenPayload : Type 0 where
  pub session : String
  pub exp : ℕ
  pub nonce : String

-- What encoding/base64, encoding/json and crypto/hmac do.
pub record Codec : Type 0 where
  pub encode : String → String
  pub decode : String → Option String
  pub write : TerminalTokenPayload → String
  pub read : String → Option TerminalTokenPayload
  pub mac : String → String → String
  pub decode-encode : (s : String) → decode (encode s) ≡ some s
  pub encode-Lacks : (s : String) → Lacks "." (encode s)
  pub read-write : (p : TerminalTokenPayload) → read (write p) ≡ some p

pub record TerminalAuth : Type 0 where
  pub secret : String
  pub used : List (String × ℕ)

pub data TokenError : Type 0 where
  malformed payload_encoding signature_encoding bad_signature bad_payload : TokenError
  expired session_mismatch already_used : TokenError

abbrev pub token_expiry : ℕ
token_expiry = 60000

abbrev pub nonce_max_age : ℕ
nonce_max_age = 120000

-- `Time.Unix`
abbrev pub unix : ℕ → ℕ
unix now = now / 1000

abbrev pub new_terminal_auth : String → TerminalAuth
new_terminal_auth secret = record { secret = secret; used = [] }

abbrev pub payload_of : ℕ → String → String → TerminalTokenPayload
payload_of now nonce session = record {
  session = session;
  exp = unix (now + token_expiry);
  nonce = nonce;
}

-- The last steps of ValidateToken.
abbrev pub use_nonce : TerminalAuth → ℕ → String → Option ℕ → TerminalAuth × Option TokenError
use_nonce ta now nonce (some at) = (ta, some already_used)
use_nonce ta now nonce none = (record ta { used = insert nonce now ta.used }, none)

unfoldable pub check_payload :
    TerminalAuth → ℕ → String → Option TerminalTokenPayload → TerminalAuth × Option TokenError
check_payload ta now session none = (ta, some bad_payload)
check_payload ta now session (some p) =
    if ltb p.exp (unix now)
    then (ta, some expired)
    else if not (str_eq p.session session)
    then (ta, some session_mismatch)
    else use_nonce ta now p.nonce (lookup p.nonce ta.used)

module _ (c : Codec) where
  open c use {encode, decode, write, read, mac}

  unfoldable pub generate_token : TerminalAuth → ℕ → String → String → String
  generate_token ta now nonce session =
      let bytes = write (payload_of now nonce session) in
      encode bytes ++ "." ++ encode (mac ta.secret bytes)

  -- The steps before them, from the last to the first.
  abbrev pub check_signature :
      TerminalAuth → ℕ → String → String → Option String → TerminalAuth × Option TokenError
  check_signature ta now session bytes none = (ta, some signature_encoding)
  check_signature ta now session bytes (some sig) =
      if str_eq sig (mac ta.secret bytes)
      then check_payload ta now session (read bytes)
      else (ta, some bad_signature)

  abbrev pub check_bytes :
      TerminalAuth → ℕ → String → String → Option String → TerminalAuth × Option TokenError
  check_bytes ta now session sig none = (ta, some payload_encoding)
  check_bytes ta now session sig (some bytes) = check_signature ta now session bytes (decode sig)

  abbrev pub check_parts :
      TerminalAuth → ℕ → String → String × Option String → TerminalAuth × Option TokenError
  check_parts ta now session (payload, none) = (ta, some malformed)
  check_parts ta now session (payload, some sig) = check_bytes ta now session sig (decode payload)

  -- The code reads the clock before it takes the mutex and again behind it; here one time stands for both.
  unfoldable pub validate_token :
      TerminalAuth → ℕ → String → String → TerminalAuth × Option TokenError
  validate_token ta now token session = check_parts ta now session (cut "." token)

unfoldable pub cleanup : TerminalAuth → ℕ → TerminalAuth
cleanup ta now = record ta { used = keep (λ e. not (ltb (e.1 + nonce_max_age) now)) ta.used }
