-- ===== src/Web/Auth.antt =====
-- src/web/backend/auth.py: the signed token of a session. Password hashes are left to their library.
pub mod Tokens
use Prim.Native.Char.{code}
use agens_web.Prelude.{
  ℕ, ◌+◌, String, Bool, true, false, ◌&&◌, List, [], ◌∷◌, Option, none, some, if◌then◌else◌, ◌==◌,
  str_eq, is_blank, text_append, joined_text, ℤ, pos, ◌+ℤ◌, ltb, ltb_ℤ,
}
use agens_web.Python.{int, parse_int, Runtime}
use agens_web.Engine.Pending.{Answer, raised, returned}

-- What the standard library supplies: HMAC-SHA256 in hexadecimal, by key and text; base64 for URLs
-- of a text in UTF-8, and back, where `none` is a ValueError or a UnicodeDecodeError.
pub record Crypto : Type 0 where
  pub hmac_sha256 : String → String → String
  pub b64encode : String → String
  pub b64decode : String → Option String

pub record SessionClaims : Type 0 where
  pub user_id : String
  pub issued_at : ℤ

abbrev pub session_max_age_seconds : ℕ
session_max_age_seconds = 1_209_600

abbrev pub dev_session_secret : String
dev_session_secret = "dev-session-secret-change-me"

-- `secret or os.environ.get("SESSION_SECRET") or DEV_SESSION_SECRET`; a text that is not there is
-- the empty one.
abbrev pub session_secret : String → String → String
session_secret secret environment =
    if is_blank secret
    then (if is_blank environment then dev_session_secret else environment)
    else secret

abbrev pub is_ascii : String → Bool
is_ascii String.[] = true
is_ascii (String.◌∷◌ c s) = ltb (code c) 128 && is_ascii s

abbrev pub before_dot : ℕ → String → String → Option (String × String) → Option (String × String)
before_dot c text s none = if c == b'.' then some ("", s) else none
before_dot c text s (some (left, right)) = some (text_append text left, right)

-- `s.rsplit(".", 1)`, where there is a dot.
unfoldable pub rsplit : String → Option (String × String)
rsplit String.[] = none
rsplit (String.◌∷◌ c s) = before_dot (code c) (String.◌∷◌ c String.[]) s (rsplit s)

abbrev second_split : Option (String × String) → String → Option (String × String × String)
second_split none sig = none
second_split (some (user_id, issued_at)) sig = some (user_id, issued_at, sig)

abbrev first_split : Option (String × String) → Option (String × String × String)
first_split none = none
first_split (some (rest, sig)) = second_split (rsplit rest) sig

-- `user_id, issued_at_raw, sig = raw.rsplit(".", 2)`; fewer parts are a ValueError.
abbrev pub token_parts : String → Option (String × String × String)
token_parts raw = first_split (rsplit raw)

module _ ⦃py : Runtime⦄ (crypto : Crypto) (environment : String) where
  -- `_sign`
  abbrev pub sign : String → String → String
  sign payload secret = crypto.hmac_sha256 (session_secret secret environment) payload

  abbrev pub payload_of : String → String → String
  payload_of user_id issued_at = text_append user_id (text_append "." issued_at)

  unfoldable pub create_session_token : String → String → ℕ → String
  create_session_token user_id secret now =
      let payload = payload_of user_id (py.repr (int (pos now))) in
      crypto.b64encode (text_append payload (text_append "." (sign payload secret)))

  -- A token is too old once its time and its life are over.
  abbrev pub claims_at : String → Option ℤ → ℕ → Option SessionClaims
  claims_at user_id none now = none
  claims_at user_id (some issued_at) now =
      if ltb_ℤ (issued_at +ℤ pos session_max_age_seconds) (pos now)
      then none
      else some (record { user_id = user_id; issued_at = issued_at })

  -- `hmac.compare_digest` takes texts in ASCII alone: another signature is a TypeError, which the
  -- function does not catch.
  abbrev pub checked :
      String → Option (String × String × String) → ℕ → Answer (Option SessionClaims)
  checked secret none now = returned none
  checked secret (some (user_id, issued_at, sig)) now =
      if is_ascii sig
      then returned (
          if str_eq (sign (payload_of user_id issued_at) secret) sig
          then claims_at user_id (parse_int issued_at) now
          else none)
      else raised

  abbrev pub parsed : String → Option String → ℕ → Answer (Option SessionClaims)
  parsed secret none now = returned none
  parsed secret (some raw) now = checked secret (token_parts raw) now

  unfoldable pub parse_session_token : String → String → ℕ → Answer (Option SessionClaims)
  parse_session_token token secret now = parsed secret (crypto.b64decode token) now

  -- `hash_guest_token`
  abbrev pub hash_guest_token : String → String → String
  hash_guest_token token secret = sign (text_append "guest:" token) secret
