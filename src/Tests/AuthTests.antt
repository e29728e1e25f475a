-- ===== src/Tests/AuthTests.antt =====
-- A token made in the seventh second, and read again.
use agens_web.Prelude.{◌≡◌, refl, ◌+◌, String, none, some, pos, ltb, if◌then◌else◌, strip, ◌+ℤ◌}
use agens_web.Python.{Runtime, parse_int}
use agens_web.Engine.Pending.{raised, returned}
use agens_web.Web.Auth.{
  Crypto, SessionClaims, session_max_age_seconds, create_session_token, parse_session_token, rsplit,
}
use agens_web.Web.Auth.Tokens.{
  IsShown, IsSound, IsSigned, parse_session_token-create_session_token,
  parse_session_token-IsSigned,
}

instance abbrev clock : Runtime
clock = record { repr = λ v. "7"; decimal = λ c. none; lower = λ s. s; upper = λ s. s }

abbrev crypto : Crypto
crypto = record {
  hmac_sha256 = λ key text. "ab";
  b64encode = λ raw. raw;
  b64decode = λ text. some text;
}

seven-IsShown : IsShown crypto "" 7
unfolding parse_int strip
seven-IsShown = record { read_back = refl; undotted = refl }

crypto-IsSound : IsSound crypto ""
crypto-IsSound = record {
  decoded = λ raw. refl;
  hexadecimal = λ key text. refl;
  plain_digits = λ key text. refl;
}

abbrev lin : SessionClaims
lin = record { user_id = "lin.1"; issued_at = pos 7 }

token_text : create_session_token crypto "" "lin.1" "secret" 7 ≡ "lin.1.7.ab"
unfolding create_session_token
token_text = refl

parse_session_token-create_session_token_example :
    parse_session_token crypto "" (create_session_token crypto "" "lin.1" "secret" 7) "secret" 20
    ≡ returned (if ltb (7 + session_max_age_seconds) 20 then none else some lin)
parse_session_token-create_session_token_example =
    parse_session_token-create_session_token crypto "" "lin.1" "secret" 7 20 crypto-IsSound
      seven-IsShown

lin_read : parse_session_token crypto "" "lin.1.7.ab" "secret" 20 ≡ returned (some lin)
unfolding parse_session_token rsplit parse_int strip ◌+ℤ◌
lin_read = refl

-- A signature that is not in ASCII is not caught.
strange_raises : parse_session_token crypto "" "lin.1.7.符" "secret" 20 ≡ raised
unfolding parse_session_token rsplit
strange_raises = refl

parse_session_token-IsSigned_example :
    (raw : String) × (some "lin.1.7.ab" ≡ some raw) × IsSigned crypto "" raw "secret" lin 20
parse_session_token-IsSigned_example =
    parse_session_token-IsSigned crypto "" "lin.1.7.ab" "secret" 20 lin lin_read
