-- ===== src/Web/Auth/Tokens.antt =====
-- A token that was created is read back until it is too old, and only a signed token is read.
use Prim.Native.Char.{code}
use agens_web.Prelude.{
  ℕ, ◌+◌, ◌≡◌, refl, sym, ap, ◌∙◌, String, Bool, true, false, ◌||◌, Option, none, some,
  if◌then◌else◌, ◌==◌, str_eq, text_append, ltb, ℤ, pos, ◌+ℤ◌, ltb_ℤ, inl, inr, Bool-cases, arith,
  eq_iff,
}
use mathlib.Core.Option.{some-injective}
use agens_web.Python.{int, parse_int, Runtime}
use agens_web.Engine.Pending.{Answer, raised, returned}
use agens_web.Web.Auth.{
  Crypto, SessionClaims, is_ascii, session_max_age_seconds, before_dot, rsplit, token_parts, sign,
  payload_of, create_session_token, claims_at, checked, parsed, parse_session_token,
}

abbrev pub has_dot : String → Bool
has_dot String.[] = false
has_dot (String.◌∷◌ c s) = code c == b'.' || has_dot s

rsplit-none : (s : String) → has_dot s ≡ false → rsplit s ≡ none
unfolding rsplit
rsplit-none String.[] h = refl
rsplit-none (String.◌∷◌ c s) h = elim (Bool-cases (code c == b'.')) [
  | inl dot ↦ absurd (ground arith)
  | inr other ↦ rw (rsplit-none s (ground arith), before_dot, other) refl
]

-- A text without a dot after the last dot is what `rsplit` cuts off.
rsplit-text_append :
    (a b : String) → has_dot b ≡ false → rsplit (text_append a (text_append "." b)) ≡ some (a, b)
unfolding rsplit
rsplit-text_append String.[] b h = rw (rsplit-none b h) refl
rsplit-text_append (String.◌∷◌ c a) b h = rw (rsplit-text_append a b h) refl

too_old : (made life now : ℕ) → ltb_ℤ (pos made +ℤ pos life) (pos now) ≡ ltb (made + life) now
unfolding ◌+ℤ◌
too_old made life now = ground arith

module _ ⦃py : Runtime⦄ (crypto : Crypto) (environment : String) where
  -- The decimal digits that `str` gives of a time: `int` reads them back, and no dot is among them.
  pub record IsShown (t : ℕ) : Type 0 where
    pub read_back : parse_int (py.repr (int (pos t))) ≡ some (pos t)
    pub undotted : has_dot (py.repr (int (pos t))) ≡ false

  -- Base64 is read back, and hexadecimal digits are in ASCII and have no dot among them.
  pub record IsSound : Type 0 where
    pub decoded : (raw : String) → crypto.b64decode (crypto.b64encode raw) ≡ some raw
    pub hexadecimal : (key text : String) → has_dot (crypto.hmac_sha256 key text) ≡ false
    pub plain_digits : (key text : String) → is_ascii (crypto.hmac_sha256 key text) ≡ true

  parts_of :
      (user_id issued_at sig : String)
      → has_dot issued_at ≡ false
      → has_dot sig ≡ false
      → token_parts
          (text_append (payload_of crypto environment user_id issued_at) (text_append "." sig))
        ≡ some (user_id, issued_at, sig)
  parts_of user_id issued_at sig hi hs =
      rw
        (
          rsplit-text_append (payload_of crypto environment user_id issued_at) sig hs,
          rsplit-text_append user_id issued_at hi,
        )
        refl

  checked_own :
      (user_id issued_at secret : String) (now : ℕ)
      → is_ascii (sign crypto environment (payload_of crypto environment user_id issued_at) secret)
        ≡ true
      → checked crypto environment secret
          (some (
            user_id,
            issued_at,
            sign crypto environment (payload_of crypto environment user_id issued_at) secret,
          ))
          now
        ≡ returned (claims_at crypto environment user_id (parse_int issued_at) now)
  checked_own user_id issued_at secret now plain =
      let sig = sign crypto environment (payload_of crypto environment user_id issued_at) secret in
      rw (plain) (ground (arith, eq_iff sig sig))

  -- A token is read back with the secret that signed it: it gives its user and the second when it
  -- was made, for fourteen days from then and never after, whatever dots the user's name has. Base64
  -- and the digits of a number are read back, and no digit is a dot.
  pub parse_session_token-create_session_token :
      (user_id secret : String) (made now : ℕ)
      → IsSound
      → IsShown made
      → parse_session_token crypto environment
          (create_session_token crypto environment user_id secret made)
          secret
          now
        ≡ returned (
            if ltb (made + session_max_age_seconds) now
            then none
            else some (record { user_id = user_id; issued_at = pos made }))
  unfolding parse_session_token create_session_token
  parse_session_token-create_session_token user_id secret made now sound shown =
      let issued_at = py.repr (int (pos made)) in
      let sig = sign crypto environment (payload_of crypto environment user_id issued_at) secret in
      rw
        (
          sound.decoded,
          parts_of user_id issued_at sig shown.undotted (sound.hexadecimal _ _),
          checked_own user_id issued_at secret now (sound.plain_digits _ _),
          shown.read_back,
          too_old made session_max_age_seconds now,
        )
        refl

  -- What a token must hold to be read: the user and the time, signed.
  abbrev pub IsSigned : String → String → SessionClaims → ℕ → Type 0
  IsSigned raw secret claims now =
      (issued_at : String) × (token_parts raw
        ≡ some (
          claims.user_id,
          issued_at,
          sign crypto environment (payload_of crypto environment claims.user_id issued_at) secret,
        ))
      × (parse_int issued_at ≡ some claims.issued_at)
      × (ltb_ℤ (claims.issued_at +ℤ pos session_max_age_seconds) (pos now) ≡ false)

  claims_at-inv :
      (user_id : String) (n : ℤ) (now : ℕ) (claims : SessionClaims)
      → claims_at crypto environment user_id (some n) now ≡ some claims
      → (claims.user_id ≡ user_id)
        × (claims.issued_at ≡ n)
        × (ltb_ℤ (n +ℤ pos session_max_age_seconds) (pos now) ≡ false)
  claims_at-inv user_id n now claims h =
      elim (Bool-cases (ltb_ℤ (n +ℤ pos session_max_age_seconds) (pos now))) [
        | inl old ↦ absurd (ground arith)
        | inr young ↦
            let e = some-injective _ _ (rw (young) at h) in
            (sym (ap (λ c. c.user_id) e), sym (ap (λ c. c.issued_at) e), young)
      ]

  claims-IsSigned :
      (raw secret user_id issued_at sig : String) (n : Option ℤ) (now : ℕ) (claims : SessionClaims)
      → token_parts raw ≡ some (user_id, issued_at, sig)
      → sign crypto environment (payload_of crypto environment user_id issued_at) secret ≡ sig
      → parse_int issued_at ≡ n
      → claims_at crypto environment user_id n now ≡ some claims
      → IsSigned raw secret claims now
  claims-IsSigned raw secret user_id issued_at sig none now claims hp hs hn h =
      absurd (ground arith)
  claims-IsSigned raw secret user_id issued_at sig (some n) now claims hp hs hn h =
      let (same_user, same_time, young) = claims_at-inv user_id n now claims h in
      (
        issued_at,
        hp
            ∙ ap (λ s. some (user_id, issued_at, s)) (sym hs)
            ∙ ap
                (λ u. some (
                  u,
                  issued_at,
                  sign crypto environment (payload_of crypto environment u issued_at) secret,
                ))
                (sym same_user),
        hn ∙ ap some (sym same_time),
        ap (λ n. ltb_ℤ (n +ℤ pos session_max_age_seconds) (pos now)) same_time ∙ young,
      )

  -- What an answer gives, where it is one.
  abbrev given : Answer (Option SessionClaims) → Option SessionClaims
  given raised = none
  given (returned claims) = claims

  checked-IsSigned :
      (raw secret : String) (parts : Option (String × String × String)) (now : ℕ)
      (claims : SessionClaims)
      → token_parts raw ≡ parts
      → checked crypto environment secret parts now ≡ returned (some claims)
      → IsSigned raw secret claims now
  checked-IsSigned raw secret none now claims hp h = absurd (ground (arith, ap given h))
  checked-IsSigned raw secret (some (user_id, issued_at, sig)) now claims hp h =
      let own = sign crypto environment (payload_of crypto environment user_id issued_at) secret in
      elim (Bool-cases (is_ascii sig)) [
        | inl plain ↦ elim (Bool-cases (str_eq own sig)) [
          | inl same ↦
              claims-IsSigned raw secret user_id issued_at sig _ now claims hp
                (ground (arith, eq_iff own sig)) refl (ap given (rw (plain, same) at h))
          | inr other ↦ absurd (ground (arith, ap given (rw (plain, other) at h)))
        ]
        | inr strange ↦ absurd (ground (arith, ap given (rw (strange) at h)))
      ]

  parsed-IsSigned :
      (secret : String) (o : Option String) (now : ℕ) (claims : SessionClaims)
      → parsed crypto environment secret o now ≡ returned (some claims)
      → (raw : String) × (o ≡ some raw) × IsSigned raw secret claims now
  parsed-IsSigned secret none now claims h = absurd (ground (arith, ap given h))
  parsed-IsSigned secret (some raw) now claims h =
      (raw, refl, checked-IsSigned raw secret (token_parts raw) now claims refl h)

  -- A token that is read is one that was signed with the secret, for the very user and time that it
  -- gives, and it is not too old.
  pub parse_session_token-IsSigned :
      (token secret : String) (now : ℕ) (claims : SessionClaims)
      → parse_session_token crypto environment token secret now ≡ returned (some claims)
      → (raw : String) × (crypto.b64decode token ≡ some raw) × IsSigned raw secret claims now
  unfolding parse_session_token
  parse_session_token-IsSigned token secret now claims h =
      parsed-IsSigned secret (crypto.b64decode token) now claims h
