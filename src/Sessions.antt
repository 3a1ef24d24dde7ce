-- ===== src/Sessions.antt =====
-- Web sessions: the signed tokens of internal/infrastructure/webserver/session.go, and the generation counter that
-- internal/appcore/app_web.go compares them with. JSON, base64url and HMAC are arguments; a text of theirs is a list of
-- bytes. Times and generations are integers that wrap around as int64 does; the clock is in nanoseconds.
pub mod Tokens
mod Tests
use agent_workspace.Prelude.{
  ℕ, zero, suc, ◌+◌, ◌*◌, ◌/◌, ◌==◌, Bool, true, false, not, ◌&&◌, ◌||◌, Option, none, some, List,
  [], ◌∷◌, ◌++◌, Text, is_empty, text_eq, if◌then◌else◌, Result, ok, err, has_char, before, after,
  ℤ, pos, negsuc, leb_ℤ, ltb, sub_ℕ,
}
use agent_workspace.AutoLock.{int64, minute, max_int64}

pub record SessionPayload : Type 0 where
  pub epoch : ℤ
  pub issued : ℤ
  pub expires : ℤ

-- encoding/json, encoding/base64 and crypto/hmac
pub record Codec : Type 0 where
  pub marshal : SessionPayload → Option Text
  pub unmarshal : Text → Option SessionPayload
  pub encode : Text → Text
  pub decode : Text → Option Text
  pub mac : Text → Text → Text

abbrev pub dot : ℕ
dot = b'.'

abbrev is_zero : ℤ → Bool
is_zero (pos n) = n == 0
is_zero (negsuc n) = false

abbrev pub eq_ℤ : ℤ → ℤ → Bool
eq_ℤ (pos a) (pos b) = a == b
eq_ℤ (negsuc a) (negsuc b) = a == b
eq_ℤ (pos a) (negsuc b) = false
eq_ℤ (negsuc a) (pos b) = false

-- `currentWebEpoch` is the state
unfoldable pub invalidate_web_sessions : ℤ → ℤ
invalidate_web_sessions (pos n) = if n == max_int64 then negsuc max_int64 else pos (n + 1)
invalidate_web_sessions (negsuc zero) = pos 0
invalidate_web_sessions (negsuc (suc n)) = negsuc n

abbrev pub second : ℕ
second = 1000000000

-- the second of a time that is given in nanoseconds
unfoldable pub unix : ℤ → ℤ
unix (pos n) = pos (n / second)
unix (negsuc n) = negsuc (n / second)

-- Time.Add
unfoldable pub add_duration : ℕ → ℤ → ℤ
add_duration now (pos d) = pos (now + d)
add_duration now (negsuc d) = sub_ℕ now (d + 1)

-- the payload of a session that is minted at a nanosecond, with the minutes that it lives: no limit where they
-- are not positive
unfoldable pub minted_payload : ℤ → ℕ → ℤ → SessionPayload
unfolding unix add_duration int64
minted_payload epoch now (pos ttl) = record {
  epoch = epoch;
  issued = unix (pos now);
  expires = if ltb 0 ttl then unix (add_duration now (int64 (ttl * minute))) else pos 0;
}
minted_payload epoch now (negsuc n) = record {
  epoch = epoch;
  issued = unix (pos now);
  expires = pos 0;
}

module _ (codec : Codec) where
  unfoldable pub signature : Text → Text → Text
  signature key body = codec.encode (codec.mac key body)

  unfoldable pub sign_session : Text → SessionPayload → Text
  unfolding signature
  sign_session key payload = elim (codec.marshal payload) [
    | none ↦ []
    | some raw ↦ codec.encode raw ++ dot ∷ signature key (codec.encode raw)
  ]

  unfoldable pub session_expired : SessionPayload → ℤ → Bool
  session_expired payload now = not (is_zero payload.expires) && not (leb_ℤ now payload.expires)

  -- the end of `VerifySession`, once the signature is right
  unfoldable pub read_payload : Text → ℤ → Option ℤ
  unfolding session_expired
  read_payload body now = elim (codec.decode body) [
    | none ↦ none
    | some raw ↦ elim (codec.unmarshal raw) [
      | none ↦ none
      | some payload ↦ if session_expired payload now then none else some payload.epoch
    ]
  ]

  -- the second argument is the token, the third the clock's second
  unfoldable pub verify_session : Text → Text → ℤ → Option ℤ
  unfolding has_char before after is_empty text_eq signature read_payload
  verify_session key token now =
      let body = before dot token in
      let sig = after dot token in
      if not (has_char dot token) || (is_empty body || is_empty sig)
      then none
      else if not (text_eq (signature key body) sig)
      then none
      else read_payload body now

  -- the key is what the settings answer
  unfoldable pub mint_web_session : ℤ → Result Text Text → ℕ → ℤ → Result Text Text
  unfolding sign_session minted_payload
  mint_web_session epoch signing_key now ttl = elim signing_key [
    | err e ↦ err e
    | ok key ↦ ok (sign_session key (minted_payload epoch now ttl))
  ]

  unfoldable pub valid_web_session : ℤ → Result Text Text → Text → ℤ → Bool
  unfolding verify_session
  valid_web_session epoch signing_key token now = elim signing_key [
    | err e ↦ false
    | ok key ↦ elim (verify_session key token now) [ none ↦ false | some found ↦ eq_ℤ found epoch ]
  ]
