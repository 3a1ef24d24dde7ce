-- ===== src/Sessions/Tokens.antt =====
-- What a token proves, and how long it is valid.
use agent_workspace.Prelude.{
  ℕ, ◌+◌, ◌*◌, ◌≤◌, leb, ltb, sub_ℕ, ◌%◌, ◌^◌, Bool-cases, inl, inr, if_cases, ◌≡◌, refl, sym, ap,
  ◌∙◌, Bool, true, false, not, ◌&&◌, ◌||◌, Option, none, some, ◌∷◌, ◌++◌, Text, arith, is_empty,
  text_eq, eq_of_text_eq, text_eq_refl, if◌then◌else◌, ok, has_char, before, after, IsFree, ℤ, pos,
  negsuc, ok-injective, cut-join, join-cut,
}
use agent_workspace.Sessions.{
  Codec, SessionPayload, dot, signature, sign_session, session_expired, read_payload,
  verify_session, minted_payload, unix, add_duration, eq_ℤ, mint_web_session, valid_web_session,
}
use agent_workspace.AutoLock.{int64, minute, max_int64}

-- the numbers that an int64 holds
abbrev pub fits_int64 : ℤ → Bool
fits_int64 (pos n) = leb n max_int64
fits_int64 (negsuc n) = leb n max_int64

int64-fits : (n : ℕ) → fits_int64 (int64 n) ≡ true
unfolding int64
int64-fits n = elim (Bool-cases (leb (n % 2 ^ 64) max_int64)) [
  | inl low ↦ rw low low
  | inr high ↦ rw high (ground arith)
]

sub-fits : (a b : ℕ) → a ≤ max_int64 → b ≤ max_int64 → fits_int64 (unix (sub_ℕ a (b + 1))) ≡ true
unfolding unix
sub-fits a b small less = elim (Bool-cases (leb (b + 1) a)) [
  | inl less ↦ rw less (ground arith)
  | inr more ↦ rw more (ground arith)
]

unix-fits :
    (now : ℕ) (d : ℤ)
    → now ≤ max_int64
    → fits_int64 d ≡ true
    → fits_int64 (unix (add_duration now d)) ≡ true
unfolding unix add_duration
unix-fits now (pos d) small fits = ground arith
unix-fits now (negsuc d) small fits = sub-fits now d small (ground arith)

-- what is minted within the first 292 years of the clock fits int64
minted-fits :
    (minted : ℤ) (since : ℕ) (ttl : ℤ)
    → since ≤ max_int64
    → (fits_int64 (minted_payload minted since ttl).issued ≡ true)
      × (fits_int64 (minted_payload minted since ttl).expires ≡ true)
unfolding minted_payload
minted-fits minted since (pos n) small = (
  unfold unix in ground arith,
  if_cases (λ x. fits_int64 x ≡ true) (ltb 0 n) (λ given. dated) (λ none. refl),
)
  where
    dated : fits_int64 (unix (add_duration since (int64 (n * minute)))) ≡ true
    dated = unix-fits since (int64 (n * minute)) small (int64-fits (n * minute))
minted-fits minted since (negsuc n) small = (unfold unix in ground arith, refl)

-- What json.Marshal, base64.RawURLEncoding and HMAC promise: JSON decodes a payload of int64 numbers that it encoded, base64 all, base64url has no
-- dot and is empty only for nothing, and neither a JSON object nor a digest is empty.
pub record IsFaithful (codec : Codec) : Type 0 where
  pub marshal_ok :
      (p : SessionPayload)
      → fits_int64 p.epoch ≡ true
      → fits_int64 p.issued ≡ true
      → fits_int64 p.expires ≡ true
      → (raw : Text) × (codec.marshal p ≡ some raw)
        × (codec.unmarshal raw ≡ some p)
        × (is_empty raw ≡ false)
  pub decode_encode : (raw : Text) → codec.decode (codec.encode raw) ≡ some raw
  pub encode_free : (raw : Text) → IsFree dot (codec.encode raw)
  pub encode_full : (raw : Text) → is_empty raw ≡ false → is_empty (codec.encode raw) ≡ false
  pub mac_full : (key body : Text) → is_empty (codec.mac key body) ≡ false

minted_epoch : (minted : ℤ) (since : ℕ) (ttl : ℤ) → (minted_payload minted since ttl).epoch ≡ minted
unfolding minted_payload
minted_epoch minted since (pos ttl) = refl
minted_epoch minted since (negsuc n) = refl

module _ (codec : Codec) where
  verify_session_lem :
      (key token : Text) (now : ℤ)
      → verify_session codec key token now ≡ (
          if not (has_char dot token) || (is_empty (before dot token) || is_empty (after dot token))
          then none
          else if not (text_eq (signature codec key (before dot token)) (after dot token))
          then none
          else read_payload codec (before dot token) now)
  verify_session_lem key token now = unfold verify_session in refl

  accepted_cases :
      (key token : Text) (now epoch : ℤ)
      → verify_session codec key token now ≡ some epoch
      → (has_char dot token ≡ true)
        × (text_eq (signature codec key (before dot token)) (after dot token) ≡ true)
        × (read_payload codec (before dot token) now ≡ some epoch)
  accepted_cases key token now epoch accepted = ground (arith, verify_session_lem key token now)

  -- A token that verifies is a body, a dot and the body's signature under the key, and the answer is what that
  -- body says: nothing else is accepted, whatever the codec.
  pub verify_session-signed :
      (key token : Text) (now epoch : ℤ)
      → verify_session codec key token now ≡ some epoch
      → (body : Text) × (token ≡ body ++ dot ∷ signature codec key body)
        × (read_payload codec body now ≡ some epoch)
  verify_session-signed key token now epoch accepted =
      let passed = accepted_cases key token now epoch accepted in
      (
        before dot token,
        join-cut dot token passed.0
            ∙ ap (λ sig. before dot token ++ dot ∷ sig)
                (sym (
                  eq_of_text_eq (signature codec key (before dot token)) (after dot token)
                    passed.1)),
        passed.2,
      )

  -- a text of the right form is verified by its payload alone
  verify_signed :
      (key body : Text) (now : ℤ)
      → IsFree dot body
      → is_empty body ≡ false
      → is_empty (signature codec key body) ≡ false
      → verify_session codec key (body ++ dot ∷ signature codec key body) now
        ≡ read_payload codec body now
  verify_signed key body now free full signed =
      let cut = cut-join dot body (signature codec key body) free in
      verify_session_lem key (body ++ dot ∷ signature codec key body) now
      ∙ rw (cut.0, cut.1, cut.2, full, signed, text_eq_refl (signature codec key body))

  read_payload_lem :
      (body raw : Text) (payload : SessionPayload) (now : ℤ)
      → codec.decode body ≡ some raw
      → codec.unmarshal raw ≡ some payload
      → read_payload codec body now
        ≡ (if session_expired codec payload now then none else some payload.epoch)
  unfolding read_payload
  read_payload_lem body raw payload now decoded read = rw (read_payload, decoded, read)

  sign_session_lem :
      (key raw : Text) (payload : SessionPayload)
      → codec.marshal payload ≡ some raw
      → sign_session codec key payload
        ≡ codec.encode raw ++ dot ∷ signature codec key (codec.encode raw)
  unfolding sign_session
  sign_session_lem key raw payload marshalled = rw (sign_session, marshalled)

  module _ (faithful : IsFaithful codec) where
    sign_full : (key body : Text) → is_empty (signature codec key body) ≡ false
    unfolding signature
    sign_full key body = faithful.encode_full (codec.mac key body) (faithful.mac_full key body)

    -- A token of int64 numbers that was signed verifies under its key until it expires, and gives its generation back.
    pub verify_session-sign_session :
        (key : Text) (payload : SessionPayload) (now : ℤ)
        → fits_int64 payload.epoch ≡ true
        → fits_int64 payload.issued ≡ true
        → fits_int64 payload.expires ≡ true
        → verify_session codec key (sign_session codec key payload) now
          ≡ (if session_expired codec payload now then none else some payload.epoch)
    verify_session-sign_session key payload now epoch issued expires =
        let made = faithful.marshal_ok payload epoch issued expires in
        let body = codec.encode made.0 in
        ap (λ t. verify_session codec key t now) (sign_session_lem key made.0 payload made.1)
        ∙ verify_signed key body now (faithful.encode_free made.0)
            (faithful.encode_full made.0 made.3) (sign_full key body)
        ∙ read_payload_lem body made.0 payload now (faithful.decode_encode made.0) made.2

    -- A token minted in an int64 generation, at a time within the 292 years of int64 nanoseconds, is valid
    -- exactly while it has not expired and the generation is the one it was minted in, so that it is not
    -- after the generation has been bumped, and is again whenever the counter returns. Its expiry is the one
    -- the code computes, whose minutes wrap around as an int64 of nanoseconds.
    pub valid_web_session-mint :
        (key token : Text) (minted current : ℤ) (since : ℕ) (ttl now : ℤ)
        → fits_int64 minted ≡ true
        → since ≤ max_int64
        → mint_web_session codec minted (ok key) since ttl ≡ ok token
        → valid_web_session codec current (ok key) token now ≡ (
            not (session_expired codec (minted_payload minted since ttl) now)
            && eq_ℤ minted current)
    valid_web_session-mint key token minted current since ttl now fits small made =
        ap (λ t. valid_web_session codec current (ok key) t now)
          (sym (ok-injective (sym opened ∙ made)))
        ∙ answered
        ∙ ap found_is_current (
            verify_session-sign_session key payload now
              (ap fits_int64 (minted_epoch minted since ttl) ∙ fits)
              (minted-fits minted since ttl small).0 (minted-fits minted since ttl small).1)
        ∙ settled (session_expired codec payload now)
        ∙ ap (λ e. not (session_expired codec payload now) && eq_ℤ e current)
            (minted_epoch minted since ttl)
      where
        payload : SessionPayload
        payload = minted_payload minted since ttl

        found_is_current : Option ℤ → Bool
        found_is_current none = false
        found_is_current (some found) = eq_ℤ found current

        opened :
            mint_web_session codec minted (ok key) since ttl ≡ ok (sign_session codec key payload)
        opened = unfold mint_web_session in refl

        answered :
            valid_web_session codec current (ok key) (sign_session codec key payload) now
            ≡ found_is_current (verify_session codec key (sign_session codec key payload) now)
        answered = unfold valid_web_session in refl

        settled :
            (b : Bool)
            → found_is_current (if b then none else some payload.epoch)
              ≡ (not b && eq_ℤ payload.epoch current)
        settled true = refl
        settled false = refl
