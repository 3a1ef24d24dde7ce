-- ===== src/Sessions/Tests.antt =====
-- A plain codec, for which the laws hold, and instances of the theorems there.
use agent_workspace.Prelude.{
  ℕ, zero, suc, true, ◌+◌, ◌-◌, ◌*◌, ◌^◌, ◌≡◌, refl, ap, ◌∙◌, arith, false, not, ◌&&◌, Option, none,
  some, [], ◌∷◌, ◌++◌, Text, codes, map, is_empty, ok, IsFree, has_char-cons, has_char-nil, ℤ, pos,
  negsuc,
}
use agent_workspace.Sessions.{
  Codec, SessionPayload, dot, signature, session_expired, read_payload, verify_session,
  minted_payload, second, invalidate_web_sessions, mint_web_session, valid_web_session,
}
use agent_workspace.Sessions.Tokens.{IsFaithful, verify_session-signed, valid_web_session-mint}

abbrev put_sign : ℤ → Text → Text
put_sign (pos n) rest = 0 ∷ n ∷ rest
put_sign (negsuc n) rest = 1 ∷ n ∷ rest

abbrev get_sign : ℕ → ℕ → ℤ
get_sign zero n = pos n
get_sign (suc k) n = negsuc n

abbrev write : SessionPayload → Option Text
write p = some (put_sign p.epoch (put_sign p.issued (put_sign p.expires [])))

abbrev read : Text → Option SessionPayload
read (s ∷ e ∷ a ∷ i ∷ b ∷ x ∷ []) =
    some (record { epoch = get_sign s e; issued = get_sign a i; expires = get_sign b x })
read _ = none

abbrev shift : Text → Text
shift = map (λ c. c + 47)

abbrev plain : Codec
plain = record {
  marshal = write;
  unmarshal = read;
  encode = shift;
  decode = λ t. some (map (λ c. c - 47) t);
  mac = λ key body. 1 ∷ key ++ body;
}

write-read :
    (p : SessionPayload)
    → (raw : Text) × (write p ≡ some raw) × (read raw ≡ some p) × (is_empty raw ≡ false)
unfolding is_empty
write-read p = (
  put_sign p.epoch (put_sign p.issued (put_sign p.expires [])),
  refl,
  read_back p.epoch p.issued p.expires,
  full p.epoch,
)
  where
    full : (e : ℤ) → is_empty (put_sign e (put_sign p.issued (put_sign p.expires []))) ≡ false
    full (pos n) = refl
    full (negsuc n) = refl

    read_back :
        (e i x : ℤ)
        → read (put_sign e (put_sign i (put_sign x [])))
          ≡ some (record { epoch = e; issued = i; expires = x })
    read_back (pos e) (pos i) (pos x) = refl
    read_back (pos e) (pos i) (negsuc x) = refl
    read_back (pos e) (negsuc i) (pos x) = refl
    read_back (pos e) (negsuc i) (negsuc x) = refl
    read_back (negsuc e) (pos i) (pos x) = refl
    read_back (negsuc e) (pos i) (negsuc x) = refl
    read_back (negsuc e) (negsuc i) (pos x) = refl
    read_back (negsuc e) (negsuc i) (negsuc x) = refl

unshift-shift : (t : Text) → map (λ c. c - 47) (shift t) ≡ t
unshift-shift [] = refl
unshift-shift (c ∷ t) =
    ap (λ x. x ∷ map (λ y. y - 47) (shift t)) back ∙ ap (λ r. c ∷ r) (unshift-shift t)
  where
    back : c + 47 - 47 ≡ c
    back = omega arith

shift-IsFree : (t : Text) → IsFree dot (shift t)
shift-IsFree [] = has_char-nil dot
shift-IsFree (c ∷ t) = ground (arith, shift-IsFree t, has_char-cons dot (c + 47) (shift t))

shift_full : (t : Text) → is_empty t ≡ false → is_empty (shift t) ≡ false
unfolding is_empty
shift_full [] h = h
shift_full (c ∷ t) h = refl

plain-IsFaithful : IsFaithful plain
plain-IsFaithful = record {
  marshal_ok = λ p epoch issued expires. write-read p;
  decode_encode = λ t. ap some (unshift-shift t);
  encode_free = shift-IsFree;
  encode_full = shift_full;
  mac_full = λ key body. unfold is_empty in refl;
}

abbrev key : Text
key = codes "k"

abbrev token : Text
token = 47 ∷ 50 ∷ 47 ∷ 57 ∷ 47 ∷ 117 ∷ 46 ∷ 48 ∷ 154 ∷ 94 ∷ 97 ∷ 94 ∷ 104 ∷ 94 ∷ 164 ∷ []

-- The generation wraps around, and so do minutes that are too many: the expiry then lies before 1970.
wraps :
    (invalidate_web_sessions (pos (2 ^ 63 - 1)) ≡ negsuc (2 ^ 63 - 1))
    × ((minted_payload (pos 3) (10 * second) (pos 160000000)).expires ≡ negsuc 8846744063)
unfolding invalidate_web_sessions minted_payload
wraps = (refl, refl)

-- A token of one minute is valid until its time, and only in its generation.
token_run :
    (mint_web_session plain (pos 3) (ok key) (10 * second) (pos 1) ≡ ok token)
    × (verify_session plain key token (pos 70) ≡ some (pos 3))
    × (verify_session plain key token (pos 71) ≡ none)
    × (valid_web_session plain (pos 4) (ok key) token (pos 70) ≡ false)
unfolding mint_web_session verify_session valid_web_session
token_run = (refl, refl, refl, refl)

verify_session-signed_example :
    (body : Text) × (token ≡ body ++ dot ∷ signature plain key body)
    × (read_payload plain body (pos 70) ≡ some (pos 3))
verify_session-signed_example = verify_session-signed plain key token (pos 70) (pos 3) token_run.1

valid_web_session-mint_example :
    valid_web_session plain (pos 3) (ok key) token (pos 15)
    ≡ (not (session_expired plain (minted_payload (pos 3) (10 * second) (pos 1)) (pos 15)) && true)
valid_web_session-mint_example =
    valid_web_session-mint plain plain-IsFaithful key token (pos 3) (pos 3) (10 * second) (pos 1)
      (pos 15) refl (omega arith) token_run.0
