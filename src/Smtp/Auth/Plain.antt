-- ===== src/Smtp/Auth/Plain.antt =====
-- `AUTH PLAIN`: which message logs a peer in.
use smtp_sink.Prelude.{
  ℕ, zero, suc, ◌≡◌, ◌≢◌, ◌↔◌, ◌∙◌, refl, ap, inl, inr, Bool, true, false, List, [], ◌∷◌, ◌++◌,
  some, All, arith, if◌then◌else◌, Bool-cases, String,
}
use smtp_sink.Text.{Text, Bytes, trim, opt_text_eq_iff}
use smtp_sink.Utf8.{as_bytes, encode_char}
use smtp_sink.Utf8.RoundTrip.{IsScalar, from_utf8_lossy-as_bytes}
use smtp_sink.Exec.{Result, ok, err, and_then, ◌>>=◌, ◌>>◌}
use smtp_sink.Smtp.Session.{SmtpConfig, Session}
use smtp_sink.Smtp.Message.{External}
use smtp_sink.Smtp.Conn.{Conn, put_out, write_all, flush}
use smtp_sink.Smtp.Auth.{split_zero, credentials_match, plain_parts_ok, plain_ok, verify_plain_auth}

-- No zero byte.
abbrev pub NoZero : Bytes → Type 0
NoZero = All (λ b. b ≢ 0)

NoZero-append : (s t : Bytes) → NoZero s → NoZero t → NoZero (s ++ t)
NoZero-append [] t hs ht = ht
NoZero-append (d ∷ s) t hs ht = (hs.0, NoZero-append s t hs.1 ht)

encode_char-NoZero : (c : ℕ) → c ≢ 0 → NoZero (encode_char c)
unfolding encode_char
encode_char-NoZero c h = ground arith

as_bytes-NoZero : (t : Text) → All (λ c. c ≢ 0) t → NoZero (as_bytes t)
unfolding as_bytes
as_bytes-NoZero [] h = tt
as_bytes-NoZero (c ∷ t) h =
    NoZero-append (encode_char c) (as_bytes t) (encode_char-NoZero c h.0) (as_bytes-NoZero t h.1)

split_zero_free : (a : Bytes) → NoZero a → split_zero a ≡ a ∷ []
unfolding split_zero
split_zero_free [] h = refl
split_zero_free (b ∷ a) h = ground (arith, split_zero_free a h.1, h.0)

split_zero-cons : (a rest : Bytes) → NoZero a → split_zero (a ++ 0 ∷ rest) ≡ a ∷ split_zero rest
unfolding split_zero
split_zero-cons [] rest h = refl
split_zero-cons (b ∷ a) rest h = ground (arith, split_zero-cons a rest h.1, h.0)

-- A name that a message can hold.
pub record IsName (t : Text) : Type 0 where
  pub scalars : All IsScalar t
  pub no_zero : All (λ c. c ≢ 0) t

-- The message of the mechanism: an identity to act as, which the server does not read, the username and
-- the password.
abbrev pub plain_message : Bytes → Text → Text → Bytes
plain_message authzid user pass = authzid ++ 0 ∷ (as_bytes user ++ 0 ∷ as_bytes pass)

split_zero-plain_message :
    (authzid : Bytes) (user pass : Text)
    → NoZero authzid
    → IsName user
    → IsName pass
    → split_zero (plain_message authzid user pass) ≡ authzid ∷ as_bytes user ∷ as_bytes pass ∷ []
split_zero-plain_message authzid user pass h hu hp =
    split_zero-cons authzid _ h
    ∙ ap (◌∷◌ authzid) (
        split_zero-cons (as_bytes user) _ (as_bytes-NoZero user hu.no_zero)
        ∙ ap (◌∷◌ (as_bytes user))
            (split_zero_free (as_bytes pass) (as_bytes-NoZero pass hp.no_zero)))

pub put_out-session :
    {S : Type 0} (n : ℕ) (out : List String) (c : Conn S) → (put_out n out c).1.session ≡ c.session
put_out-session zero out c = refl
put_out-session (suc n) out c = refl

flush-session :
    {S : Type 0} (r : Result (Unit {0}) × Conn S)
    → (and_then (λ _. flush) r).1.session ≡ r.1.session
unfolding flush
flush-session (ok _, c) = put_out-session c.room [] c
flush-session (err e, c) = refl

-- A reply leaves the session as it is, whether it can be written or not.
reply-session :
    {S : Type 0} (payload : String) (c : Conn S)
    → ((write_all payload >> flush) c).1.session ≡ c.session
unfolding ◌>>=◌ write_all
reply-session payload c =
    flush-session (write_all payload c) ∙ put_out-session c.room (payload ∷ []) c

pub credentials_match_iff :
    (config : SmtpConfig) (user pass : Text)
    → (credentials_match config user pass ≡ true)
      ↔ ((some user ≡ config.auth_username) × (some pass ≡ config.auth_password))
unfolding credentials_match
credentials_match_iff config user pass = ground (
  arith,
  opt_text_eq_iff (some user) config.auth_username,
  opt_text_eq_iff (some pass) config.auth_password,
)

-- The flag of the session is the test, where it was not set.
pub logged_in :
    {P : Type 0} (b : Bool) (s : Session)
    → s.authenticated ≡ false
    → ((b ≡ true) ↔ P)
    → ((if b then record s { authenticated = true } else s).authenticated ≡ true) ↔ P
logged_in true s fresh h = (λ _. h.0 refl, λ _. refl)
logged_in false s fresh h = (λ k. absurd (cc (k, fresh)), λ p. absurd (cc (h.1 p)))

module _ (ext : External) (config : SmtpConfig) where
  plain_ok-message :
      (encoded : Text) (authzid : Bytes) (user pass : Text)
      → ext.base64_decode (trim encoded) ≡ some (plain_message authzid user pass)
      → NoZero authzid
      → IsName user
      → IsName pass
      → plain_ok ext config encoded ≡ credentials_match config user pass
  unfolding plain_ok plain_parts_ok
  plain_ok-message encoded authzid user pass e h hu hp =
      rw
        (
          e,
          plain_ok,
          split_zero-plain_message authzid user pass h hu hp,
          from_utf8_lossy-as_bytes user hu.scalars,
          from_utf8_lossy-as_bytes pass hp.scalars,
        )
        refl

  verify_plain_auth-session :
      {S : Type 0} (encoded : Text) (c : Conn S)
      → (verify_plain_auth ext config encoded c).1.session ≡ (
          if plain_ok ext config encoded
          then record c.session { authenticated = true }
          else c.session)
  unfolding verify_plain_auth ◌>>=◌
  verify_plain_auth-session encoded c = elim (Bool-cases (plain_ok ext config encoded)) [
    | inl e ↦ rw e (
        reply-session "235 Authentication successful\r\n"
          (record c { session = record c.session { authenticated = true } }))
    | inr e ↦ rw e (reply-session "535 Authentication failed\r\n" c)
  ]

  -- A message of AUTH PLAIN, of parts without a zero, logs a peer in, that is not logged in yet,
  -- exactly when its username and password are the configured ones; what it says in front of the
  -- username does not matter.
  pub verify_plain_auth_iff :
      {S : Type 0} (encoded : Text) (authzid : Bytes) (user pass : Text) (c : Conn S)
      → c.session.authenticated ≡ false
      → ext.base64_decode (trim encoded) ≡ some (plain_message authzid user pass)
      → NoZero authzid
      → IsName user
      → IsName pass
      → ((verify_plain_auth ext config encoded c).1.session.authenticated ≡ true)
        ↔ ((some user ≡ config.auth_username) × (some pass ≡ config.auth_password))
  verify_plain_auth_iff encoded authzid user pass c fresh e h hu hp =
      rw (verify_plain_auth-session encoded c, plain_ok-message encoded authzid user pass e h hu hp)
        (logged_in (credentials_match config user pass) c.session fresh
          (credentials_match_iff config user pass))
