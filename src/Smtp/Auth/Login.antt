-- ===== src/Smtp/Auth/Login.antt =====
-- `AUTH LOGIN`: the username, the password, and whom they log in.
use smtp_sink.Prelude.{
  ℕ, suc, ◌≡◌, ◌↔◌, ◌∙◌, refl, ap, Bool, true, false, All, some, if◌then◌else◌, ◌++◌, [], ◌∷◌,
  String,
}
use smtp_sink.Text.{Text}
use smtp_sink.Utf8.{as_bytes}
use smtp_sink.Utf8.RoundTrip.{IsScalar, from_utf8_lossy-as_bytes}
use smtp_sink.Exec.{Result, ok, err, Exec, and_then, ◌>>=◌, ◌>>◌, modify, bind-ok}
use smtp_sink.Smtp.Session.{SmtpConfig, Session, AuthState, idle, waiting_for_login_password}
use smtp_sink.Smtp.Message.{External}
use smtp_sink.Smtp.Conn.{Conn, put_out, write_all, flush}
use smtp_sink.Smtp.Conn.Reads.{write_all-room, flush-room}
use smtp_sink.Smtp.Auth.{
  credentials_match, set_authenticated, set_auth_state, read_login_username, read_login_password,
}
use smtp_sink.Smtp.Auth.Plain.{put_out-session, credentials_match_iff, logged_in}

module _ {S : Type 0} where
  -- The flag of the login.
  abbrev flag : Conn S → Bool
  flag c = c.session.authenticated

  state-flag :
      (a : AuthState) (r : Result (Unit {0}) × Conn S)
      → flag (and_then (λ _. set_auth_state a) r).1 ≡ flag r.1
  unfolding modify
  state-flag a (ok _, c) = refl
  state-flag a (err e, c) = refl

  close-flag :
      (r : Result (Unit {0}) × Conn S)
      → flag (and_then (λ _. flush >> set_auth_state idle) r).1 ≡ flag r.1
  unfolding ◌>>=◌ flush
  close-flag (ok _, c) =
      state-flag idle (put_out c.room [] c)
      ∙ ap (λ (s : Session). s.authenticated) (put_out-session c.room [] c)
  close-flag (err e, c) = refl

  write-flag : (payload : String) (c : Conn S) → flag (write_all payload c).1 ≡ flag c
  unfolding write_all
  write-flag payload c =
      ap (λ (s : Session). s.authenticated) (put_out-session c.room (payload ∷ []) c)

  -- The reply to a password.
  abbrev answer : Bool → Exec (Conn S) (Unit {0})
  answer b =
      if b
      then (do set_authenticated; write_all "235 Authentication successful\r\n")
      else write_all "535 Authentication failed\r\n"

  answer-flag :
      (b : Bool) (c : Conn S)
      → flag (answer b c).1
        ≡ (if b then record c.session { authenticated = true } else c.session).authenticated
  unfolding ◌>>=◌
  answer-flag true c =
      write-flag _ (record c { session = record c.session { authenticated = true } })
  answer-flag false c = write-flag _ c

  module _ (ext : External) (config : SmtpConfig) where
    password-flag :
        (user trimmed pass : Text) (c : Conn S)
        → ext.base64_decode trimmed ≡ some (as_bytes pass)
        → All IsScalar pass
        → flag (read_login_password ext config user trimmed c).1
          ≡ (if credentials_match config user pass
              then record c.session { authenticated = true }
              else c.session).authenticated
    unfolding read_login_password ◌>>=◌
    password-flag user trimmed pass c e h =
        rw (e, read_login_password, from_utf8_lossy-as_bytes pass h)
          (close-flag (answer (credentials_match config user pass) c)
            ∙ answer-flag (credentials_match config user pass) c)

    -- A password of AUTH LOGIN logs a peer in, that is not logged in yet, exactly when it and the
    -- username in front of it are the configured ones.
    pub read_login_password_iff :
        (user trimmed pass : Text) (c : Conn S)
        → c.session.authenticated ≡ false
        → ext.base64_decode trimmed ≡ some (as_bytes pass)
        → All IsScalar pass
        → ((read_login_password ext config user trimmed c).1.session.authenticated ≡ true)
          ↔ ((some user ≡ config.auth_username) × (some pass ≡ config.auth_password))
    read_login_password_iff user trimmed pass c fresh e h =
        rw (password-flag user trimmed pass c e h) (
          logged_in (credentials_match config user pass) c.session fresh
            (credentials_match_iff config user pass))

  -- A username of AUTH LOGIN is remembered for the password behind it, where the reply can be
  -- written.
  pub read_login_username_remembers :
      (ext : External) (n : ℕ) (trimmed user : Text) (c : Conn S)
      → c.room ≡ suc (suc n)
      → ext.base64_decode trimmed ≡ some (as_bytes user)
      → All IsScalar user
      → read_login_username ext trimmed c ≡ (
        ok tt,
        record c {
          session = record c.session { auth_state = waiting_for_login_password user };
          room = n;
          output = c.output ++ "334 UGFzc3dvcmQ6\r\n" ∷ [];
        },
      )
  unfolding read_login_username modify
  read_login_username_remembers ext n trimmed user c room e h =
      rw (e, read_login_username, from_utf8_lossy-as_bytes user h)
        (bind-ok (write_all "334 UGFzc3dvcmQ6\r\n") _ (write_all-room c (suc n) room _)
          ∙ bind-ok flush _ (flush-room _ n refl))
