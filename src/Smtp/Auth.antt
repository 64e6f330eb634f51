-- ===== src/Smtp/Auth.antt =====
-- The authentication of src/smtp.rs: `verify_plain_auth`, and the lines that `process_command` reads
-- while an exchange is under way.
pub mod Plain
pub mod Login
use smtp_sink.Prelude.{ℕ, Bool, true, false, ◌&&◌, List, [], ◌∷◌, none, some, if◌then◌else◌, ◌==◌}
use smtp_sink.Text.{Text, Bytes, opt_text_eq, trim}
use smtp_sink.Utf8.{from_utf8_lossy}
use smtp_sink.Exec.{Exec, modify, ◌>>◌}
use smtp_sink.Smtp.Session.{SmtpConfig, AuthState, idle, waiting_for_login_password, Session}
use smtp_sink.Smtp.Message.{External}
use smtp_sink.Smtp.Conn.{Conn, write_all, flush}

abbrev pub first_with : ℕ → List Bytes → List Bytes
first_with b [] = (b ∷ []) ∷ []
first_with b (p ∷ ps) = (b ∷ p) ∷ ps

-- `decoded.split(|&b| b == 0).collect()`
unfoldable pub split_zero : Bytes → List Bytes
split_zero [] = [] ∷ []
split_zero (b ∷ bs) = let rest = split_zero bs in if b == 0 then [] ∷ rest else first_with b rest

-- `Some(username) == config.auth_username && Some(password) == config.auth_password`
unfoldable pub credentials_match : SmtpConfig → Text → Text → Bool
credentials_match config username password =
    opt_text_eq (some username) config.auth_username
    && opt_text_eq (some password) config.auth_password

-- The test of `verify_plain_auth`: three parts or more, and the second and third are right.
unfoldable pub plain_parts_ok : SmtpConfig → List Bytes → Bool
plain_parts_ok config (_ ∷ username ∷ password ∷ _) =
    credentials_match config (from_utf8_lossy username) (from_utf8_lossy password)
plain_parts_ok config _ = false

unfoldable pub plain_ok : External → SmtpConfig → Text → Bool
unfolding split_zero plain_parts_ok
plain_ok ext config encoded = elim (ext.base64_decode (trim encoded)) [
  | none ↦ false
  | some decoded ↦ plain_parts_ok config (split_zero decoded)
]

module _ {S : Type 0} where
  abbrev pub on_session : (Session → Session) → Exec (Conn S) (Unit {0})
  on_session f = modify (λ c. record c { session = f c.session })

  abbrev pub set_authenticated : Exec (Conn S) (Unit {0})
  set_authenticated = on_session (λ s. record s { authenticated = true })

  abbrev pub set_auth_state : AuthState → Exec (Conn S) (Unit {0})
  set_auth_state a = on_session (λ s. record s { auth_state = a })

  unfoldable pub verify_plain_auth : External → SmtpConfig → Text → Exec (Conn S) (Unit {0})
  verify_plain_auth ext config encoded =
      if plain_ok ext config encoded
      then (do set_authenticated; write_all "235 Authentication successful\r\n"; flush)
      else (do write_all "535 Authentication failed\r\n"; flush)

  -- The line behind `334 VXNlcm5hbWU6`.
  unfoldable pub read_login_username : External → Text → Exec (Conn S) (Unit {0})
  read_login_username ext trimmed = elim (ext.base64_decode trimmed) [
    | some decoded ↦ do
      write_all "334 UGFzc3dvcmQ6\r\n"
      flush
      set_auth_state (waiting_for_login_password (from_utf8_lossy decoded))
    | none ↦ do write_all "501 Cannot decode\r\n"; flush; set_auth_state idle
  ]

  -- The line behind `334 UGFzc3dvcmQ6`.
  unfoldable pub read_login_password :
      External → SmtpConfig → Text → Text → Exec (Conn S) (Unit {0})
  read_login_password ext config username trimmed = do
    elim (ext.base64_decode trimmed) [
      | some decoded ↦
          if credentials_match config username (from_utf8_lossy decoded)
          then (do set_authenticated; write_all "235 Authentication successful\r\n")
          else write_all "535 Authentication failed\r\n"
      | none ↦ write_all "501 Cannot decode\r\n"
    ]
    flush
    set_auth_state idle
