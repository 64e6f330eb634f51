-- ===== src/Smtp/Command.antt =====
-- `process_command` of src/smtp.rs: one line, or one message, of a session. The chain of tests on the
-- upper-cased line is `verb_of`, and each of its branches a clause of `run_command`.
pub mod Steps
pub mod Verbs
pub mod Receive
pub mod Lines
pub mod Transaction
pub mod Same
pub mod Stores
use smtp_sink.Prelude.{
  ℕ, ◌+◌, Bool, true, false, not, ◌&&◌, ◌||◌, List, [], ◌∷◌, ◌++◌, Option, none, some, is_some, any,
  if◌then◌else◌,
}
use smtp_sink.Text.{Text, Bytes, codes, is_empty, text_eq, starts_with, trim, split_whitespace}
use smtp_sink.Text.Slice.{slice_from}
use smtp_sink.Text.Case.{to_uppercase, to_lowercase}
use smtp_sink.Email.{MailRecord}
use smtp_sink.Store.{EmailStorage}
use smtp_sink.Exec.{Exec, pure, gets, modify, or_panic, ◌>>=◌, ◌>>◌}
use smtp_sink.Smtp.Session.{
  SmtpConfig, AuthState, idle, waiting_for_plain, waiting_for_login_username,
  waiting_for_login_password, Session, reset,
}
use smtp_sink.Smtp.Address.{extract_address}
use smtp_sink.Smtp.Message.{External, parse_email}
use smtp_sink.Smtp.Conn.{Conn, write_all, flush, read_line}
use smtp_sink.Smtp.Data.{read_data}
use smtp_sink.Smtp.Auth.{
  verify_plain_auth, read_login_username, read_login_password, on_session, set_auth_state,
}

pub data CommandResult : Type 0 where
  continue quit start_tls : CommandResult

pub data Verb : Type 0 where
  ehlo starttls auth mail rcpt message rset noop bye unknown : Verb

unfoldable pub verb_of : Text → Verb
verb_of cmd =
    if starts_with cmd (codes "EHLO") || starts_with cmd (codes "HELO")
    then ehlo
    else if starts_with cmd (codes "STARTTLS")
    then starttls
    else if starts_with cmd (codes "AUTH ")
    then auth
    else if starts_with cmd (codes "MAIL FROM:")
    then mail
    else if starts_with cmd (codes "RCPT TO:")
    then rcpt
    else if text_eq cmd (codes "DATA")
    then message
    else if text_eq cmd (codes "RSET")
    then rset
    else if text_eq cmd (codes "NOOP")
    then noop
    else if text_eq cmd (codes "QUIT")
    then bye
    else unknown

-- `session.auth_required && !session.authenticated`
abbrev pub needs_auth : Session → Bool
needs_auth s = s.auth_required && not s.authenticated

-- `config.whitelist.is_empty() || config.whitelist.contains(&addr.to_lowercase())`
unfoldable pub sender_allowed : External → SmtpConfig → Text → Bool
sender_allowed ext config addr =
    is_empty config.whitelist
    || any (λ w. text_eq w (to_lowercase ext.tables addr)) config.whitelist

module _ {S : Type 0} (storage : EmailStorage S) (ext : External) (config : SmtpConfig) where
  -- `stream.flush().await?; Ok(CommandResult::Continue)`
  abbrev pub finish : Exec (Conn S) CommandResult
  finish = do flush; pure continue

  abbrev pub when : Bool → Exec (Conn S) (Unit {0}) → Exec (Conn S) (Unit {0})
  when b m = if b then m else pure tt

  unfoldable pub run_ehlo : Exec (Conn S) CommandResult
  run_ehlo = do
    write_all "250-localhost Hello\r\n"
    write_all "250-SIZE 10485760\r\n"
    write_all "250-8BITMIME\r\n"
    s ← gets (λ c. c.session)
    when (config.tls_acceptor && not s.tls_active) (write_all "250-STARTTLS\r\n")
    when (is_some config.auth_username) (write_all "250-AUTH PLAIN LOGIN\r\n")
    write_all "250 OK\r\n"
    finish

  unfoldable pub run_starttls : Exec (Conn S) CommandResult
  run_starttls = do
    s ← gets (λ c. c.session)
    if not config.tls_acceptor
        then (do write_all "454 TLS not available\r\n"; finish)
        else if s.tls_active
        then (do write_all "503 TLS already active\r\n"; finish)
        else (do write_all "220 Ready to start TLS\r\n"; flush; pure start_tls)

  -- The arguments behind `AUTH`.
  unfoldable pub run_mechanism : List Text → Exec (Conn S) (Unit {0})
  run_mechanism (_ ∷ mechanism ∷ rest) =
      if text_eq (to_uppercase ext.tables mechanism) (codes "PLAIN")
      then elim rest [
        | encoded ∷ _ ↦ verify_plain_auth ext config encoded
        | [] ↦ do write_all "334 \r\n"; set_auth_state waiting_for_plain
      ]
      else if text_eq (to_uppercase ext.tables mechanism) (codes "LOGIN")
      then (do write_all "334 VXNlcm5hbWU6\r\n"; set_auth_state waiting_for_login_username)
      else write_all "504 Unrecognized auth type\r\n"
  run_mechanism _ = write_all "501 Syntax error\r\n"

  unfoldable pub run_auth : Text → Exec (Conn S) CommandResult
  unfolding run_mechanism
  run_auth trimmed =
      if not (is_some config.auth_username)
      then (do write_all "503 AUTH not available\r\n"; finish)
      else (do run_mechanism (split_whitespace trimmed); finish)

  unfoldable pub accept_sender : Text → Exec (Conn S) (Unit {0})
  accept_sender addr =
      if not (sender_allowed ext config addr)
      then write_all "550 Sender not allowed\r\n"
      else (do on_session (λ s. record s { mail_from = some addr }); write_all "250 OK\r\n")

  unfoldable pub run_mail : Text → Exec (Conn S) CommandResult
  unfolding accept_sender
  run_mail trimmed = do
    s ← gets (λ c. c.session)
    if needs_auth s then (do write_all "530 Authentication required\r\n"; finish) else (do
      argument ← or_panic (slice_from trimmed 10)
      addr ← or_panic (extract_address argument)
      accept_sender addr
      finish)

  unfoldable pub run_rcpt : Text → Exec (Conn S) CommandResult
  run_rcpt trimmed = do
    s ← gets (λ c. c.session)
    if needs_auth s
        then (do write_all "530 Authentication required\r\n"; finish)
        else if not (is_some s.mail_from)
        then (do write_all "503 MAIL FROM required first\r\n"; finish)
        else (do
          argument ← or_panic (slice_from trimmed 8)
          addr ← or_panic (extract_address argument)
          on_session (λ t. record t { rcpt_to = t.rcpt_to ++ addr ∷ [] })
          write_all "250 OK\r\n"
          finish)

  -- `fwd.forward(record.clone())` if there is a handle, `store.push(record)`, `session.reset()`.
  abbrev pub keep_email : Bytes → Exec (Conn S) (Unit {0})
  keep_email content = modify λ c.
      let email = parse_email ext (ext.stamp c.accepted) content c.session in
      record c {
        forwarded = if config.forward_handle then c.forwarded ++ email ∷ [] else c.forwarded;
        store = storage.push c.store email;
        session = reset c.session;
        accepted = c.accepted + 1;
      }

  -- The branch of `DATA` that takes in a message.
  unfoldable pub receive_email : Exec (Conn S) CommandResult
  receive_email = do
    write_all "354 End data with <CR><LF>.<CR><LF>\r\n"
    flush
    content ← read_data
    keep_email content
    write_all "250 OK: queued\r\n"
    finish

  unfoldable pub run_data : Exec (Conn S) CommandResult
  run_data = do
    s ← gets (λ c. c.session)
    if needs_auth s
        then (do write_all "530 Authentication required\r\n"; finish)
        else if not (is_some s.mail_from)
        then (do write_all "503 MAIL FROM required first\r\n"; finish)
        else if is_empty s.rcpt_to
        then (do write_all "503 RCPT TO required first\r\n"; finish)
        else receive_email

  unfoldable pub run_command : Verb → Text → Exec (Conn S) CommandResult
  run_command ehlo trimmed = run_ehlo
  run_command starttls trimmed = run_starttls
  run_command auth trimmed = run_auth trimmed
  run_command mail trimmed = run_mail trimmed
  run_command rcpt trimmed = run_rcpt trimmed
  run_command message trimmed = run_data
  run_command rset trimmed = do on_session reset; write_all "250 OK\r\n"; finish
  run_command noop trimmed = do write_all "250 OK\r\n"; finish
  run_command bye trimmed = do write_all "221 Bye\r\n"; flush; pure quit
  run_command unknown trimmed = do write_all "500 Command not recognized\r\n"; finish

  -- The state of the authentication decides what the line is.
  unfoldable pub run_line : AuthState → Text → Exec (Conn S) CommandResult
  unfolding run_command
  run_line waiting_for_plain trimmed = do
    verify_plain_auth ext config trimmed
    set_auth_state idle
    pure continue
  run_line waiting_for_login_username trimmed = do read_login_username ext trimmed; pure continue
  run_line (waiting_for_login_password username) trimmed = do
    read_login_password ext config username trimmed
    pure continue
  run_line idle trimmed = run_command (verb_of (to_uppercase ext.tables trimmed)) trimmed

  unfoldable pub behind_line : Text → Exec (Conn S) CommandResult
  behind_line line = do
    state ← gets (λ c. c.session.auth_state)
    if is_empty line then pure quit else run_line state (trim line)

  unfoldable pub process_command : Exec (Conn S) CommandResult
  unfolding behind_line
  process_command = do line ← read_line; behind_line line
