-- ===== src/Smtp/Connection.antt =====
-- `handle_connection`, `handle_tls_connection` and `handle_tls_session` of src/smtp.rs: the loops that
-- run the commands of one connection. They run on fuel, a number of commands; `none` means that it
-- ran out. The bytes that the peer sends are an argument, and for STARTTLS so are the outcome of the
-- handshake and the bytes that come through it.
pub mod Progress
pub mod Leaves
pub mod Login
pub mod Upgrade
pub mod Panics
use smtp_sink.Prelude.{
  ℕ, zero, suc, Bool, true, false, not, ◌&&◌, List, [], ◌∷◌, Option, none, some, is_some,
  if◌then◌else◌,
}
use smtp_sink.Text.{Bytes, is_empty}
use smtp_sink.Store.{EmailStorage}
use smtp_sink.Exec.{Result, ok, err, io_error, Exec, ◌>>=◌, ◌>>◌}
use smtp_sink.Smtp.Session.{SmtpConfig, Session, new, reset}
use smtp_sink.Smtp.Message.{External}
use smtp_sink.Smtp.Conn.{Conn, split_lines, write_all, flush}
use smtp_sink.Smtp.Command.{CommandResult, continue, quit, start_tls, process_command}

-- How a connection ended, and what it left.
abbrev pub Ending : Type 0 → Type 0
Ending S = Option (Result (Unit {0}) × Conn S)

module _ {S : Type 0} where
  unfoldable pub greet : Exec (Conn S) (Unit {0})
  greet = do write_all "220 localhost ESMTP smtp-sink\r\n"; flush

  -- `?` on an action in front of the rest of a connection.
  abbrev pub then_go : (Conn S → Ending S) → Result (Unit {0}) × Conn S → Ending S
  then_go rest (ok _, c) = rest c
  then_go rest (err e, c) = some (err e, c)

module _ {S : Type 0} (storage : EmailStorage S) (ext : External) (config : SmtpConfig) where
  -- The `match` of the loop over TLS, on the result of a command.
  unfoldable pub tls_next : (Conn S → Ending S) → Result CommandResult × Conn S → Ending S
  tls_next again (ok continue, c) = again c
  tls_next again (ok quit, c) = some (ok tt, c)
  tls_next again (ok start_tls, c) =
      then_go again ((write_all "503 TLS already active\r\n" >> flush) c)
  tls_next again (err e, c) = some (err e, c)

  unfoldable pub tls_loop : ℕ → Conn S → Ending S
  unfolding tls_next
  tls_loop zero c = none
  tls_loop (suc fuel) c = tls_next (tls_loop fuel) (process_command storage ext config c)

  -- `session.mail_from.is_none() && session.rcpt_to.is_empty()`
  abbrev pub is_fresh : Session → Bool
  is_fresh s = not (is_some s.mail_from) && is_empty s.rcpt_to

  unfoldable pub handle_tls_session : ℕ → Conn S → Ending S
  unfolding tls_loop
  handle_tls_session fuel c =
      if is_fresh c.session then then_go (tls_loop fuel) (greet c) else tls_loop fuel c

  -- The peer's bytes `sent` arrive through TLS from the start.
  unfoldable pub handle_tls_connection : ℕ → Bytes → Conn S → Ending S
  unfolding handle_tls_session
  handle_tls_connection fuel sent c =
      handle_tls_session fuel
        (record c { session = new config.auth_required true; input = split_lines sent })

  -- Behind a handshake: what was read ahead of it is dropped with the buffer of the plain stream,
  -- and the peer's lines are those that come through TLS.
  unfoldable pub upgrade : ℕ → Option Bytes → Conn S → Ending S
  unfolding handle_tls_session
  upgrade fuel none c = some (err io_error, c)
  upgrade fuel (some sent) c = handle_tls_session fuel (record c {
    session = reset (record c.session { tls_active = true });
    input = split_lines sent;
  })

  unfoldable pub plain_next :
      ℕ → Option Bytes → (Conn S → Ending S) → Result CommandResult × Conn S → Ending S
  unfolding upgrade
  plain_next fuel tls again (ok continue, c) = again c
  plain_next fuel tls again (ok quit, c) = some (ok tt, c)
  plain_next fuel tls again (ok start_tls, c) =
      if config.tls_acceptor then upgrade fuel tls c else again c
  plain_next fuel tls again (err e, c) = some (err e, c)

  unfoldable pub plain_loop : ℕ → Option Bytes → ℕ → Conn S → Ending S
  unfolding plain_next
  plain_loop tls_fuel tls zero c = none
  plain_loop tls_fuel tls (suc fuel) c =
      plain_next tls_fuel tls (plain_loop tls_fuel tls fuel) (process_command storage ext config c)

  -- The peer's bytes are `sent`; `tls` is what the handshake gives if STARTTLS comes to it.
  unfoldable pub handle_connection : ℕ → ℕ → Bytes → Option Bytes → Conn S → Ending S
  unfolding plain_loop
  handle_connection fuel tls_fuel sent tls c =
      then_go (plain_loop tls_fuel tls fuel)
        (greet (record c { session = new config.auth_required false; input = split_lines sent }))
