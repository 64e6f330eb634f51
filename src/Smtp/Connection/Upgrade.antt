-- ===== src/Smtp/Connection/Upgrade.antt =====
-- STARTTLS: when it comes to an upgrade, and how the session goes on behind it.
use smtp_sink.Prelude.{ℕ, suc, ◌≡◌, refl, ap, true, [], ◌∷◌, ◌++◌, none, some}
use smtp_sink.Text.{Bytes}
use smtp_sink.Store.{EmailStorage}
use smtp_sink.Exec.{ok, ◌>>=◌}
use smtp_sink.Smtp.Session.{SmtpConfig, Session, reset}
use smtp_sink.Smtp.Message.{External}
use smtp_sink.Smtp.Conn.{Conn, split_lines}
use smtp_sink.Smtp.Conn.Reads.{write_all-room, flush-room}
use smtp_sink.Smtp.Connection.{greet, then_go, tls_loop, handle_tls_session, upgrade}

module _ {S : Type 0} where
  greet-room :
      (n : ℕ) (c : Conn S)
      → c.room ≡ suc (suc n)
      → greet c ≡ (
        ok tt,
        record c { room = n; output = c.output ++ "220 localhost ESMTP smtp-sink\r\n" ∷ [] },
      )
  unfolding greet ◌>>=◌
  greet-room n c e =
      rw (write_all-room c (suc n) e "220 localhost ESMTP smtp-sink\r\n") (flush-room _ n refl)

-- The session behind the handshake: no transaction is left, and the login stays as it was.
abbrev pub upgraded_session : Session → Session
upgraded_session s = record s { mail_from = none; rcpt_to = []; tls_active = true }

module _ {S : Type 0} (storage : EmailStorage S) (ext : External) (config : SmtpConfig) where
  -- Behind a handshake, where the greeting can be written, the server sends the greeting of a new
  -- connection once more, drops the transaction, keeps the login, and reads only what comes through
  -- TLS.
  pub upgrade_greets :
      (fuel n : ℕ) (sent : Bytes) (c : Conn S)
      → c.room ≡ suc (suc n)
      → upgrade storage ext config fuel (some sent) c
        ≡ tls_loop storage ext config fuel (record c {
          session = upgraded_session c.session;
          input = split_lines sent;
          room = n;
          output = c.output ++ "220 localhost ESMTP smtp-sink\r\n" ∷ [];
        })
  unfolding upgrade handle_tls_session reset
  upgrade_greets fuel n sent c e =
      ap (then_go (tls_loop storage ext config fuel)) (greet-room n _ e)
