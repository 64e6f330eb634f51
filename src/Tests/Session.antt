-- ===== src/Tests/Session.antt =====
-- The theorems on whole connections, at concrete inputs.
use smtp_sink.Prelude.{◌≡◌, refl, arith, some, none, [], ◌∷◌, inl, true, false}
use smtp_sink.Text.{Bytes, codes}
use smtp_sink.Exec.{ok, Result}
use smtp_sink.Exec.Keeps.{Relates}
use smtp_sink.Smtp.Session.{idle, new}
use smtp_sink.Smtp.Conn
use smtp_sink.Smtp.Conn.{Conn, split_lines}
use smtp_sink.Smtp.Command.{process_command}
use smtp_sink.Smtp.Command.Steps.{SenderOk, Step}
use smtp_sink.Smtp.Command.Stores.{Stores, process_command-Stores}
use smtp_sink.Smtp.Command.Verbs.{process_command-Step}
use smtp_sink.Smtp.Connection.{handle_connection, handle_tls_connection, upgrade, tls_loop}
use smtp_sink.Smtp.Connection.Progress.{Ends, handle_connection-Ends, handle_tls_connection-Ends}
use smtp_sink.Smtp.Connection.Upgrade.{upgraded_session, upgrade_greets}
use smtp_sink.Smtp.Connection.Login.{
  Untouched, handle_connection_unauthenticated, handle_connection-NoLogin,
}
use smtp_sink.Store.Memory.{MemoryStore}
use smtp_sink.Tests.Setup.{ext, ready, open_config, closed_config, storage, conn}

abbrev mail_line : Bytes
mail_line = codes "MAIL FROM:<a>\r\n"

-- A peer that sends a sender without a login, and goes away.
abbrev refused : Conn MemoryStore
refused = record (conn []) {
  session = record {
    mail_from = none;
    rcpt_to = [];
    authenticated = false;
    auth_required = true;
    tls_active = false;
    auth_state = idle;
  };
  room = 5;
  output = "220 localhost ESMTP smtp-sink\r\n" ∷ "530 Authentication required\r\n" ∷ [];
}

refused-run :
    handle_connection storage ext closed_config 20 0 mail_line none (conn [])
    ≡ some (ok tt, refused)
unfolding handle_connection smtp_sink.Smtp.Connection.greet smtp_sink.Exec.◌>>=◌ Conn.write_all
    Conn.flush process_command Conn.read_line split_lines smtp_sink.Utf8.from_utf8
    smtp_sink.Smtp.Command.run_line new smtp_sink.Smtp.Command.verb_of smtp_sink.Text.starts_with
    smtp_sink.Text.Case.to_uppercase smtp_sink.Text.trim smtp_sink.Text.is_whitespace
    smtp_sink.Smtp.Command.run_mail
refused-run = refl

handle_connection_unauthenticated_example : Untouched (conn []) refused
handle_connection_unauthenticated_example =
    handle_connection_unauthenticated storage ext closed_config 20 0 mail_line none (conn []) refl
      refused-run refl

handle_connection-NoLogin_example : Untouched (conn []) refused
handle_connection-NoLogin_example =
    handle_connection-NoLogin storage ext closed_config 20 0 mail_line none (conn []) refl
      (inl refl) refused-run

-- A whole transaction.
handle_connection-Ends_example :
    Ends (handle_connection storage ext closed_config 20 1 mail_line none (conn []))
handle_connection-Ends_example =
    handle_connection-Ends storage ext closed_config 20 1 mail_line none (conn []) (omega arith)
      (omega arith)

handle_tls_connection-Ends_example :
    Ends (handle_tls_connection storage ext closed_config 20 mail_line (conn []))
handle_tls_connection-Ends_example =
    handle_tls_connection-Ends storage ext closed_config 20 mail_line (conn []) (omega arith)

process_command-Step_example :
    Relates (Step storage ext closed_config) (process_command storage ext closed_config)
process_command-Step_example = process_command-Step storage ext closed_config

upgrade_greets_example :
    upgrade storage ext open_config 20 (some mail_line) (conn [])
    ≡ tls_loop storage ext open_config 20 (record (conn []) {
      session = upgraded_session (conn []).session;
      input = split_lines mail_line;
      room = 7;
      output = "220 localhost ESMTP smtp-sink\r\n" ∷ [];
    })
upgrade_greets_example = upgrade_greets storage ext open_config 20 7 mail_line (conn []) refl

-- A session that may deliver, with its message to come.
abbrev ready_conn : Conn MemoryStore
ready_conn = conn (codes "DATA\r\n" ∷ codes "hi\r\n" ∷ codes ".\r\n" ∷ [])

allowed_sender : SenderOk ext open_config ready
unfolding smtp_sink.Smtp.Command.sender_allowed
allowed_sender a h = refl

process_command-Stores_example :
    Stores storage ext open_config ready_conn (process_command storage ext open_config ready_conn).1
process_command-Stores_example =
    process_command-Stores storage ext open_config ready_conn allowed_sender
