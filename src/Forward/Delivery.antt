-- ===== src/Forward/Delivery.antt =====
-- From `DATA` of src/smtp.rs through the queue of src/forward.rs to the next server.
use smtp_sink.Prelude.{
  ℕ, suc, ◌≡◌, refl, Bool, true, false, List, [], ◌∷◌, ◌++◌, is_some, Has, Has-append_left,
  Has-append_right, inl,
}
use smtp_sink.Text.{Bytes, is_empty}
use smtp_sink.Email.{MailRecord}
use smtp_sink.Exec.{ok}
use smtp_sink.Store.{EmailStorage}
use smtp_sink.Smtp.Session.{SmtpConfig}
use smtp_sink.Smtp.Message.{External, parse_email}
use smtp_sink.Smtp.Conn.{Conn}
use smtp_sink.Smtp.Data.{read_lines}
use smtp_sink.Smtp.Command.{needs_auth, run_data}
use smtp_sink.Smtp.Command.Transaction.{run_data_delivers}
use smtp_sink.Sink.{ForwardConfig}
use smtp_sink.Forward.{Parsers, Outgoing, prepared, Transport, forward_email, build_transport, run}
use smtp_sink.Forward.Queue.{run_iff}

module _ {S : Type 0} (storage : EmailStorage S) (ext : External) (config : SmtpConfig)
    {M D : Type 0} (parsers : Parsers M D) (send : Transport → Outgoing M D → Bool)
    (target : ForwardConfig) where
  -- Where there is a forwarder, a message that `DATA` takes in is sent on, if lettre can make it and the
  -- transport takes it, whatever was queued ahead of it and whatever comes later.
  pub run_data-run :
      (n : ℕ) (c : Conn S) {content : Bytes} {rest : List Bytes} {m : Outgoing M D}
      (later : List MailRecord)
      → config.forward_handle ≡ true
      → c.room ≡ suc (suc (suc (suc n)))
      → needs_auth c.session ≡ false
      → is_some c.session.mail_from ≡ true
      → is_empty c.session.rcpt_to ≡ false
      → read_lines [] c.input ≡ (ok content, rest)
      → forward_email parsers target (parse_email ext (ext.stamp c.accepted) content c.session)
        ≡ prepared m
      → send (build_transport target) m ≡ true
      → Has m (run parsers send target ((run_data storage ext config c).1.forwarded ++ later))
  run_data-run n c {content} {rest} {m} later handle room free sender recipient read made taken =
      let email = parse_email ext (ext.stamp c.accepted) content c.session in
      let queued : Has email (run_data storage ext config c).1.forwarded =
        rw (run_data_delivers storage ext config n c room free sender recipient read, handle)
          (Has-append_right email c.forwarded (email ∷ []) (inl refl)) in
      (run_iff parsers send target ((run_data storage ext config c).1.forwarded ++ later) m).1
        (email, Has-append_left email _ later queued, made, taken)
