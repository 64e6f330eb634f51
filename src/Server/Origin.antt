-- ===== src/Server/Origin.antt =====
-- Where the emails of the store come from: the commands of the connections of src/smtp.rs, among the turns
-- of all tasks.
use smtp_sink.Prelude.{◌≡◌, ◌⊎◌, List, ℕ}
use smtp_sink.Text.{Bytes}
use smtp_sink.Email.{MailRecord}
use smtp_sink.Store.{EmailStorage}
use smtp_sink.Smtp.Session.{SmtpConfig}
use smtp_sink.Smtp.Message.{External, parse_email}
use smtp_sink.Smtp.Conn.{Conn}
use smtp_sink.Smtp.Command.Steps.{Acceptable}
use smtp_sink.Sink.{Server}
use smtp_sink.Server.{
  World, run_one, Turn, accept, command, upgrade, close, request, Turns, here, next,
}

module _ {S : Type 0} (storage : EmailStorage S) (ext : External) (config : SmtpConfig) where
  -- The command that the connection `c` runs pushes the email, which it reads from a message; the session
  -- that `c` has then is logged in, if that is required, and has an allowed sender and a recipient.
  pub record Pushes (w : World S) (before : List (Conn S)) (c : Conn S) (after : List (Conn S))
      (e : MailRecord) : Type 0 where
    pub acceptable : Acceptable ext config c.session
    pub content : Bytes
    pub number : ℕ
    pub read : e ≡ parse_email ext (ext.stamp number) content c.session
    pub pushed : (run_one storage ext config w before c after).store ≡ storage.push w.store e

  -- The turn is a command that pushes the email.
  unfoldable pub PushedBy :
      {server : Server} {w v : World S} → Turn storage ext config server w v → MailRecord → Type 0
  PushedBy (command w before c after p) e = Pushes w before c after e
  PushedBy (accept w a) e = ⊥
  PushedBy (upgrade w before c after sent p) e = ⊥
  PushedBy (close w before c after p) e = ⊥
  PushedBy (request w r) e = ⊥

  -- One of the turns is such a command.
  unfoldable pub Received :
      {server : Server} {w v : World S} → Turns storage ext config server w v → MailRecord → Type 0
  unfolding PushedBy
  Received here e = ⊥
  Received (next ts t) e = PushedBy t e ⊎ Received ts e
