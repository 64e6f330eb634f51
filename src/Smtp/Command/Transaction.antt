-- ===== src/Smtp/Command/Transaction.antt =====
-- A mail transaction, command by command: `MAIL FROM`, `RCPT TO` and `DATA`.
use smtp_sink.Prelude.{
  ℕ, suc, ◌+◌, ◌≡◌, ◌∙◌, refl, ap, true, false, List, [], ◌∷◌, ◌++◌, none, some, if◌then◌else◌,
  String, is_some,
}
use smtp_sink.Text.{Text, Bytes, is_empty}
use smtp_sink.Text.Slice.{slice_from}
use smtp_sink.Store.{EmailStorage}
use smtp_sink.Exec.{Result, ok, err, panic, ◌>>=◌, ◌>>◌, pure, modify, bind-ok}
use smtp_sink.Smtp.Session.{SmtpConfig, reset}
use smtp_sink.Smtp.Address.{extract_address}
use smtp_sink.Smtp.Message.{External, parse_email}
use smtp_sink.Smtp.Conn.{Conn, write_all, flush}
use smtp_sink.Smtp.Conn.Reads.{write_all-room, flush-room}
use smtp_sink.Smtp.Data.{read_data, read_lines}
use smtp_sink.Smtp.Command.{
  continue, needs_auth, sender_allowed, finish, run_mail, run_rcpt, receive_email, run_data,
  keep_email,
}

module _ {S : Type 0} (storage : EmailStorage S) (ext : External) (config : SmtpConfig) where
  -- A reply and the flush behind it.
  reply-room :
      (n : ℕ) (c : Conn S) (payload : String)
      → c.room ≡ suc (suc n)
      → (write_all payload >> finish storage ext config) c
        ≡ (ok continue, record c { room = n; output = c.output ++ payload ∷ [] })
  unfolding pure
  reply-room n c payload e =
      bind-ok (write_all payload) _ (write_all-room c (suc n) e payload)
      ∙ bind-ok flush _ (flush-room _ n refl)

  -- Where no login is missing, the argument has an address, it is allowed and the reply can be
  -- written, `MAIL FROM` remembers the sender and answers 250.
  pub run_mail_accepts :
      (n : ℕ) (c : Conn S) (trimmed argument addr : Text)
      → c.room ≡ suc (suc n)
      → needs_auth c.session ≡ false
      → slice_from trimmed 10 ≡ some argument
      → extract_address argument ≡ some addr
      → sender_allowed ext config addr ≡ true
      → run_mail storage ext config trimmed c ≡ (
        ok continue,
        record c {
          session = record c.session { mail_from = some addr };
          room = n;
          output = c.output ++ "250 OK\r\n" ∷ [];
        },
      )
  unfolding run_mail ◌>>=◌
  run_mail_accepts n c trimmed argument addr e free s x a = rw free (
      rw s (
        rw x (
          rw a (
            reply-room n (record c { session = record c.session { mail_from = some addr } })
              "250 OK\r\n" e))))

  -- Where no login is missing, an argument of `MAIL FROM` whose slice panics gives a panic.
  pub run_mail_panics :
      (c : Conn S) (trimmed argument : Text)
      → needs_auth c.session ≡ false
      → slice_from trimmed 10 ≡ some argument
      → extract_address argument ≡ none
      → run_mail storage ext config trimmed c ≡ (err panic, c)
  unfolding run_mail ◌>>=◌
  run_mail_panics c trimmed argument free s x = rw free (rw s (rw x))

  -- Where no login is missing, there is a sender, the argument has an address and the reply can be
  -- written, `RCPT TO` adds the recipient and answers 250.
  pub run_rcpt_accepts :
      (n : ℕ) (c : Conn S) (trimmed argument addr : Text)
      → c.room ≡ suc (suc n)
      → needs_auth c.session ≡ false
      → is_some c.session.mail_from ≡ true
      → slice_from trimmed 8 ≡ some argument
      → extract_address argument ≡ some addr
      → run_rcpt storage ext config trimmed c ≡ (
        ok continue,
        record c {
          session = record c.session { rcpt_to = c.session.rcpt_to ++ addr ∷ [] };
          room = n;
          output = c.output ++ "250 OK\r\n" ∷ [];
        },
      )
  unfolding run_rcpt ◌>>=◌
  run_rcpt_accepts n c trimmed argument addr e free m s x = rw free (
      rw m (
        rw s (
          rw x (
            reply-room n
              (record c { session = record c.session { rcpt_to = c.session.rcpt_to ++ addr ∷ [] } })
              "250 OK\r\n" e))))

  read_data-ok :
      (c : Conn S) {content : Bytes} {rest : List Bytes}
      → read_lines [] c.input ≡ (ok content, rest)
      → read_data c ≡ (ok content, record c { input = rest })
  unfolding read_data
  read_data-ok c e = ap (λ (p : Result Bytes × List Bytes). (p.0, record c { input = p.1 })) e

  -- The connection behind a message that was taken in.
  abbrev pub delivered : ℕ → Bytes → List Bytes → Conn S → Conn S
  delivered n content rest c =
      let email = parse_email ext (ext.stamp c.accepted) content c.session in
      record c {
        session = record c.session { mail_from = none; rcpt_to = [] };
        input = rest;
        output =
            (c.output ++ "354 End data with <CR><LF>.<CR><LF>\r\n" ∷ [])
            ++ "250 OK: queued\r\n" ∷ [];
        room = n;
        store = storage.push c.store email;
        forwarded = if config.forward_handle then c.forwarded ++ email ∷ [] else c.forwarded;
        accepted = c.accepted + 1;
      }

  receive_email-room :
      (n : ℕ) (c : Conn S) {content : Bytes} {rest : List Bytes}
      → c.room ≡ suc (suc (suc (suc n)))
      → read_lines [] c.input ≡ (ok content, rest)
      → receive_email storage ext config c ≡ (ok continue, delivered n content rest c)
  unfolding receive_email modify reset
  receive_email-room n c e h =
      bind-ok (write_all _) _ (write_all-room c (suc (suc (suc n))) e _)
      ∙ bind-ok flush _ (flush-room _ (suc (suc n)) refl)
      ∙ bind-ok read_data _ (read_data-ok _ h)
      ∙ bind-ok (keep_email storage ext config _) _ refl
      ∙ reply-room n _ "250 OK: queued\r\n" refl

  -- `DATA` in a session that may send, with a sender and a recipient, where the replies can be
  -- written and the message can be read: one email is pushed into the store, and forwarded if there
  -- is a forwarder; the transaction is over, the peer is told that it is queued, and the lines
  -- behind the message are left.
  pub run_data_delivers :
      (n : ℕ) (c : Conn S) {content : Bytes} {rest : List Bytes}
      → c.room ≡ suc (suc (suc (suc n)))
      → needs_auth c.session ≡ false
      → is_some c.session.mail_from ≡ true
      → is_empty c.session.rcpt_to ≡ false
      → read_lines [] c.input ≡ (ok content, rest)
      → run_data storage ext config c ≡ (ok continue, delivered n content rest c)
  unfolding run_data ◌>>=◌
  run_data_delivers n c e free m r h = rw free (rw m (rw r (receive_email-room n c e h)))
