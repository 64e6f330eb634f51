-- ===== src/Smtp/Connection/Panics.antt =====
-- An argument of `MAIL FROM` that ends the task of a connection of src/smtp.rs by a panic.
use smtp_sink.Prelude.{
  ℕ, suc, ◌≡◌, ◌∙◌, refl, ap, false, List, [], ◌∷◌, ◌++◌, Option, none, some, All,
}
use smtp_sink.Text.{Text, Bytes, codes, is_empty, trim}
use smtp_sink.Text.Slice.{slice_from}
use smtp_sink.Text.Case.{is_ascii, map_chars, ascii_upper, to_uppercase}
use smtp_sink.Utf8.{as_bytes}
use smtp_sink.Utf8.RoundTrip.{IsScalar}
use smtp_sink.Store.{EmailStorage}
use smtp_sink.Exec.{err, panic}
use smtp_sink.Smtp.Session.{SmtpConfig, idle}
use smtp_sink.Smtp.Message.{External}
use smtp_sink.Smtp.Conn.{Conn}
use smtp_sink.Smtp.Address.{extract_address}
use smtp_sink.Smtp.Address.Brackets.{Free, extract_address_panics}
use smtp_sink.Smtp.Command.{needs_auth, mail, verb_of, run_command}
use smtp_sink.Smtp.Command.Lines.{verb_of-mail, process_command_text}
use smtp_sink.Smtp.Command.Transaction.{run_mail_panics}
use smtp_sink.Smtp.Connection.{plain_loop, plain_next}

behind_mail : (argument : Text) → slice_from (codes "MAIL FROM:" ++ argument) 10 ≡ some argument
unfolding slice_from
behind_mail [] = refl
behind_mail (c ∷ cs) = refl

mail_verb :
    (ext : External) (argument : Text)
    → verb_of (to_uppercase ext.tables (codes "MAIL FROM:" ++ argument)) ≡ mail
unfolding is_ascii map_chars ascii_upper
mail_verb ext argument = verb_of-mail ext.tables (codes "MAIL FROM:") argument refl refl

module _ {S : Type 0} (storage : EmailStorage S) (ext : External) (config : SmtpConfig) where
  run_command_panics :
      (c : Conn S) (t argument : Text)
      → t ≡ codes "MAIL FROM:" ++ argument
      → needs_auth c.session ≡ false
      → extract_address argument ≡ none
      → run_command storage ext config (verb_of (to_uppercase ext.tables t)) t c ≡ (err panic, c)
  unfolding run_command
  run_command_panics c t argument e free x =
      rw (e, mail_verb ext argument)
        (run_mail_panics storage ext config c (codes "MAIL FROM:" ++ argument) argument free
          (behind_mail argument) x)

  -- In a session with no login missing and no authentication under way: a line `MAIL FROM:` whose argument
  -- has a `>` ahead of its first `<` ends the loop of the connection by a panic, with no reply; the
  -- store, the queue and the session are left as they are.
  pub plain_loop_panics :
      (fuel tls_fuel : ℕ) (tls : Option Bytes) (c : Conn S) (line argument pre mid post : Text)
      (ls : List Bytes)
      → All IsScalar line
      → is_empty line ≡ false
      → c.session.auth_state ≡ idle
      → needs_auth c.session ≡ false
      → c.input ≡ as_bytes line ∷ ls
      → trim line ≡ codes "MAIL FROM:" ++ argument
      → trim argument ≡ pre ++ b'>' ∷ (mid ++ b'<' ∷ post)
      → Free b'>' pre
      → Free b'<' pre
      → Free b'<' mid
      → plain_loop storage ext config tls_fuel tls (suc fuel) c
        ≡ some (err panic, record c { input = ls })
  unfolding plain_loop plain_next
  plain_loop_panics fuel tls_fuel tls c line argument pre mid post ls scalars full state free input
        text shape gt lt inside =
      ap
        (plain_next storage ext config tls_fuel tls
          (plain_loop storage ext config tls_fuel tls fuel))
        (process_command_text storage ext config c line ls scalars full state input
          ∙ run_command_panics (record c { input = ls }) (trim line) argument text free
              (extract_address_panics argument pre mid post shape gt lt inside))
