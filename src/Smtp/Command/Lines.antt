-- ===== src/Smtp/Command/Lines.antt =====
-- How `process_command` reads a line of the peer: its text without the blanks around it, and its verb
-- whatever the case of the letters.
use smtp_sink.Prelude.{◌≡◌, ap, true, false, List, ◌∷◌, ◌++◌, All}
use smtp_sink.Text.{Text, Bytes, codes, is_empty, trim, starts_with}
use smtp_sink.Text.Case.{
  CaseTables, to_uppercase, to_uppercase-ascii, is_ascii, map_chars, ascii_upper,
}
use smtp_sink.Utf8.{as_bytes}
use smtp_sink.Utf8.RoundTrip.{IsScalar, from_utf8-as_bytes}
use smtp_sink.Store.{EmailStorage}
use smtp_sink.Exec.{◌>>=◌}
use smtp_sink.Smtp.Session.{SmtpConfig, idle}
use smtp_sink.Smtp.Message.{External}
use smtp_sink.Smtp.Conn.{Conn}
use smtp_sink.Smtp.Conn.Reads.{read_line_text}
use smtp_sink.Smtp.Command.{
  mail, rcpt, verb_of, run_command, run_line, behind_line, process_command,
}

-- `MAIL FROM:` is recognised whatever the case of its letters and whatever stands behind it.
pub verb_of-mail :
    (u : CaseTables) (p t : Text)
    → is_ascii p ≡ true
    → map_chars ascii_upper p ≡ codes "MAIL FROM:"
    → verb_of (to_uppercase u (p ++ t)) ≡ mail
unfolding verb_of starts_with
verb_of-mail u p t ascii e = rw (to_uppercase-ascii u p t ascii, e)

-- `RCPT TO:` is recognised whatever the case of its letters and whatever stands behind it.
pub verb_of-rcpt :
    (u : CaseTables) (p t : Text)
    → is_ascii p ≡ true
    → map_chars ascii_upper p ≡ codes "RCPT TO:"
    → verb_of (to_uppercase u (p ++ t)) ≡ rcpt
unfolding verb_of starts_with
verb_of-rcpt u p t ascii e = rw (to_uppercase-ascii u p t ascii, e)

module _ {S : Type 0} (storage : EmailStorage S) (ext : External) (config : SmtpConfig) where
  -- A line of text, in a session with no authentication under way, is run as the command that its
  -- upper-cased text names, without the blanks around it.
  pub process_command_text :
      (c : Conn S) (line : Text) (ls : List Bytes)
      → All IsScalar line
      → is_empty line ≡ false
      → c.session.auth_state ≡ idle
      → c.input ≡ as_bytes line ∷ ls
      → process_command storage ext config c
        ≡ run_command storage ext config
            (verb_of (to_uppercase ext.tables (trim line)))
            (trim line)
            (record c { input = ls })
  unfolding process_command behind_line run_line ◌>>=◌
  process_command_text c line ls scalars ne state e =
      rw (read_line_text c (as_bytes line) ls e line (from_utf8-as_bytes line scalars)) (
        rw ne (ap (λ a. run_line storage ext config a (trim line) (record c { input = ls })) state))
