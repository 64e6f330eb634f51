-- ===== src/Tests/Commands.antt =====
-- The theorems on the commands of a session, at concrete inputs.
use smtp_sink.Prelude.{◌≡◌, refl, arith, some, none, [], ◌∷◌, ◌++◌, inl, inr}
use smtp_sink.Text.{Text, Bytes, codes, trim}
use smtp_sink.Text.Case.{to_uppercase}
use smtp_sink.Utf8.{as_bytes}
use smtp_sink.Exec.{ok, err, panic}
use smtp_sink.Smtp.Conn.{split_lines}
use smtp_sink.Smtp.Address.{extract_address}
use smtp_sink.Smtp.Address.Brackets.{extract_address_bare, extract_address_panics}
use smtp_sink.Smtp.Data.{read_data}
use smtp_sink.Smtp.Data.Stuffing.{message}
use smtp_sink.Smtp.Data.Wire.{IsBody, lines_of, wire, read_data-wire, read_data_blank_dot}
use smtp_sink.Smtp.Command.{
  continue, mail, verb_of, run_mail, run_rcpt, run_data, run_command, process_command,
}
use smtp_sink.Smtp.Command.Lines.{process_command_text}
use smtp_sink.Smtp.Command.Transaction.{
  delivered, run_data_delivers, run_mail_accepts, run_rcpt_accepts,
}
use smtp_sink.Smtp.Connection.{plain_loop}
use smtp_sink.Smtp.Connection.Panics.{plain_loop_panics}
use smtp_sink.Tests.Setup.{tables, ext, open_config, storage, conn}

extract_address_bare_example : extract_address (codes "a@x") ≡ some (trim (codes "a@x"))
unfolding trim smtp_sink.Text.is_whitespace
extract_address_bare_example = extract_address_bare (codes "a@x") (omega arith)

extract_address_panics_example : extract_address (codes "a>b<c") ≡ none
unfolding trim smtp_sink.Text.is_whitespace
extract_address_panics_example =
    extract_address_panics (codes "a>b<c") (codes "a") (codes "b") (codes "c") refl (omega arith)
      (omega arith) (omega arith)

dots-IsBody : IsBody (codes "..")
unfolding trim smtp_sink.Text.starts_with
dots-IsBody = record {
  scalars = (inl (omega arith), (inl (omega arith), tt));
  no_feed = omega arith;
  no_dot = inr refl;
}

read_data-wire_example :
    read_data (conn (split_lines (wire (codes ".." ∷ []) ++ codes "QUIT\r\n")))
    ≡ (ok (message (lines_of (codes ".." ∷ []))), conn (split_lines (codes "QUIT\r\n")))
read_data-wire_example =
    read_data-wire (codes ".." ∷ []) (codes "QUIT\r\n")
      (conn (split_lines (wire (codes ".." ∷ []) ++ codes "QUIT\r\n"))) (dots-IsBody, tt) refl

read_data_blank_dot_example :
    read_data (conn (as_bytes (codes " " ++ (codes "." ++ codes "\r\n")) ∷ codes "QUIT\r\n" ∷ []))
    ≡ (ok (message []), conn (codes "QUIT\r\n" ∷ []))
unfolding trim smtp_sink.Text.is_whitespace
read_data_blank_dot_example =
    read_data_blank_dot [] (codes " ") (codes "\r\n") (codes "QUIT\r\n" ∷ [])
      (conn (as_bytes (codes " " ++ (codes "." ++ codes "\r\n")) ∷ codes "QUIT\r\n" ∷ [])) tt
      (refl, tt) (refl, (refl, tt))
      (inl (omega arith), (inl (omega arith), (inl (omega arith), (inl (omega arith), tt)))) refl

process_command_text_example :
    process_command storage ext open_config (conn (as_bytes (codes "NOOP") ∷ []))
    ≡ run_command storage ext open_config
        (verb_of (to_uppercase tables (trim (codes "NOOP"))))
        (trim (codes "NOOP"))
        (conn [])
process_command_text_example =
    process_command_text storage ext open_config (conn (as_bytes (codes "NOOP") ∷ []))
      (codes "NOOP") []
      (inl (omega arith), (inl (omega arith), (inl (omega arith), (inl (omega arith), tt)))) refl
      refl refl

run_mail_accepts_example : run_mail storage ext open_config (codes "MAIL FROM:<c@x>") (conn []) ≡ (
  ok continue,
  record (conn []) {
    session = record (conn []).session { mail_from = some (codes "c@x") };
    room = 7;
    output = "250 OK\r\n" ∷ [];
  },
)
unfolding smtp_sink.Text.Slice.slice_from extract_address smtp_sink.Text.Slice.find_char trim
    smtp_sink.Text.is_whitespace smtp_sink.Text.Slice.slice smtp_sink.Smtp.Command.sender_allowed
run_mail_accepts_example =
    run_mail_accepts storage ext open_config 7 (conn []) (codes "MAIL FROM:<c@x>") (codes "<c@x>")
      (codes "c@x") refl refl refl refl refl

plain_loop_panics_example :
    plain_loop storage ext open_config 0 none 1 (conn (codes "MAIL FROM:a>b<c\r\n" ∷ []))
    ≡ some (err panic, conn [])
unfolding trim smtp_sink.Text.is_whitespace as_bytes
plain_loop_panics_example =
    plain_loop_panics storage ext open_config 0 0 none (conn (codes "MAIL FROM:a>b<c\r\n" ∷ []))
      (codes "MAIL FROM:a>b<c\r\n") (codes "a>b<c") (codes "a") (codes "b") (codes "c") []
      (ground arith) refl refl refl refl refl refl (omega arith) (omega arith) (omega arith)

run_rcpt_accepts_example : run_rcpt storage ext open_config (codes "RCPT TO:<c@x>") (conn []) ≡ (
  ok continue,
  record (conn []) {
    session = record (conn []).session { rcpt_to = codes "b@x" ∷ codes "c@x" ∷ [] };
    room = 7;
    output = "250 OK\r\n" ∷ [];
  },
)
unfolding smtp_sink.Text.Slice.slice_from extract_address smtp_sink.Text.Slice.find_char trim
    smtp_sink.Text.is_whitespace smtp_sink.Text.Slice.slice
run_rcpt_accepts_example =
    run_rcpt_accepts storage ext open_config 7 (conn []) (codes "RCPT TO:<c@x>") (codes "<c@x>")
      (codes "c@x") refl refl refl refl refl

run_data_delivers_example :
    run_data storage ext open_config (conn (codes "hi\r\n" ∷ codes ".\r\n" ∷ [])) ≡ (
      ok continue,
      delivered storage ext open_config 5
          (codes "hi\r\n")
          []
          (conn (codes "hi\r\n" ∷ codes ".\r\n" ∷ [])),
    )
unfolding smtp_sink.Smtp.Data.read_lines smtp_sink.Utf8.from_utf8 smtp_sink.Text.text_eq trim
    smtp_sink.Text.is_whitespace as_bytes smtp_sink.Text.starts_with
run_data_delivers_example =
    run_data_delivers storage ext open_config 5 (conn (codes "hi\r\n" ∷ codes ".\r\n" ∷ [])) refl
      refl refl refl refl
