-- ===== src/Smtp/Conn.antt =====
-- A connection as a command finds it: the session, the lines that the peer still sends, what has
-- been written, the store and the queue of the forwarder (`BufStream`, and the reads and writes of
-- `process_command`, in src/smtp.rs). `room` is the number of calls of `write_all` and `flush` that
-- still succeed: the peer may go away at any point, and the next call then is an error.
pub mod Lines
pub mod Reads
use smtp_sink.Prelude.{
  ℕ, zero, suc, List, [], ◌∷◌, ◌++◌, Option, none, some, String, if◌then◌else◌, ◌==◌, Bool, true,
}
use smtp_sink.Text.{Text, Bytes}
use smtp_sink.Utf8.{from_utf8}
use smtp_sink.Email.{MailRecord}
use smtp_sink.Exec.{Result, ok, err, io_error, Exec}
use smtp_sink.Smtp.Session.{Session}

pub record Conn (S : Type 0) : Type 0 where
  pub session : Session
  pub input : List Bytes
  pub output : List String
  pub room : ℕ
  pub store : S
  pub forwarded : List MailRecord
  pub accepted : ℕ

-- The bytes up to each line feed, which the line keeps; the last line may lack one.
abbrev pub join_line : ℕ → List Bytes → List Bytes
join_line b [] = (b ∷ []) ∷ []
join_line b (l ∷ ls) = (b ∷ l) ∷ ls

unfoldable pub split_lines : Bytes → List Bytes
split_lines [] = []
split_lines (b ∷ bs) =
    let rest = split_lines bs in if b == b'\n' then (b ∷ []) ∷ rest else join_line b rest

module _ {S : Type 0} where
  abbrev pub put_out : ℕ → List String → Conn S → Result (Unit {0}) × Conn S
  put_out zero out c = (err io_error, c)
  put_out (suc n) out c = (ok tt, record c { room = n; output = c.output ++ out })

  -- `stream.write_all(…).await?`
  unfoldable pub write_all : String → Exec (Conn S) (Unit {0})
  write_all payload c = put_out c.room (payload ∷ []) c

  -- `stream.flush().await?`
  unfoldable pub flush : Exec (Conn S) (Unit {0})
  flush c = put_out c.room [] c

  abbrev pub read_from : List Bytes → Conn S → Result Text × Conn S
  read_from [] c = (ok [], c)
  read_from (l ∷ ls) c = elim (from_utf8 l) [
    | none ↦ (err io_error, record c { input = ls })
    | some line ↦ (ok line, record c { input = ls })
  ]

  -- `read_line(&mut line).await?`: no text at the end of the input, and an error at bytes that are
  -- not UTF-8. A failing read is such an error too.
  unfoldable pub read_line : Exec (Conn S) Text
  read_line c = read_from c.input c
