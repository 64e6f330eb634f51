-- ===== src/Smtp/Data.antt =====
-- `read_data` of src/smtp.rs: the lines of a message, up to the final dot or the end of the input.
pub mod Stuffing
pub mod Wire
use smtp_sink.Prelude.{List, [], ◌∷◌, ◌++◌, Option, none, some, if◌then◌else◌}
use smtp_sink.Text.{Text, Bytes, codes, is_empty, trim, text_eq, starts_with}
use smtp_sink.Utf8.{from_utf8, as_bytes}
use smtp_sink.Exec.{Result, ok, err, io_error, Exec}
use smtp_sink.Smtp.Conn.{Conn}

-- `if line.starts_with("..") { &line[1..] } else { &line }`; the first character is one byte.
unfoldable pub unstuff : Text → Text
unstuff [] = []
unstuff (c ∷ cs) = if starts_with (c ∷ cs) (codes "..") then cs else c ∷ cs

-- The loop: what was read so far, and the lines to come. The second part is what it leaves unread.
unfoldable pub read_lines : Bytes → List Bytes → Result Bytes × List Bytes
unfolding unstuff
read_lines content [] = (ok content, [])
read_lines content (l ∷ ls) = elim (from_utf8 l) [
  | none ↦ (err io_error, ls)
  | some line ↦
      let more = read_lines (content ++ as_bytes (unstuff line)) ls in
      if is_empty line
      then (ok content, ls)
      else if text_eq (trim line) (codes ".")
      then (ok content, ls)
      else more
]

module _ {S : Type 0} where
  unfoldable pub read_data : Exec (Conn S) Bytes
  unfolding read_lines
  read_data c = let (r, rest) = read_lines [] c.input in (r, record c { input = rest })
