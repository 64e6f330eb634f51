-- ===== src/Smtp/Address.antt =====
-- `extract_address` of src/smtp.rs; `none` is the panic of a slice.
pub mod Brackets
use smtp_sink.Prelude.{ℕ, ◌+◌, Option, none, some}
use smtp_sink.Text.{Text, trim}
use smtp_sink.Text.Slice.{find_char, slice}

-- The body, on the trimmed argument.
unfoldable pub between_brackets : Text → Option Text
between_brackets s = elim (find_char b'<' s) [
  | none ↦ some s
  | some start ↦ elim (find_char b'>' s) [ none ↦ some s | some end ↦ slice s (start + 1) end ]
]

unfoldable pub extract_address : Text → Option Text
unfolding between_brackets
extract_address s = between_brackets (trim s)
