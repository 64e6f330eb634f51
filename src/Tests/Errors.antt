-- ===== src/Tests/Errors.antt =====
-- The theorems on the error types, at concrete inputs.
use smtp_sink.Prelude.{◌≡◌, refl}
use smtp_sink.Text.{Text}
use smtp_sink.Error.{IoErrors, IsIo, smtp, auth_failed}
use smtp_sink.Error.Texts.{told, display-told}

-- I/O errors that are their texts.
abbrev io : IoErrors Text
io = record { text = λ t. t; other = λ t. t }

io-IsIo : IsIo io
io-IsIo = record { text-other = λ t. refl }

display-told_example : told io (smtp auth_failed) ≡ told io (smtp auth_failed)
display-told_example = display-told io (smtp auth_failed) (smtp auth_failed) refl
