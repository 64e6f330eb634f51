-- ===== src/Error.antt =====
-- The error types of src/error.rs, their texts, and how they change into each other. The errors of
-- `std::io` are foreign: a type with their text and with `io::Error::other`.
pub mod Texts
use smtp_sink.Prelude.{◌≡◌, ◌++◌, Option, none, some}
use smtp_sink.Text.{Text, codes}

pub data SmtpError : Type 0 where
  auth_failed auth_required : SmtpError
  bad_sequence sender_not_allowed invalid_syntax unknown_command : Text → SmtpError
  tls_not_available tls_already_active connection_closed : SmtpError

pub record IoErrors (E : Type 0) : Type 0 where
  pub text : E → Text
  pub other : Text → E

-- `io::Error::other` keeps the text that it is given.
pub record IsIo {E : Type 0} (io : IoErrors E) : Type 0 where
  pub text-other : (t : Text) → io.text (io.other t) ≡ t

pub data Error (E : Type 0) : Type 0 where
  io_error : E → Error E
  tls database : Text → Error E
  smtp : SmtpError → Error E
  parse config forward : Text → Error E

-- `SmtpError::fmt`
unfoldable pub display_smtp : SmtpError → Text
display_smtp auth_failed = codes "authentication failed"
display_smtp auth_required = codes "authentication required"
display_smtp (bad_sequence msg) = codes "bad command sequence: " ++ msg
display_smtp (sender_not_allowed addr) = codes "sender not allowed: " ++ addr
display_smtp (invalid_syntax msg) = codes "invalid syntax: " ++ msg
display_smtp (unknown_command cmd) = codes "unknown command: " ++ cmd
display_smtp tls_not_available = codes "TLS not available"
display_smtp tls_already_active = codes "TLS already active"
display_smtp connection_closed = codes "connection closed unexpectedly"

module _ {E : Type 0} (io : IoErrors E) where
  -- `Error::fmt`
  unfoldable pub display : Error E → Text
  unfolding display_smtp
  display (io_error e) = codes "I/O error: " ++ io.text e
  display (tls msg) = codes "TLS error: " ++ msg
  display (database msg) = codes "database error: " ++ msg
  display (smtp e) = codes "SMTP error: " ++ display_smtp e
  display (parse msg) = codes "parse error: " ++ msg
  display (config msg) = codes "configuration error: " ++ msg
  display (forward msg) = codes "forwarding error: " ++ msg

  -- `Error::source`
  unfoldable pub source : Error E → Option E
  source (io_error e) = some e
  source _ = none

  -- `From<io::Error>`, `From<SmtpError>` and, with the text of the error, `From<rusqlite::Error>`
  unfoldable pub from_io : E → Error E
  from_io e = io_error e

  unfoldable pub from_smtp : SmtpError → Error E
  from_smtp e = smtp e

  unfoldable pub from_rusqlite : Text → Error E
  from_rusqlite text = database text

  -- `From<Error> for io::Error`
  unfoldable pub into_io : Error E → E
  unfolding display
  into_io (io_error e) = e
  into_io (tls msg) = io.other (display (tls msg))
  into_io (database msg) = io.other (display (database msg))
  into_io (smtp e) = io.other (display (smtp e))
  into_io (parse msg) = io.other (display (parse msg))
  into_io (config msg) = io.other (display (config msg))
  into_io (forward msg) = io.other (display (forward msg))
