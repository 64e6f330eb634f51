-- ===== src/Error/Texts.antt =====
-- What the texts of the errors of src/error.rs tell.
use smtp_sink.Prelude.{
  ◌≡◌, ◌∙◌, refl, sym, ap, List, [], ◌∷◌, Option, none, some, if◌then◌else◌, ◌==◌, unwrap_or,
}
use smtp_sink.Text.{Text, codes}
use smtp_sink.Error.{
  SmtpError, auth_failed, auth_required, bad_sequence, sender_not_allowed, invalid_syntax,
  unknown_command, tls_not_available, tls_already_active, connection_closed, IoErrors, Error,
  io_error, tls, database, smtp, parse, config, forward, display_smtp, display,
}

-- The text behind a prefix.
abbrev pub behind : Text → Text → Option Text
behind [] t = some t
behind (c ∷ p) [] = none
behind (c ∷ p) (d ∷ t) = if c == d then behind p t else none

-- The first of the readings that takes the text.
abbrev first_of : {A : Type 0} → List (Text × (Text → Option A)) → Text → Option A
first_of [] t = none
first_of ((p, f) ∷ ps) t = elim (behind p t) [ none ↦ first_of ps t | some rest ↦ f rest ]

abbrev read_smtp : Text → Option SmtpError
read_smtp = first_of (
    (codes "authentication failed", λ t. some (auth_failed))
    ∷ (codes "authentication required", λ t. some (auth_required))
    ∷ (codes "bad command sequence: ", λ t. some (bad_sequence t))
    ∷ (codes "sender not allowed: ", λ t. some (sender_not_allowed t))
    ∷ (codes "invalid syntax: ", λ t. some (invalid_syntax t))
    ∷ (codes "unknown command: ", λ t. some (unknown_command t))
    ∷ (codes "TLS not available", λ t. some (tls_not_available))
    ∷ (codes "TLS already active", λ t. some (tls_already_active))
    ∷ (codes "connection closed unexpectedly", λ t. some (connection_closed))
    ∷ [])

read_smtp-display_smtp : (e : SmtpError) → read_smtp (display_smtp e) ≡ some e
unfolding display_smtp
read_smtp-display_smtp auth_failed = refl
read_smtp-display_smtp auth_required = refl
read_smtp-display_smtp (bad_sequence msg) = refl
read_smtp-display_smtp (sender_not_allowed addr) = refl
read_smtp-display_smtp (invalid_syntax msg) = refl
read_smtp-display_smtp (unknown_command cmd) = refl
read_smtp-display_smtp tls_not_available = refl
read_smtp-display_smtp tls_already_active = refl
read_smtp-display_smtp connection_closed = refl

module _ {E : Type 0} (io : IoErrors E) where
  -- An error with the text of the I/O error in its place.
  abbrev pub told : Error E → Error Text
  told (io_error e) = io_error (io.text e)
  told (tls msg) = tls msg
  told (database msg) = database msg
  told (smtp e) = smtp e
  told (parse msg) = parse msg
  told (config msg) = config msg
  told (forward msg) = forward msg

abbrev smtp_or : Option SmtpError → Option (Error Text)
smtp_or none = none
smtp_or (some e) = some (smtp e)

abbrev read : Text → Option (Error Text)
read = first_of (
    (codes "I/O error: ", λ t. some (io_error t))
    ∷ (codes "TLS error: ", λ t. some (tls t))
    ∷ (codes "database error: ", λ t. some (database t))
    ∷ (codes "SMTP error: ", λ t. smtp_or (read_smtp t))
    ∷ (codes "parse error: ", λ t. some (parse t))
    ∷ (codes "configuration error: ", λ t. some (config t))
    ∷ (codes "forwarding error: ", λ t. some (forward t))
    ∷ [])

module _ {E : Type 0} (io : IoErrors E) where
  read-display : (e : Error E) → read (display io e) ≡ some (told io e)
  unfolding display
  read-display (io_error e) = refl
  read-display (tls msg) = refl
  read-display (database msg) = refl
  read-display (smtp e) = ap smtp_or (read_smtp-display_smtp e)
  read-display (parse msg) = refl
  read-display (config msg) = refl
  read-display (forward msg) = refl

  -- The text of an error tells what it is: two errors with the same text are of the same kind and hold
  -- the same message, or are I/O errors with the same text.
  pub display-told : (e f : Error E) → display io e ≡ display io f → told io e ≡ told io f
  display-told e f h =
      ap (λ o. unwrap_or o (told io e)) (sym (read-display e) ∙ ap read h ∙ read-display f)
