-- ===== src/Smtp/Command/Same.antt =====
-- Every part of `process_command` in src/smtp.rs but `DATA` leaves the store and the queue as they are.
use smtp_sink.Prelude.{ℕ, zero, suc, ◌≡◌, ◌∙◌, refl, inl, inr, List, [], ◌∷◌, Option-cases, String}
use smtp_sink.Text.{Text}
use smtp_sink.Store.{EmailStorage}
use smtp_sink.Exec.Keeps.{
  Preorder, Relates, Relates-pure, Relates-gets, Relates-or_panic, Relates-bind, Relates-if,
  Relates-modify, after_bind,
}
use smtp_sink.Smtp.Session.{SmtpConfig, AuthState, Session}
use smtp_sink.Smtp.Message.{External}
use smtp_sink.Smtp.Conn.{Conn, write_all, flush, put_out}
use smtp_sink.Smtp.Auth.{
  on_session, set_auth_state, set_authenticated, verify_plain_auth, read_login_username,
  read_login_password,
}
use smtp_sink.Smtp.Command.{
  Verb, run_ehlo, run_starttls, run_mechanism, run_auth, accept_sender, run_mail, run_rcpt,
  run_command,
}

-- The store and the queue are the same.
pub record Same {S : Type 0} (c d : Conn S) : Type 0 where
  pub store : d.store ≡ c.store
  pub forwarded : d.forwarded ≡ c.forwarded

module _ {S : Type 0} where
  pub Same-refl : (c : Conn S) → Same c c
  Same-refl c = record { store = refl; forwarded = refl }

  pub Same-Preorder : Preorder (Same {S = S})
  Same-Preorder = record {
    reflexive = Same-refl;
    transitive =
        λ c d e p q. record { store = q.store ∙ p.store; forwarded = q.forwarded ∙ p.forwarded };
  }

  pub put_out-Same : (n : ℕ) (out : List String) (c : Conn S) → Same c (put_out n out c).1
  put_out-Same zero out c = Same-refl c
  put_out-Same (suc n) out c = record { store = refl; forwarded = refl }

  pub write_all-Same : (payload : String) → Relates (Same {S = S}) (write_all payload)
  unfolding write_all
  write_all-Same payload = record { at = λ c. put_out-Same c.room (payload ∷ []) c }

  pub flush-Same : Relates (Same {S = S}) flush
  unfolding flush
  flush-Same = record { at = λ c. put_out-Same c.room [] c }

  pub on_session-Same : (f : Session → Session) → Relates (Same {S = S}) (on_session f)
  on_session-Same f = Relates-modify Same-Preorder _ λ c. record { store = refl; forwarded = refl }

  pub set_auth_state-Same : (a : AuthState) → Relates (Same {S = S}) (set_auth_state a)
  set_auth_state-Same a = on_session-Same _

  pub set_authenticated-Same : Relates (Same {S = S}) set_authenticated
  set_authenticated-Same = on_session-Same _

pub ruleset same_rules = (
  Same-Preorder, Relates-pure, Relates-gets, Relates-or_panic, Relates-bind, Relates-if,
  write_all-Same, flush-Same, on_session-Same, set_auth_state-Same, set_authenticated-Same,
)

module _ {S : Type 0} (storage : EmailStorage S) (ext : External) (config : SmtpConfig) where
  pub verify_plain_auth-Same :
      (encoded : Text) → Relates (Same {S = S}) (verify_plain_auth ext config encoded)
  unfolding verify_plain_auth
  verify_plain_auth-Same encoded = search same_rules depth 8

  pub read_login_username-Same :
      (trimmed : Text) → Relates (Same {S = S}) (read_login_username ext trimmed)
  unfolding read_login_username
  read_login_username-Same trimmed = elim (Option-cases (ext.base64_decode trimmed)) [
    | inl e ↦ rw (e, read_login_username) (search same_rules depth 8)
    | inr (d, e) ↦ rw (e, read_login_username) (search same_rules depth 8)
  ]

  pub read_login_password-Same :
      (username trimmed : Text)
      → Relates (Same {S = S}) (read_login_password ext config username trimmed)
  unfolding read_login_password
  read_login_password-Same username trimmed = elim (Option-cases (ext.base64_decode trimmed)) [
    | inl e ↦ rw (e, read_login_password) (search same_rules depth 8)
    | inr (d, e) ↦ rw (e, read_login_password) (search same_rules depth 8)
  ]

  pub run_mechanism-Same :
      (parts : List Text) → Relates (Same {S = S}) (run_mechanism storage ext config parts)
  unfolding run_mechanism
  run_mechanism-Same (_ ∷ m ∷ []) = search same_rules depth 8
  run_mechanism-Same (_ ∷ m ∷ encoded ∷ _) = search (same_rules, verify_plain_auth-Same) depth 8
  run_mechanism-Same _ = search same_rules depth 8

  pub accept_sender-Same :
      (addr : Text) → Relates (Same {S = S}) (accept_sender storage ext config addr)
  unfolding accept_sender
  accept_sender-Same addr = search same_rules depth 8

  -- Every verb but `DATA`.
  abbrev pub VerbKept : Verb → Type 0
  VerbKept Verb.message = Unit
  VerbKept v = (trimmed : Text) → Relates (Same {S = S}) (run_command storage ext config v trimmed)

  pub run_command-Same : (v : Verb) → VerbKept v
  unfolding run_command run_ehlo run_starttls run_auth run_mail run_rcpt
  run_command-Same Verb.ehlo = λ t. search same_rules depth 20
  run_command-Same Verb.starttls = λ t. search same_rules depth 12
  run_command-Same Verb.auth = λ t. search (same_rules, run_mechanism-Same) depth 8
  run_command-Same Verb.mail = λ t. search (same_rules, accept_sender-Same) depth 10
  run_command-Same Verb.rcpt = λ t. search same_rules depth 10
  run_command-Same Verb.message = tt
  run_command-Same Verb.rset = λ t. search same_rules depth 8
  run_command-Same Verb.noop = λ t. search same_rules depth 8
  run_command-Same Verb.bye = λ t. search same_rules depth 8
  run_command-Same Verb.unknown = λ t. search same_rules depth 8
