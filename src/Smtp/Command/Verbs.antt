-- ===== src/Smtp/Command/Verbs.antt =====
-- Each branch of `process_command` is made of the primitive steps.
use smtp_sink.Prelude.{
  ◌≡◌, refl, inl, inr, Bool, true, false, not, List, [], ◌∷◌, ◌++◌, arith, Option-cases,
}
use smtp_sink.Text.{Text, Bytes, opt_text_eq, trim}
use smtp_sink.Store.{EmailStorage}
use smtp_sink.Exec.Keeps.{
  Relates, Relates-pure, Relates-gets, Relates-or_panic, Relates-bind, Relates-if, after_bind,
}
use smtp_sink.Smtp.Session.{
  SmtpConfig, AuthState, waiting_for_plain, waiting_for_login_username, waiting_for_login_password,
  idle,
}
use smtp_sink.Smtp.Message.{External}
use smtp_sink.Smtp.Auth.{
  credentials_match, plain_parts_ok, plain_ok, split_zero, on_session, verify_plain_auth,
  read_login_username, read_login_password,
}
use smtp_sink.Smtp.Command.{
  Verb, run_ehlo, run_starttls, run_mechanism, run_auth, accept_sender, run_mail, run_rcpt,
  run_command, run_line, behind_line, process_command,
}
use smtp_sink.Smtp.Command.Receive.{run_data-Step}
use smtp_sink.Smtp.Command.Steps.{
  NoLogin, HasLogin, Step, Step-Preorder, write_all-Step, flush-Step, read_line-Step,
  set_auth_state-Step, on_session-Step, reset-Step, set_authenticated-Step, set_sender-Step,
}

pub ruleset step_rules = (
  Step-Preorder, Relates-pure, Relates-gets, Relates-or_panic, Relates-bind, Relates-if,
  write_all-Step, flush-Step, read_line-Step, set_auth_state-Step, reset-Step,
)

-- Credentials that match are there to be given.
credentials_match-login :
    (config : SmtpConfig) (u p : Text) → credentials_match config u p ≡ true → HasLogin config
unfolding credentials_match opt_text_eq
credentials_match-login config u p h = record {
  present = λ n. elim n [ inl e ↦ ground arith | inr e ↦ ground arith ];
}

plain_parts_ok-login :
    (config : SmtpConfig) (parts : List Bytes)
    → plain_parts_ok config parts ≡ true
    → HasLogin config
unfolding plain_parts_ok
plain_parts_ok-login config (_ ∷ u ∷ p ∷ _) h = credentials_match-login config _ _ h
plain_parts_ok-login config _ h = cc

plain_ok-login :
    (ext : External) (config : SmtpConfig) (encoded : Text)
    → plain_ok ext config encoded ≡ true
    → HasLogin config
unfolding plain_ok
plain_ok-login ext config encoded h = elim (Option-cases (ext.base64_decode (trim encoded))) [
  | inl e ↦ cc (rw (e, plain_ok) at h)
  | inr (d, e) ↦ plain_parts_ok-login config (split_zero d) (rw (e, plain_ok) at h)
]

not-false : (b : Bool) → not b ≡ false → b ≡ true
not-false b h = ground arith

module _ {S : Type 0} (storage : EmailStorage S) (ext : External) (config : SmtpConfig) where
  run_ehlo-Step : Relates (Step storage ext config) (run_ehlo storage ext config)
  unfolding run_ehlo
  run_ehlo-Step = search step_rules depth 20

  run_starttls-Step : Relates (Step storage ext config) (run_starttls storage ext config)
  unfolding run_starttls
  run_starttls-Step = search step_rules depth 12

  verify_plain_auth-Step :
      (encoded : Text) → Relates (Step storage ext config) (verify_plain_auth ext config encoded)
  unfolding verify_plain_auth
  verify_plain_auth-Step encoded =
      search (step_rules, set_authenticated-Step, plain_ok-login) depth 8

  read_login_username-Step :
      (trimmed : Text) → Relates (Step storage ext config) (read_login_username ext trimmed)
  unfolding read_login_username
  read_login_username-Step trimmed = elim (Option-cases (ext.base64_decode trimmed)) [
    | inl e ↦ rw (e, read_login_username) (search step_rules depth 8)
    | inr (d, e) ↦ rw (e, read_login_username) (search step_rules depth 8)
  ]

  read_login_password-Step :
      (username trimmed : Text)
      → Relates (Step storage ext config) (read_login_password ext config username trimmed)
  unfolding read_login_password
  read_login_password-Step username trimmed = elim (Option-cases (ext.base64_decode trimmed)) [
    | inl e ↦ rw (e, read_login_password) (search step_rules depth 8)
    | inr (d, e) ↦
        rw (e, read_login_password)
          (search (step_rules, set_authenticated-Step, credentials_match-login) depth 8)
  ]

  run_mechanism-Step :
      (parts : List Text)
      → Relates (Step storage ext config) (run_mechanism storage ext config parts)
  unfolding run_mechanism
  run_mechanism-Step (_ ∷ m ∷ []) = search step_rules depth 8
  run_mechanism-Step (_ ∷ m ∷ encoded ∷ _) = search (step_rules, verify_plain_auth-Step) depth 8
  run_mechanism-Step _ = search step_rules depth 8

  run_auth-Step :
      (trimmed : Text) → Relates (Step storage ext config) (run_auth storage ext config trimmed)
  unfolding run_auth
  run_auth-Step trimmed = search (step_rules, run_mechanism-Step) depth 8

  accept_sender-Step :
      (addr : Text) → Relates (Step storage ext config) (accept_sender storage ext config addr)
  unfolding accept_sender
  accept_sender-Step addr = search (step_rules, set_sender-Step, not-false) depth 8

  run_mail-Step :
      (trimmed : Text) → Relates (Step storage ext config) (run_mail storage ext config trimmed)
  unfolding run_mail
  run_mail-Step trimmed = search (step_rules, accept_sender-Step) depth 10

  add_recipient-Step :
      (addr : Text)
      → Relates
          (Step storage ext config)
          (on_session (λ t. record t { rcpt_to = t.rcpt_to ++ addr ∷ [] }))
  add_recipient-Step addr = on_session-Step storage ext config _ λ s. ((refl, refl, refl), refl)

  run_rcpt-Step :
      (trimmed : Text) → Relates (Step storage ext config) (run_rcpt storage ext config trimmed)
  unfolding run_rcpt
  run_rcpt-Step trimmed = search (step_rules, add_recipient-Step) depth 10

  run_command-Step :
      (v : Verb) (trimmed : Text)
      → Relates (Step storage ext config) (run_command storage ext config v trimmed)
  unfolding run_command
  run_command-Step Verb.ehlo t = run_ehlo-Step
  run_command-Step Verb.starttls t = run_starttls-Step
  run_command-Step Verb.auth t = run_auth-Step t
  run_command-Step Verb.mail t = run_mail-Step t
  run_command-Step Verb.rcpt t = run_rcpt-Step t
  run_command-Step Verb.message t = run_data-Step storage ext config
  run_command-Step _ t = search step_rules depth 8

  run_line-Step :
      (a : AuthState) (trimmed : Text)
      → Relates (Step storage ext config) (run_line storage ext config a trimmed)
  unfolding run_line
  run_line-Step waiting_for_plain t = search (step_rules, verify_plain_auth-Step) depth 8
  run_line-Step waiting_for_login_username t = search (step_rules, read_login_username-Step) depth 8
  run_line-Step (waiting_for_login_password u) t =
      search (step_rules, read_login_password-Step) depth 8
  run_line-Step idle t = run_command-Step _ t

  -- What a command does behind its line.
  pub behind_line-Step :
      (line : Text) → Relates (Step storage ext config) (behind_line storage ext config line)
  unfolding behind_line
  behind_line-Step line = search (step_rules, run_line-Step) depth 8

  -- Whatever the peer sends, a command is a step: the lines to come do not grow in number;
  -- `auth_required`, `tls_active` and a login stay; nothing is stored or forwarded while a needed
  -- login is missing; nobody is logged in where there are no credentials; a sender is kept only if
  -- it is allowed; and what is stored are emails of sessions that may send.
  pub process_command-Step : Relates (Step storage ext config) (process_command storage ext config)
  unfolding process_command
  process_command-Step = search (step_rules, behind_line-Step) depth 8
