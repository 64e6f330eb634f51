-- ===== src/Smtp/Command/Steps.antt =====
-- What every part of `process_command` keeps: one relation between the connection before and after,
-- and a rule for each primitive action.
use smtp_sink.Prelude.{
  ℕ, zero, suc, ◌≤◌, ◌≡◌, ◌∙◌, ◌⊎◌, refl, ap, inl, inr, Option-cases, true, false, List, [], ◌∷◌,
  ◌++◌, Option, none, some, String, length, arith,
}
use smtp_sink.Text.{Text, Bytes, is_empty}
use smtp_sink.Store.{EmailStorage}
use smtp_sink.Utf8.{from_utf8, as_bytes}
use smtp_sink.Exec.{◌>>◌, Result, ok, err, io_error}
use smtp_sink.Exec.Keeps.{Preorder, Relates, Relates-modify, Relates-bind}
use smtp_sink.Smtp.Session.{SmtpConfig, AuthState, Session, reset}
use smtp_sink.Smtp.Message.{External, parse_email}
use smtp_sink.Smtp.Conn.{Conn, write_all, flush, read_line, put_out, read_from}
use smtp_sink.Smtp.Data.{read_lines, unstuff}
use smtp_sink.Smtp.Auth.{on_session, set_authenticated, set_auth_state}
use smtp_sink.Smtp.Command.{needs_auth, sender_allowed}

-- There is no user, or no password, that a peer could give.
abbrev pub NoLogin : SmtpConfig → Type 0
NoLogin config = (config.auth_username ≡ none) ⊎ (config.auth_password ≡ none)

-- There are both, so `NoLogin` does not hold.
pub record HasLogin (config : SmtpConfig) : Type 0 where
  pub present : ¬ NoLogin config

-- The sender of the transaction, if there is one, is allowed.
abbrev pub SenderOk : External → SmtpConfig → Session → Type 0
SenderOk ext config s = (a : Text) → s.mail_from ≡ some a → sender_allowed ext config a ≡ true

-- An email is taken in only from a session like this: logged in if that is required, with a sender
-- that is allowed, and with a recipient.
pub record Acceptable (ext : External) (config : SmtpConfig) (s : Session) : Type 0 where
  pub logged_in : needs_auth s ≡ false
  pub from : Text
  pub has_sender : s.mail_from ≡ some from
  pub allowed : sender_allowed ext config from ≡ true
  pub has_recipient : is_empty s.rcpt_to ≡ false

-- The second store is the first one and some emails, each read from a message of such a session.
pub data Filled {S : Type 0} (storage : EmailStorage S) (ext : External) (config : SmtpConfig)
    (s : S) : S → Type 0 where
  same : {t : S} → t ≡ s → Filled storage ext config s t
  more :
      {t u : S} (n : ℕ) (content : Bytes) (session : Session)
      → Filled storage ext config s t
      → Acceptable ext config session
      → u ≡ storage.push t (parse_email ext (ext.stamp n) content session)
      → Filled storage ext config s u

pub record Step {S : Type 0} (storage : EmailStorage S) (ext : External) (config : SmtpConfig)
    (c d : Conn S) : Type 0 where
  pub shrinks : length d.input ≤ length c.input
  pub required : d.session.auth_required ≡ c.session.auth_required
  pub tls : d.session.tls_active ≡ c.session.tls_active
  pub stays : c.session.authenticated ≡ true → d.session.authenticated ≡ true
  pub guarded : needs_auth d.session ≡ true → (d.store ≡ c.store) × (d.forwarded ≡ c.forwarded)
  pub no_login : NoLogin config → d.session.authenticated ≡ c.session.authenticated
  pub sender : SenderOk ext config c.session → SenderOk ext config d.session
  pub filled : SenderOk ext config c.session → Filled storage ext config c.store d.store

-- Only the session changed, and of it only what no login or sender depends on.
abbrev SameLogin : Session → Session → Type 0
SameLogin s t =
    (t.auth_required ≡ s.auth_required)
    × (t.tls_active ≡ s.tls_active)
    × (t.authenticated ≡ s.authenticated)

still_needs_auth :
    (s t : Session)
    → t.auth_required ≡ s.auth_required
    → (s.authenticated ≡ true → t.authenticated ≡ true)
    → needs_auth t ≡ true
    → needs_auth s ≡ true
still_needs_auth s t r h n = ground arith

pub Filled-trans :
    {S : Type 0} (storage : EmailStorage S) (ext : External) (config : SmtpConfig) {s t u : S}
    → Filled storage ext config s t
    → Filled storage ext config t u
    → Filled storage ext config s u
Filled-trans storage ext config p (same e) = rw e p
Filled-trans storage ext config p (more n content session q a e) =
    more n content session (Filled-trans storage ext config p q) a e

module _ {S : Type 0} (storage : EmailStorage S) (ext : External) (config : SmtpConfig) where
  Step-refl : (c : Conn S) → Step storage ext config c c
  Step-refl c = record {
    shrinks = omega arith;
    required = refl;
    tls = refl;
    stays = λ h. h;
    guarded = λ _. (refl, refl);
    no_login = λ _. refl;
    sender = λ h. h;
    filled = λ _. same refl;
  }

  Step-trans :
      (c d e : Conn S)
      → Step storage ext config c d
      → Step storage ext config d e
      → Step storage ext config c e
  Step-trans c d e p q = record {
    shrinks = omega (arith, p.shrinks, q.shrinks);
    required = q.required ∙ p.required;
    tls = q.tls ∙ p.tls;
    stays = λ h. q.stays (p.stays h);
    guarded = λ h.
        let h' = still_needs_auth d.session e.session q.required q.stays h in
        ((q.guarded h).0 ∙ (p.guarded h').0, (q.guarded h).1 ∙ (p.guarded h').1);
    no_login = λ h. q.no_login h ∙ p.no_login h;
    sender = λ h. q.sender (p.sender h);
    filled = λ h. Filled-trans storage ext config (p.filled h) (q.filled (p.sender h));
  }

  pub Step-Preorder : Preorder (Step storage ext config)
  Step-Preorder = record { reflexive = Step-refl; transitive = Step-trans }

  -- A change of the input and the output alone.
  pub Step-io :
      (c d : Conn S)
      → d.session ≡ c.session
      → d.store ≡ c.store
      → d.forwarded ≡ c.forwarded
      → length d.input ≤ length c.input
      → Step storage ext config c d
  Step-io c d e st f l = record {
    shrinks = l;
    required = ap (λ (s : Session). s.auth_required) e;
    tls = ap (λ (s : Session). s.tls_active) e;
    stays = λ h. ap (λ (s : Session). s.authenticated) e ∙ h;
    guarded = λ _. (st, f);
    no_login = λ _. ap (λ (s : Session). s.authenticated) e;
    sender = λ h. rw e h;
    filled = λ _. same st;
  }

  put_out-Step :
      (n : ℕ) (out : List String) (c : Conn S) → Step storage ext config c (put_out n out c).1
  put_out-Step zero out c = Step-refl c
  put_out-Step (suc n) out c = Step-io c _ refl refl refl (omega arith)

  pub write_all-Step : (payload : String) → Relates (Step storage ext config) (write_all payload)
  unfolding write_all
  write_all-Step payload = record { at = λ c. put_out-Step c.room (payload ∷ []) c }

  pub flush-Step : Relates (Step storage ext config) flush
  unfolding flush
  flush-Step = record { at = λ c. put_out-Step c.room [] c }

  pub write_flush-Step :
      (payload : String) (c : Conn S) → Step storage ext config c ((write_all payload >> flush) c).1
  write_flush-Step payload =
      (Relates-bind Step-Preorder _ _ (write_all-Step payload) (λ _. flush-Step)).at

  -- A line is taken off the input, whether it is text or not.
  read_from-Step :
      (l : Bytes) (ls : List Bytes) (c : Conn S) (o : Option Text)
      → length ls ≤ length c.input
      → Step storage ext config c
          (elim o as (λ _. Result Text × Conn S) [
            | none ↦ (err io_error, record c { input = ls })
            | some line ↦ (ok line, record c { input = ls })
          ]).1
  read_from-Step l ls c none h = Step-io c _ refl refl refl h
  read_from-Step l ls c (some line) h = Step-io c _ refl refl refl h

  take_line-Step :
      (ls : List Bytes) (c : Conn S) → c.input ≡ ls → Step storage ext config c (read_from ls c).1
  take_line-Step [] c e = Step-refl c
  take_line-Step (l ∷ ls) c e = read_from-Step l ls c (from_utf8 l) (rw e (omega arith))

  pub read_line-Step : Relates (Step storage ext config) read_line
  unfolding read_line
  read_line-Step = record { at = λ c. take_line-Step c.input c refl }

pub length-read_lines :
    (ls : List Bytes) (content : Bytes) → length (read_lines content ls).1 ≤ length ls
unfolding read_lines
length-read_lines [] content = omega arith
length-read_lines (l ∷ ls) content = elim (Option-cases (from_utf8 l)) [
  | inl e ↦ rw (e, read_lines) (omega arith)
  | inr (line, e) ↦
      rw (e, read_lines) (ground (arith, length-read_lines ls (content ++ as_bytes (unstuff line))))
]

module _ {S : Type 0} (storage : EmailStorage S) (ext : External) (config : SmtpConfig) where
  -- A change of the session that no login or sender depends on.
  pub on_session-Step :
      (f : Session → Session)
      → ((s : Session) → SameLogin s (f s) × ((f s).mail_from ≡ s.mail_from))
      → Relates (Step storage ext config) (on_session f)
  on_session-Step f h = Relates-modify (Step-Preorder storage ext config) _ λ c. record {
    shrinks = omega arith;
    required = (h c.session).0.0;
    tls = (h c.session).0.1;
    stays = λ a. (h c.session).0.2 ∙ a;
    guarded = λ _. (refl, refl);
    no_login = λ _. (h c.session).0.2;
    sender = λ k. rw (h c.session).1 k;
    filled = λ _. same refl;
  }

  pub set_auth_state-Step : (a : AuthState) → Relates (Step storage ext config) (set_auth_state a)
  set_auth_state-Step a = on_session-Step _ λ s. ((refl, refl, refl), refl)

  pub reset-Step : Relates (Step storage ext config) (on_session reset)
  unfolding reset
  reset-Step = Relates-modify (Step-Preorder storage ext config) _ λ c. record {
    shrinks = omega arith;
    required = refl;
    tls = refl;
    stays = λ a. a;
    guarded = λ _. (refl, refl);
    no_login = λ _. refl;
    sender = λ k a e. cc e;
    filled = λ _. same refl;
  }

  -- A login, where there is one to give.
  pub set_authenticated-Step : HasLogin config → Relates (Step storage ext config) set_authenticated
  set_authenticated-Step login = Relates-modify (Step-Preorder storage ext config) _ λ c. record {
    shrinks = omega arith;
    required = refl;
    tls = refl;
    stays = λ a. refl;
    guarded = λ n. (refl, refl);
    no_login = λ n. absurd (login.present n);
    sender = λ k. k;
    filled = λ _. same refl;
  }

  -- An allowed sender.
  pub set_sender-Step :
      (addr : Text)
      → sender_allowed ext config addr ≡ true
      → Relates (Step storage ext config) (on_session (λ s. record s { mail_from = some addr }))
  set_sender-Step addr ok' = Relates-modify (Step-Preorder storage ext config) _ λ c. record {
    shrinks = omega arith;
    required = refl;
    tls = refl;
    stays = λ a. a;
    guarded = λ _. (refl, refl);
    no_login = λ _. refl;
    sender = λ k a e. let e' : addr ≡ a = cc e in rw (← e') ok';
    filled = λ _. same refl;
  }
