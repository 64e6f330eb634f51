-- ===== src/Smtp/Command/Stores.antt =====
-- What one command of `process_command` in src/smtp.rs stores and queues, and for which session: only
-- `DATA` does, behind its tests, and all else leaves the store and the queue as they are.
use smtp_sink.Prelude.{
  ℕ, ◌≡◌, ◌∙◌, refl, sym, ap, subst, Bool, true, false, not, List, [], ◌∷◌, ◌++◌, Option, none,
  some, is_some, if◌then◌else◌, String, arith, length, ◌≤◌,
}
use smtp_sink.Text.{Text, Bytes, is_empty}
use smtp_sink.Utf8.{from_utf8}
use smtp_sink.Email.{MailRecord}
use smtp_sink.Store.{EmailStorage}
use smtp_sink.Exec.{Exec, Result, ok, err, io_error, modify, ◌>>=◌, ◌>>◌}
use smtp_sink.Exec.Keeps.{Relates, after_bind}
use smtp_sink.Smtp.Session.{
  SmtpConfig, AuthState, waiting_for_plain, waiting_for_login_username, waiting_for_login_password,
  idle,
}
use smtp_sink.Smtp.Message.{External, parse_email}
use smtp_sink.Smtp.Conn.{Conn, write_all, read_line, read_from}
use smtp_sink.Smtp.Command.{
  CommandResult, Verb, needs_auth, keep_email, receive_email, run_data, run_command, run_line,
  behind_line, process_command, finish,
}
use smtp_sink.Smtp.Command.Receive.{
  Quiet, Ready-Acceptable, Quiet-refl, write_all-Quiet, flush-Quiet, read_data-Quiet,
}
use smtp_sink.Smtp.Command.Steps.{SenderOk, Acceptable}
use smtp_sink.Smtp.Command.Same.{
  Same, Same-Preorder, same_rules, verify_plain_auth-Same, read_login_username-Same,
  read_login_password-Same, run_command-Same,
}

-- The store and the queue of `d` are those of `c`, or have one email more: the one that a message gives
-- in the session that `c` has, which may deliver it.
pub data Stores {S : Type 0} (storage : EmailStorage S) (ext : External) (config : SmtpConfig)
    (c d : Conn S) : Type 0 where
  nothing : Same c d → Stores storage ext config c d
  one :
      (n : ℕ) (content : Bytes) (e : MailRecord)
      → Acceptable ext config c.session
      → e ≡ parse_email ext (ext.stamp n) content c.session
      → d.store ≡ storage.push c.store e
      → d.forwarded ≡ (if config.forward_handle then c.forwarded ++ e ∷ [] else c.forwarded)
      → Stores storage ext config c d

module _ {S : Type 0} (storage : EmailStorage S) (ext : External) (config : SmtpConfig) where
  -- What is behind a command leaves both as they are.
  Stores-Same :
      (c d e : Conn S) → Stores storage ext config c d → Same d e → Stores storage ext config c e
  Stores-Same c d e (nothing s) k = nothing (Same-Preorder.transitive c d e s k)
  Stores-Same c d e (one n content m a r s f) k =
      one n content m a r (k.store ∙ s) (k.forwarded ∙ f)

  Quiet-Same : (c d : Conn S) → Quiet c d → Same c d
  Quiet-Same c d q = record { store = q.store; forwarded = q.forwarded }

  -- What is ahead of it changes the input and the output alone.
  Quiet-Stores :
      (c d e : Conn S) → Quiet c d → Stores storage ext config d e → Stores storage ext config c e
  Quiet-Stores c d e q (nothing s) = nothing (Same-Preorder.transitive c d e (Quiet-Same c d q) s)
  Quiet-Stores c d e q (one n content m a r s f) =
      one n content m (subst (Acceptable ext config) q.session a)
        (r ∙ ap (parse_email ext (ext.stamp n) content) q.session)
        (s ∙ ap (λ t. storage.push t m) q.store)
        (f ∙ ap (λ l. if config.forward_handle then l ++ m ∷ [] else l) q.forwarded)

  kept-Stores :
      (content : Bytes) (d : Conn S)
      → Acceptable ext config d.session
      → Stores storage ext config d (keep_email storage ext config content d).1
  unfolding modify
  kept-Stores content d a =
      one d.accepted content (parse_email ext (ext.stamp d.accepted) content d.session) a refl refl
        refl

  reply-Same :
      (payload : String) → Relates (Same {S = S}) (write_all payload >> finish storage ext config)
  reply-Same payload = search same_rules depth 8

  receive_email-Stores :
      (c : Conn S)
      → Acceptable ext config c.session
      → Stores storage ext config c (receive_email storage ext config c).1
  unfolding receive_email
  receive_email-Stores c free =
      after_bind _ _ c (Quiet c) (Stores storage ext config c)
        (write_all-Quiet _ c c (Quiet-refl c))
        (λ _ d q.
          after_bind _ _ d (Quiet c) (Stores storage ext config c) (flush-Quiet c d q)
            (λ _ e r.
              after_bind _ _ e (Quiet c) (Stores storage ext config c) (read_data-Quiet c e r)
                (λ content f t.
                  after_bind _ _ f (Stores storage ext config c) (Stores storage ext config c)
                    (Quiet-Stores c f _ t
                      (kept-Stores content f (subst (Acceptable ext config) (sym t.session) free)))
                    (λ _ g s. Stores-Same c g _ s ((reply-Same _).at g)) (λ _ s. s))
                quiet)
            quiet)
        quiet
    where
      quiet : (d : Conn S) → Quiet c d → Stores storage ext config c d
      quiet d q = nothing (Quiet-Same c d q)

  if_refused :
      (b : Bool) (m n : Exec (Conn S) CommandResult) (c : Conn S)
      → Relates Same m
      → (b ≡ false → Stores storage ext config c (n c).1)
      → Stores storage ext config c ((if b then m else n) c).1
  if_refused true m n c r k = nothing (r.at c)
  if_refused false m n c r k = k refl

  run_data-Stores :
      (c : Conn S)
      → SenderOk ext config c.session
      → Stores storage ext config c (run_data storage ext config c).1
  unfolding run_data ◌>>=◌
  run_data-Stores c allowed = if_refused (needs_auth c.session) _ _ c (reply-Same _) λ free.
      if_refused (not (is_some c.session.mail_from)) _ _ c (reply-Same _) λ sender.
        if_refused (is_empty c.session.rcpt_to) _ _ c (reply-Same _) λ recipient.
          receive_email-Stores c (
            Ready-Acceptable (record { logged_in = free; sender = sender; recipient = recipient })
              allowed)

  of_kept :
      {m : Exec (Conn S) CommandResult} (c : Conn S)
      → Relates Same m
      → Stores storage ext config c (m c).1
  of_kept c r = nothing (r.at c)

  run_command-Stores :
      (v : Verb) (trimmed : Text) (c : Conn S)
      → SenderOk ext config c.session
      → Stores storage ext config c (run_command storage ext config v trimmed c).1
  unfolding run_command
  run_command-Stores Verb.message t c h = run_data-Stores c h
  run_command-Stores Verb.ehlo t c h = of_kept c (run_command-Same storage ext config Verb.ehlo t)
  run_command-Stores Verb.starttls t c h =
      of_kept c (run_command-Same storage ext config Verb.starttls t)
  run_command-Stores Verb.auth t c h = of_kept c (run_command-Same storage ext config Verb.auth t)
  run_command-Stores Verb.mail t c h = of_kept c (run_command-Same storage ext config Verb.mail t)
  run_command-Stores Verb.rcpt t c h = of_kept c (run_command-Same storage ext config Verb.rcpt t)
  run_command-Stores Verb.rset t c h = of_kept c (run_command-Same storage ext config Verb.rset t)
  run_command-Stores Verb.noop t c h = of_kept c (run_command-Same storage ext config Verb.noop t)
  run_command-Stores Verb.bye t c h = of_kept c (run_command-Same storage ext config Verb.bye t)
  run_command-Stores Verb.unknown t c h =
      of_kept c (run_command-Same storage ext config Verb.unknown t)

  run_line-Stores :
      (a : AuthState) (trimmed : Text) (c : Conn S)
      → SenderOk ext config c.session
      → Stores storage ext config c (run_line storage ext config a trimmed c).1
  unfolding run_line
  run_line-Stores waiting_for_plain t c h =
      of_kept {m = run_line storage ext config waiting_for_plain t} c
        (search (same_rules, verify_plain_auth-Same) depth 8)
  run_line-Stores waiting_for_login_username t c h =
      of_kept {m = run_line storage ext config waiting_for_login_username t} c
        (search (same_rules, read_login_username-Same) depth 8)
  run_line-Stores (waiting_for_login_password u) t c h =
      of_kept {m = run_line storage ext config (waiting_for_login_password u) t} c
        (search (same_rules, read_login_password-Same) depth 8)
  run_line-Stores idle t c h = run_command-Stores _ t c h

  if_empty :
      (b : Bool) (m n : Exec (Conn S) CommandResult) (c : Conn S)
      → Relates Same m
      → Stores storage ext config c (n c).1
      → Stores storage ext config c ((if b then m else n) c).1
  if_empty true m n c r k = nothing (r.at c)
  if_empty false m n c r k = k

  behind_line-Stores :
      (line : Text) (c : Conn S)
      → SenderOk ext config c.session
      → Stores storage ext config c (behind_line storage ext config line c).1
  unfolding behind_line ◌>>=◌
  behind_line-Stores line c h =
      if_empty (is_empty line) _ _ c (search same_rules)
        (run_line-Stores c.session.auth_state _ c h)

  read_from-Quiet :
      (l : Bytes) (ls : List Bytes) (c : Conn S) (o : Option Text)
      → length ls ≤ length c.input
      → Quiet c
          (elim o as (λ _. Result Text × Conn S) [
            | none ↦ (err io_error, record c { input = ls })
            | some line ↦ (ok line, record c { input = ls })
          ]).1
  read_from-Quiet l ls c none h = record {
    session = refl;
    store = refl;
    forwarded = refl;
    input = h;
  }
  read_from-Quiet l ls c (some line) h = record {
    session = refl;
    store = refl;
    forwarded = refl;
    input = h;
  }

  take_line-Quiet : (ls : List Bytes) (c : Conn S) → c.input ≡ ls → Quiet c (read_from ls c).1
  take_line-Quiet [] c e = Quiet-refl c
  take_line-Quiet (l ∷ ls) c e = read_from-Quiet l ls c (from_utf8 l) (rw e (omega arith))

  read_line-Quiet : (c : Conn S) → Quiet c (read_line c).1
  unfolding read_line
  read_line-Quiet c = take_line-Quiet c.input c refl

  -- Where the sender of the transaction, if there is one, is allowed: whatever the peer sends, a
  -- command leaves the store and the queue as they are, or it adds one email, to the store and, with a
  -- forwarder, to the queue; the email is read from a message in the session of that very
  -- command, which is logged in, if that is required, and has an allowed sender and a recipient.
  pub process_command-Stores :
      (c : Conn S)
      → SenderOk ext config c.session
      → Stores storage ext config c (process_command storage ext config c).1
  unfolding process_command
  process_command-Stores c h =
      after_bind _ _ c (Quiet c) (Stores storage ext config c) (read_line-Quiet c)
        (λ line d q.
          Quiet-Stores c d _ q
            (behind_line-Stores line d (subst (SenderOk ext config) (sym q.session) h)))
        (λ d q. nothing (Quiet-Same c d q))
