-- ===== src/Smtp/Command/Receive.antt =====
-- `DATA`: a message is taken in only behind the three tests on the session.
use smtp_sink.Prelude.{
  ℕ, zero, suc, ◌≤◌, ◌≡◌, ◌∙◌, refl, ap, inl, inr, Bool, true, false, not, List, [], ◌∷◌, String,
  is_some, length, arith, if◌then◌else◌, Option-cases,
}
use smtp_sink.Text.{Bytes, is_empty}
use smtp_sink.Store.{EmailStorage}
use smtp_sink.Exec.{Exec, ◌>>=◌, ◌>>◌, modify}
use smtp_sink.Exec.Keeps.{Relates, Relates-pure, Relates-bind, after_bind}
use smtp_sink.Smtp.Session.{SmtpConfig, Session, reset}
use smtp_sink.Smtp.Message.{External}
use smtp_sink.Smtp.Conn.{Conn, write_all, flush, put_out}
use smtp_sink.Smtp.Data.{read_data}
use smtp_sink.Smtp.Command.{CommandResult, needs_auth, keep_email, receive_email, run_data, finish}
use smtp_sink.Smtp.Command.Steps.{
  Step, SenderOk, Acceptable, same, more, Step-Preorder, Step-io, write_all-Step, flush-Step,
  length-read_lines,
}

-- The input and the output alone have changed, and no input came back.
pub record Quiet {S : Type 0} (c d : Conn S) : Type 0 where
  pub session : d.session ≡ c.session
  pub store : d.store ≡ c.store
  pub forwarded : d.forwarded ≡ c.forwarded
  pub input : length d.input ≤ length c.input

module _ {S : Type 0} where
  put_out-Quiet :
      (n : ℕ) (out : List String) (c d : Conn S) → Quiet c d → Quiet c (put_out n out d).1
  put_out-Quiet zero out c d q = q
  put_out-Quiet (suc n) out c d q = record {
    session = q.session;
    store = q.store;
    forwarded = q.forwarded;
    input = q.input;
  }

  pub write_all-Quiet :
      (payload : String) (c d : Conn S) → Quiet c d → Quiet c (write_all payload d).1
  unfolding write_all
  write_all-Quiet payload c d q = put_out-Quiet d.room (payload ∷ []) c d q

  pub flush-Quiet : (c d : Conn S) → Quiet c d → Quiet c (flush d).1
  unfolding flush
  flush-Quiet c d q = put_out-Quiet d.room [] c d q

  pub read_data-Quiet : (c d : Conn S) → Quiet c d → Quiet c (read_data d).1
  unfolding read_data
  read_data-Quiet c d q = record {
    session = q.session;
    store = q.store;
    forwarded = q.forwarded;
    input = omega (arith, q.input, length-read_lines d.input []);
  }

  pub Quiet-refl : (c : Conn S) → Quiet c c
  Quiet-refl c = record { session = refl; store = refl; forwarded = refl; input = omega arith }

-- The three tests of `DATA` have let the session through.
pub record Ready (s : Session) : Type 0 where
  pub logged_in : needs_auth s ≡ false
  pub sender : not (is_some s.mail_from) ≡ false
  pub recipient : is_empty s.rcpt_to ≡ false

pub Ready-Acceptable :
    {ext : External} {config : SmtpConfig} {s : Session}
    → Ready s
    → SenderOk ext config s
    → Acceptable ext config s
Ready-Acceptable {ext} {config} {s} r h = elim (Option-cases s.mail_from) [
  | inl e ↦ cc (rw e at r.sender)
  | inr (a, e) ↦ record {
    logged_in = r.logged_in;
    from = a;
    has_sender = e;
    allowed = h a e;
    has_recipient = r.recipient;
  }
]

refused : (s t : Session) → s ≡ t → needs_auth s ≡ true → needs_auth t ≡ false → ⊥
refused s t e n free = cc

module _ {S : Type 0} (storage : EmailStorage S) (ext : External) (config : SmtpConfig) where
  Quiet-Step : (c d : Conn S) → Quiet c d → Step storage ext config c d
  Quiet-Step c d q = Step-io storage ext config c d q.session q.store q.forwarded q.input

  -- The email is kept for a session that needs no login any more.
  kept-Step :
      (content : Bytes) (c d : Conn S)
      → Ready c.session
      → Quiet c d
      → Step storage ext config c (keep_email storage ext config content d).1
  unfolding modify reset
  kept-Step content c d free q = record {
    shrinks = q.input;
    required = ap (λ (s : Session). s.auth_required) q.session;
    tls = ap (λ (s : Session). s.tls_active) q.session;
    stays = λ h. ap (λ (s : Session). s.authenticated) q.session ∙ h;
    guarded = λ n. absurd (refused d.session c.session q.session n free.logged_in);
    no_login = λ _. ap (λ (s : Session). s.authenticated) q.session;
    sender = λ h a e. cc e;
    filled = λ h.
        more d.accepted content d.session (same q.store) (rw q.session (Ready-Acceptable free h))
          refl;
  }

  -- A reply, and no more.
  reply-Step :
      (payload : String)
      → Relates (Step storage ext config) (write_all payload >> finish storage ext config)
  reply-Step payload =
      search (Step-Preorder, Relates-pure, Relates-bind, write_all-Step, flush-Step) depth 8

  receive_email-Step :
      (c : Conn S)
      → Ready c.session
      → Step storage ext config c (receive_email storage ext config c).1
  unfolding receive_email
  receive_email-Step c free =
      after_bind _ _ c (Quiet c) (Step storage ext config c) (write_all-Quiet _ c c (Quiet-refl c))
        (λ _ d q.
          after_bind _ _ d (Quiet c) (Step storage ext config c) (flush-Quiet c d q)
            (λ _ e r.
              after_bind _ _ e (Quiet c) (Step storage ext config c) (read_data-Quiet c e r)
                (λ content f t.
                  after_bind _ _ f (Step storage ext config c) (Step storage ext config c)
                    (kept-Step content c f free t)
                    (λ _ g s.
                      (Step-Preorder storage ext config).transitive c g _ s ((reply-Step _).at g))
                    (λ _ s. s))
                (Quiet-Step c))
            (Quiet-Step c))
        (Quiet-Step c)

  if_at :
      (b : Bool) (m n : Exec (Conn S) CommandResult) (c : Conn S)
      → Relates (Step storage ext config) m
      → (b ≡ false → Step storage ext config c (n c).1)
      → Step storage ext config c ((if b then m else n) c).1
  if_at true m n c r k = r.at c
  if_at false m n c r k = k refl

  pub run_data-Step : Relates (Step storage ext config) (run_data storage ext config)
  unfolding run_data ◌>>=◌
  run_data-Step = record {
    at = λ c. if_at (needs_auth c.session) _ _ c (reply-Step _) λ free.
        if_at (not (is_some c.session.mail_from)) _ _ c (reply-Step _) λ sender.
          if_at (is_empty c.session.rcpt_to) _ _ c (reply-Step _) λ recipient.
            receive_email-Step c
              (record { logged_in = free; sender = sender; recipient = recipient });
  }
