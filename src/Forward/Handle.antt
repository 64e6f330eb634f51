-- ===== src/Forward/Handle.antt =====
-- The queue of the forwarder in src/forward.rs: `Forwarder::new`, `ForwardHandle::forward` and the loop of
-- `Forwarder::run`, beside each other. The bounded channel of tokio is an argument.
pub mod Bounded
use smtp_sink.Prelude.{
  ℕ, zero, suc, ◌+◌, ◌≤◌, ◌<◌, ◌≡◌, ◌⊎◌, ◌∙◌, inl, inr, refl, sym, ap, subst, List, [], ◌∷◌, ◌++◌,
  Option, none, some, Bool, not, length, arith, append_assoc, append-nil, length-append, ◌≢◌,
  Option-cases, some-ne-none, of_some, Bool-cases, ltb, is_some, true,
}
use smtp_sink.Text.{Text, is_empty}
use smtp_sink.Email.{MailRecord}
use smtp_sink.Sink.{ForwardConfig}
use smtp_sink.Forward.{
  Parsers, Outgoing, Prepared, prepared, refused, Transport, forward_email, run, sent_before,
  build_transport,
}

-- `ForwardConfig::is_enabled`
unfoldable pub is_enabled : ForwardConfig → Bool
is_enabled config = not (is_empty config.host)

-- `mpsc`: a sender waits while the channel is full, `none`, and the receiver while it is empty.
pub record Mpsc (Q : Type 0) : Type 0 where
  pub channel : ℕ → Q
  pub send : Q → MailRecord → Option Q
  pub recv : Q → Option (MailRecord × Q)

-- First in, first out, and never more than the bound. The receiver lives as long as the task, which
-- never ends while there is a handle, so that `send` does not fail.
pub record IsMpsc {Q : Type 0} (mpsc : Mpsc Q) : Type 0 where
  pub held : Q → List MailRecord
  pub bound : Q → ℕ
  pub channels : (n : ℕ) → (held (mpsc.channel n) ≡ []) × (bound (mpsc.channel n) ≡ n)
  pub sends :
      (q : Q) (e : MailRecord)
      → length (held q) < bound q
      → (q' : Q) × (mpsc.send q e ≡ some q') × (held q' ≡ held q ++ e ∷ []) × (bound q' ≡ bound q)
  pub full : (q : Q) (e : MailRecord) → bound q ≤ length (held q) → mpsc.send q e ≡ none
  pub receives :
      (q : Q) (e : MailRecord) (es : List MailRecord)
      → held q ≡ e ∷ es
      → (q' : Q) × (mpsc.recv q ≡ some (e, q')) × (held q' ≡ es) × (bound q' ≡ bound q)
  pub waits : (q : Q) → held q ≡ [] → mpsc.recv q ≡ none

-- The channel; the emails that were handed to it and those that were taken from it, the oldest first;
-- and the messages that were sent for these.
pub record Forwarder (Q M D : Type 0) : Type 0 where
  pub queue : Q
  pub queued : List MailRecord
  pub taken : List MailRecord
  pub sent : List (Outgoing M D)

module _ {Q M D : Type 0} (mpsc : Mpsc Q) (parsers : Parsers M D)
    (deliver : Transport → Outgoing M D → Bool) (config : ForwardConfig) where
  -- `Forwarder::new`
  unfoldable pub new : Forwarder Q M D
  new = record { queue = mpsc.channel 100; queued = []; taken = []; sent = [] }

  abbrev pub offered : MailRecord → Forwarder Q M D → Option Q → Option (Forwarder Q M D)
  offered email f none = none
  offered email f (some q) = some (record f { queue = q; queued = f.queued ++ email ∷ [] })

  -- `ForwardHandle::forward`, which waits as long as this is `none`.
  unfoldable pub forward : MailRecord → Forwarder Q M D → Option (Forwarder Q M D)
  forward email f = offered email f (mpsc.send f.queue email)

  abbrev pub received : Forwarder Q M D → Option (MailRecord × Q) → Option (Forwarder Q M D)
  received f none = none
  received f (some (email, q)) = some (record {
    queue = q;
    queued = f.queued;
    taken = f.taken ++ email ∷ [];
    sent = f.sent ++ sent_before parsers deliver config (forward_email parsers config email) [];
  })

  -- One turn of `while let Some(email) = rx.recv().await`, which waits as long as this is `none`.
  unfoldable pub run_next : Forwarder Q M D → Option (Forwarder Q M D)
  unfolding forward_email build_transport
  run_next f = received f (mpsc.recv f.queue)

  -- The tasks of the connections hand in emails, and that of the forwarder works them off.
  pub data Turns : Forwarder Q M D → Type 0 where
    started : Turns new
    handed :
        {f g : Forwarder Q M D} (email : MailRecord) → Turns f → forward email f ≡ some g → Turns g
    worked : {f g : Forwarder Q M D} → Turns f → run_next f ≡ some g → Turns g
