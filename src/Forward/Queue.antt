-- ===== src/Forward/Queue.antt =====
-- What the task of the forwarder makes of its queue.
use smtp_sink.Prelude.{
  ◌∙◌, ap, subst, ◌≡◌, ◌↔◌, ◌⊎◌, refl, inl, inr, Bool, true, List, [], ◌∷◌, Has, Bool-cases,
}
use smtp_sink.Email.{MailRecord}
use smtp_sink.Sink.{ForwardConfig}
use smtp_sink.Forward.{
  Parsers, Outgoing, Prepared, prepared, refused, Transport, forward_email, build_transport, run,
  sent_before,
}

module _ {M D : Type 0} (parsers : Parsers M D) (send : Transport → Outgoing M D → Bool)
    (config : ForwardConfig) where
  -- An email of the queue whose message is this one, and is sent.
  abbrev pub Sends : List MailRecord → Outgoing M D → Type 0
  Sends es m =
      (e : MailRecord) × Has e es
      × (forward_email parsers config e ≡ prepared m)
      × (send (build_transport config) m ≡ true)

  in_rest :
      (p : Prepared M D) (m : Outgoing M D) (rest : List (Outgoing M D))
      → Has m rest
      → Has m (sent_before parsers send config p rest)
  in_rest (refused e) m rest h = h
  in_rest (prepared x) m rest h = elim (Bool-cases (send (build_transport config) x)) [
    | inl e ↦ rw e (inr h)
    | inr e ↦ rw e h
  ]

  of_sent :
      (p : Prepared M D) (m : Outgoing M D) (rest : List (Outgoing M D))
      → Has m (sent_before parsers send config p rest)
      → ((p ≡ prepared m) × (send (build_transport config) m ≡ true)) ⊎ Has m rest
  of_sent (refused e) m rest h = inr h
  of_sent (prepared x) m rest h = elim (Bool-cases (send (build_transport config) x)) [
    | inl e ↦ elim (rw e at h) [
      | inl k ↦ inl (ap prepared k, subst (λ y. send (build_transport config) y ≡ true) k e)
      | inr k ↦ inr k
    ]
    | inr e ↦ inr (rw e at h)
  ]

  sent_first :
      (p : Prepared M D) (m : Outgoing M D) (rest : List (Outgoing M D))
      → p ≡ prepared m
      → send (build_transport config) m ≡ true
      → Has m (sent_before parsers send config p rest)
  sent_first p m rest h k = rw (h, k) (inl refl)

  -- The forwarder goes on behind a message that is refused or that cannot be sent: it sends exactly the
  -- messages of those emails of its queue whose message can be made and is taken by the transport.
  pub run_iff :
      (es : List MailRecord) (m : Outgoing M D) → Has m (run parsers send config es) ↔ Sends es m
  unfolding run
  run_iff [] m = (λ h. absurd h, λ h. absurd h.1)
  run_iff (e ∷ es) m = (
    λ h. elim (of_sent (forward_email parsers config e) m (run parsers send config es) h) [
      | inl k ↦ (e, inl refl, k.0, k.1)
      | inr k ↦ let (x, i, p, s) = (run_iff es m).0 k in (x, inr i, p, s)
    ],
    λ (x, i, p, s). elim i [
      | inl k ↦ sent_first _ m _ (ap (forward_email parsers config) k ∙ p) s
      | inr k ↦ in_rest (forward_email parsers config e) m _ ((run_iff es m).1 (x, k, p, s))
    ],
  )
