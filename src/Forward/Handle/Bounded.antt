-- ===== src/Forward/Handle/Bounded.antt =====
-- What waits in the queue of the forwarder in src/forward.rs, and what becomes of it.
use smtp_sink.Prelude.{
  suc, ◌≤◌, ◌<◌, ◌≡◌, ◌∙◌, inl, inr, refl, sym, ap, subst, List, [], ◌∷◌, ◌++◌, none, some, Bool,
  length, arith, append_assoc, length-append, some-ne-none, of_some, Bool-cases, ltb, is_some, true,
}
use smtp_sink.Email.{MailRecord}
use smtp_sink.Sink.{ForwardConfig}
use smtp_sink.Forward.{
  Parsers, Outgoing, Prepared, prepared, refused, Transport, forward_email, run, sent_before,
  build_transport,
}
use smtp_sink.Forward.Handle
use smtp_sink.Forward.Handle.{Mpsc, IsMpsc, Forwarder}

module _ {M D : Type 0} (parsers : Parsers M D) (deliver : Transport → Outgoing M D → Bool)
    (config : ForwardConfig) where
  run-append :
      (es ds : List MailRecord)
      → run parsers deliver config (es ++ ds)
        ≡ run parsers deliver config es ++ run parsers deliver config ds
  unfolding run
  run-append [] ds = refl
  run-append (e ∷ es) ds =
      ap (sent_before parsers deliver config (forward_email parsers config e)) (run-append es ds)
      ∙ before-append (forward_email parsers config e) (run parsers deliver config es)
          (run parsers deliver config ds)
    where
      before-append :
          (p : Prepared M D) (xs ys : List (Outgoing M D))
          → sent_before parsers deliver config p (xs ++ ys)
            ≡ sent_before parsers deliver config p xs ++ ys
      before-append (refused e) xs ys = refl
      before-append (prepared m) xs ys = elim (Bool-cases (deliver (build_transport config) m)) [
        | inl h ↦ rw h refl
        | inr h ↦ rw h refl
      ]

  module _ {Q : Type 0} {mpsc : Mpsc Q} (law : IsMpsc mpsc) where
    -- What was handed in and not taken yet waits in its order, within the bound, and what was sent is
    -- what `run` makes of what was taken.
    pub record Works (f : Forwarder Q M D) : Type 0 where
      pub order : f.queued ≡ f.taken ++ law.held f.queue
      pub within : length (law.held f.queue) ≤ 100
      pub bound : law.bound f.queue ≡ 100
      pub sends : f.sent ≡ run parsers deliver config f.taken

    new-Works : Works (Handle.new mpsc parsers deliver config)
    unfolding Handle.new run
    new-Works =
        let (empty, size) = law.channels 100 in
        record {
          order = sym empty;
          within = omega (arith, ap length empty);
          bound = size;
          sends = refl;
        }

    forward-Works :
        (email : MailRecord) (f g : Forwarder Q M D)
        → Works f
        → Handle.forward mpsc parsers deliver config email f ≡ some g
        → Works g
    unfolding Handle.forward
    forward-Works email f g w h = elim (Bool-cases (ltb (length (law.held f.queue)) 100)) [
      | inr no_room ↦
          let b = w.bound in
          absurd
            (some-ne-none (sym (rw (Handle.forward, law.full f.queue email (ground arith)) at h)))
      | inl room ↦
          let b = w.bound in
          let (q, runs, holds, size) = law.sends f.queue email (ground arith) in
          subst Works (of_some (rw (Handle.forward, runs) at h)) (record {
            order =
                ap (λ l. l ++ email ∷ []) w.order
                ∙ append_assoc f.taken (law.held f.queue) (email ∷ [])
                ∙ ap (λ l. f.taken ++ l) (sym holds);
            within = ground (arith, ap length holds, length-append (law.held f.queue) (email ∷ []));
            bound = size ∙ w.bound;
            sends = w.sends;
          })
    ]

    run_next-Works :
        (f g : Forwarder Q M D) (es : List MailRecord)
        → law.held f.queue ≡ es
        → Works f
        → Handle.run_next mpsc parsers deliver config f ≡ some g
        → Works g
    unfolding Handle.run_next run
    run_next-Works f g [] e w h =
        absurd (some-ne-none (sym (rw (Handle.run_next, law.waits f.queue e) at h)))
    run_next-Works f g (email ∷ es) e w h =
        let (q, runs, holds, size) = law.receives f.queue email es e in
        subst Works (of_some (rw (Handle.run_next, runs) at h)) (record {
          order =
              w.order
              ∙ ap (λ l. f.taken ++ l) (e ∙ ap (◌∷◌ email) (sym holds))
              ∙ sym (append_assoc f.taken (email ∷ []) (law.held q));
          within = omega (arith, ap length e, ap length holds, w.within);
          bound = size ∙ w.bound;
          sends =
              ap (λ l. l ++ run parsers deliver config (email ∷ [])) w.sends
              ∙ sym (run-append f.taken (email ∷ []));
        })

    -- With a channel that does what its documentation says: whatever the tasks do, in whatever order,
    -- no more than 100 emails wait; those that wait are those that were handed in and not taken, in the
    -- order in which they came; and the messages that were sent are those that `run` sends for the
    -- emails that were taken.
    pub Turns-Works : {f : Forwarder Q M D} → Handle.Turns mpsc parsers deliver config f → Works f
    Turns-Works Handle.started = new-Works
    Turns-Works (Handle.handed {f} {g} email t h) = forward-Works email f g (Turns-Works t) h
    Turns-Works (Handle.worked {f} {g} t h) =
        run_next-Works f g (law.held f.queue) refl (Turns-Works t) h

    takes_one :
        (f : Forwarder Q M D) (es : List MailRecord)
        → law.held f.queue ≡ es
        → 100 ≤ length es
        → (g : Forwarder Q M D) × (Handle.run_next mpsc parsers deliver config f ≡ some g)
          × (law.bound g.queue ≡ law.bound f.queue)
          × (suc (length (law.held g.queue)) ≡ length es)
    unfolding Handle.run_next
    takes_one f [] e h = absurd (omega (arith, h))
    takes_one f (email ∷ es) e h =
        let (q, runs, holds, size) = law.receives f.queue email es e in
        (
          _,
          ap (Handle.received mpsc parsers deliver config f) runs,
          size,
          ap (λ l. suc (length l)) holds,
        )

    forward_room :
        (email : MailRecord) (f : Forwarder Q M D)
        → length (law.held f.queue) < law.bound f.queue
        → is_some (Handle.forward mpsc parsers deliver config email f) ≡ true
    unfolding Handle.forward
    forward_room email f h =
        let (q, runs, holds, size) = law.sends f.queue email h in rw (is_some, runs) refl

    -- With a channel that does what its documentation says: where a connection must wait with its
    -- email, the forwarder can go on, and once it has taken the next email there is room.
    pub forward_waits :
        (email : MailRecord) {f : Forwarder Q M D}
        → Handle.Turns mpsc parsers deliver config f
        → Handle.forward mpsc parsers deliver config email f ≡ none
        → (g : Forwarder Q M D) × (Handle.run_next mpsc parsers deliver config f ≡ some g)
          × (is_some (Handle.forward mpsc parsers deliver config email g) ≡ true)
    forward_waits email {f} t h = elim (Bool-cases (ltb (length (law.held f.queue)) 100)) [
      | inl room ↦
          let w = Turns-Works t in
          let b = w.bound in
          let k = forward_room email f (ground (arith, b)) in absurd (cc (ap is_some h, k))
      | inr no_room ↦
          let w = Turns-Works t in
          let b = w.bound in
          let (g, runs, size, left) = takes_one f (law.held f.queue) refl (ground arith) in
          (g, runs, forward_room email g (omega (arith, size, b, left, w.within)))
    ]
