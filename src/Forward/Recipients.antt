-- ===== src/Forward/Recipients.antt =====
-- Whom a forwarded message goes to.
use smtp_sink.Prelude.{
  ◌≡◌, false, List, [], ◌∷◌, Option, none, some, ◌⊎◌, inl, inr, unwrap_or, Bool-cases, Option-cases,
  refl, sym, ap, ◌∙◌, subst,
}
use smtp_sink.Text.{Text, is_empty}
use smtp_sink.Email.{MailRecord}
use smtp_sink.Sink.{ForwardConfig}
use smtp_sink.Forward.{
  Parsers, Outgoing, Prepared, prepared, refused, recipients_of, parse_all, with_recipients,
  forward_email,
}

module _ {M : Type 0} (parse : Text → Option M) where
  -- The mailboxes are what the texts parse to, one by one.
  abbrev pub Reads : List Text → List M → Type 0
  Reads [] [] = Unit
  Reads (r ∷ rs) (m ∷ ms) = (parse r ≡ some m) × Reads rs ms
  Reads _ _ = ⊥

  abbrev ReadsAll : List Text → List M ⊎ Text → Type 0
  ReadsAll rs (inl ms) = Reads rs ms
  ReadsAll rs (inr bad) = Unit

  more-ReadsAll :
      (r : Text) (rs : List Text) (m : M) (rest : List M ⊎ Text)
      → parse r ≡ some m
      → ReadsAll rs rest
      → ReadsAll (r ∷ rs) (elim rest [ inl ms ↦ inl (m ∷ ms) | inr bad ↦ inr bad ])
  more-ReadsAll r rs m (inl ms) e h = (e, h)
  more-ReadsAll r rs m (inr bad) e h = tt

  parse_all-ReadsAll : (rs : List Text) → ReadsAll rs (parse_all parse rs)
  unfolding parse_all
  parse_all-ReadsAll [] = tt
  parse_all-ReadsAll (r ∷ rs) = elim (Option-cases (parse r)) [
    | inl e ↦ rw (e, ReadsAll) tt
    | inr (m, e) ↦
        rw (e, ReadsAll) (more-ReadsAll r rs m (parse_all parse rs) e (parse_all-ReadsAll rs))
  ]

-- Whom a message is to go to: the configured recipient alone, or else all of the email.
abbrev pub wanted : Option Text → List Text → List Text
wanted none to = to
wanted (some one) to = one ∷ []

-- The message has the sender, and goes to the recipients, that the configuration and the email ask for.
pub record IsAddressed {M D : Type 0} (parsers : Parsers M D) (config : ForwardConfig)
    (email : MailRecord) (m : Outgoing M D) : Type 0 where
  pub sender : parsers.parse_mailbox (unwrap_or config.from_override email.from) ≡ some m.from
  pub some_recipient : is_empty (wanted config.to_override email.to) ≡ false
  pub recipients : Reads parsers.parse_mailbox (wanted config.to_override email.to) m.to

module _ {M D : Type 0} (parsers : Parsers M D) (config : ForwardConfig) (email : MailRecord) where
  recipients_of-wanted : recipients_of config email ≡ wanted config.to_override email.to
  unfolding recipients_of
  recipients_of-wanted = elim (Option-cases config.to_override) [
    | inl e ↦ rw e refl
    | inr (one, e) ↦ rw e refl
  ]

  abbrev Good : Prepared M D → Type 0
  Good (prepared m) = IsAddressed parsers config email m
  Good (refused e) = Unit

  with_recipients-Good :
      (from : M) (ms : List M ⊎ Text)
      → parsers.parse_mailbox (unwrap_or config.from_override email.from) ≡ some from
      → is_empty (recipients_of config email) ≡ false
      → ReadsAll parsers.parse_mailbox (recipients_of config email) ms
      → Good (with_recipients parsers email from ms)
  unfolding with_recipients
  with_recipients-Good from (inr bad) e n h = tt
  with_recipients-Good from (inl ms) e n h = record {
    sender = e;
    some_recipient = ap is_empty (sym recipients_of-wanted) ∙ n;
    recipients = subst (λ to. Reads parsers.parse_mailbox to ms) recipients_of-wanted h;
  }

  forward_email-Good : Good (forward_email parsers config email)
  unfolding forward_email
  forward_email-Good =
      elim (Option-cases (parsers.parse_mailbox (unwrap_or config.from_override email.from))) [
        | inl e ↦ rw (e, forward_email) tt
        | inr (from, e) ↦ elim (Bool-cases (is_empty (recipients_of config email))) [
          | inl n ↦ rw (e, forward_email, n) tt
          | inr n ↦
              rw (e, forward_email, n)
                (with_recipients-Good from _ e n
                  (parse_all-ReadsAll parsers.parse_mailbox (recipients_of config email)))
        ]
      ]

  -- A message that is forwarded has the configured sender, or else that of the email, and goes to the
  -- configured recipient alone, or else to all of the email, in order; there is at least one.
  pub forward_email-IsAddressed :
      {m : Outgoing M D}
      → forward_email parsers config email ≡ prepared m
      → IsAddressed parsers config email m
  forward_email-IsAddressed {m} e = rw e at forward_email-Good
