-- ===== src/Forward.antt =====
-- `forward_email` and `build_transport` of src/forward.rs, up to what is handed to the crate lettre: the
-- message and the transport. Lettre's parsers are an argument; what it makes of the message, and the
-- sending, are not modelled.
pub mod Recipients
pub mod Queue
pub mod Handle
pub mod Delivery
use smtp_sink.Prelude.{
  ℕ, Bool, List, [], ◌∷◌, Option, none, some, ◌⊎◌, inl, inr, unwrap_or, if◌then◌else◌,
}
use smtp_sink.Text.{Text, codes, is_empty}
use smtp_sink.Email.{MailRecord}
use smtp_sink.Sink.{ForwardConfig}

-- `str::parse::<Mailbox>` and `DateTime::parse_from_rfc3339`.
pub record Parsers (M D : Type 0) : Type 0 where
  pub parse_mailbox : Text → Option M
  pub parse_date : Text → Option D

pub data ForwardError : Type 0 where
  invalid_from invalid_recipient : Text → ForwardError
  no_recipients : ForwardError

pub data MailBody : Type 0 where
  alternative : Text → Text → MailBody
  html_body text_body : Text → MailBody
  empty_body : MailBody

pub record Outgoing (M D : Type 0) : Type 0 where
  pub from : M
  pub to : List M
  pub subject : Text
  pub date : Option D
  pub body : MailBody

pub data Prepared (M D : Type 0) : Type 0 where
  prepared : Outgoing M D → Prepared M D
  refused : ForwardError → Prepared M D

unfoldable pub recipients_of : ForwardConfig → MailRecord → List Text
recipients_of config email = elim config.to_override [
  | none ↦ email.to
  | some override_to ↦ override_to ∷ []
]

unfoldable pub body_of : Option Text → Option Text → MailBody
body_of (some html) (some text) = alternative text html
body_of (some html) none = html_body html
body_of none (some text) = text_body text
body_of none none = empty_body

-- The parsed recipients, or the first that does not parse.
unfoldable pub parse_all : {M : Type 0} → (Text → Option M) → List Text → List M ⊎ Text
parse_all parse [] = inl []
parse_all parse (r ∷ rs) =
    let rest = parse_all parse rs in
    elim (parse r) [
      | none ↦ inr r
      | some m ↦ elim rest [ inl ms ↦ inl (m ∷ ms) | inr bad ↦ inr bad ]
    ]

module _ {M D : Type 0} (parsers : Parsers M D) where
  unfoldable pub with_recipients : MailRecord → M → List M ⊎ Text → Prepared M D
  with_recipients email from (inr bad) = refused (invalid_recipient bad)
  with_recipients email from (inl to) = prepared (record {
    from = from;
    to = to;
    subject = unwrap_or email.subject (codes "(no subject)");
    date = parsers.parse_date email.date;
    body = body_of email.html email.text;
  })

  unfoldable pub forward_email : ForwardConfig → MailRecord → Prepared M D
  unfolding with_recipients recipients_of parse_all
  forward_email config email =
      elim (parsers.parse_mailbox (unwrap_or config.from_override email.from)) [
        | none ↦ refused (invalid_from email.from)
        | some from ↦
            if is_empty (recipients_of config email)
            then refused no_recipients
            else with_recipients email from
                (parse_all parsers.parse_mailbox (recipients_of config email))
      ]

pub data Security : Type 0 where
  implicit starttls opportunistic : Security

pub record Transport : Type 0 where
  pub host : Text
  pub port : ℕ
  pub security : Security
  pub credentials : Option (Text × Text)

unfoldable pub credentials_of : Option Text → Option Text → Option (Text × Text)
credentials_of (some user) (some pass) = some (user, pass)
credentials_of _ _ = none

unfoldable pub build_transport : ForwardConfig → Transport
unfolding credentials_of
build_transport config = record {
  host = config.host;
  port = config.port;
  security =
      if config.implicit_tls then implicit else if config.tls then starttls else opportunistic;
  credentials = credentials_of config.username config.password;
}

module _ {M D : Type 0} (parsers : Parsers M D) (send : Transport → Outgoing M D → Bool) where
  -- The outcome of `forward_email` for one email, in front of what is sent for the rest. `send` tells
  -- whether lettre builds the transport and the message, and delivers it.
  abbrev pub sent_before : ForwardConfig → Prepared M D → List (Outgoing M D) → List (Outgoing M D)
  sent_before config (refused e) rest = rest
  sent_before config (prepared m) rest = if send (build_transport config) m then m ∷ rest else rest

  -- `Forwarder::run`: the messages that are sent for the emails of the queue. An error is only logged.
  unfoldable pub run : ForwardConfig → List MailRecord → List (Outgoing M D)
  unfolding forward_email build_transport
  run config [] = []
  run config (e ∷ es) = sent_before config (forward_email parsers config e) (run config es)
