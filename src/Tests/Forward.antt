-- ===== src/Tests/Forward.antt =====
-- The theorem on forwarded messages, at a concrete input.
use smtp_sink.Prelude.{
  ℕ, ap, zero, suc, ◌≤◌, ◌≡◌, length-append, is_some, List, ltb, length, if◌then◌else◌, arith, ◌++◌,
  true, Has, not, Bool, refl, some, none, [], ◌∷◌, false,
}
use smtp_sink.Text.{Text, codes, is_empty}
use smtp_sink.Email.{MailRecord}
use smtp_sink.Sink.{ForwardConfig}
use smtp_sink.Forward.{Parsers, Outgoing, prepared, empty_body, Transport, run, forward_email}
use smtp_sink.Forward.Recipients.{IsAddressed, forward_email-IsAddressed}
use smtp_sink.Forward.Delivery.{run_data-run}
use smtp_sink.Forward.Handle.{
  Mpsc, IsMpsc, Forwarder, Turns, started, handed, new, offered, forward, run_next,
}
use smtp_sink.Forward.Handle.Bounded.{Works, Turns-Works, forward_waits}
use smtp_sink.Smtp.Session.{SmtpConfig}
use smtp_sink.Smtp.Conn.{Conn}
use smtp_sink.Smtp.Command.{run_data}
use smtp_sink.Smtp.Message.{parse_email}
use smtp_sink.Store.Memory.{MemoryStore}
use smtp_sink.Tests.Setup.{email_of, ext, storage, open_config, conn}

abbrev parsers : Parsers Text Text
parsers = record { parse_mailbox = some; parse_date = λ t. none }

abbrev to_boss : ForwardConfig
to_boss = record {
  host = codes "h";
  port = 587;
  tls = false;
  implicit_tls = false;
  username = none;
  password = none;
  to_override = some (codes "boss@x");
  from_override = none;
}

abbrev sent : Outgoing Text Text
sent = record {
  from = codes "Ann@x";
  to = codes "boss@x" ∷ [];
  subject = codes "(no subject)";
  date = none;
  body = empty_body;
}

forward_email-IsAddressed_example : IsAddressed parsers to_boss (email_of "1") sent
unfolding forward_email smtp_sink.Forward.body_of
forward_email-IsAddressed_example = forward_email-IsAddressed parsers to_boss (email_of "1") refl

-- A transport that takes no message without a recipient.
abbrev send : Transport → Outgoing Text Text → Bool
send transport m = not (is_empty m.to)

abbrev forwarding : SmtpConfig
forwarding = record open_config { forward_handle = true }

abbrev sent_on : Outgoing Text Text
sent_on = record sent { from = codes "a@x" }

abbrev before_data : Conn MemoryStore
before_data = conn (codes "hi\r\n" ∷ codes ".\r\n" ∷ [])

run_data-run_example : Has sent_on (
    run parsers send to_boss
      ((run_data storage ext forwarding before_data).1.forwarded ++ email_of "2" ∷ []))
unfolding smtp_sink.Smtp.Data.read_lines smtp_sink.Utf8.from_utf8 smtp_sink.Text.text_eq
    smtp_sink.Text.trim smtp_sink.Text.is_whitespace smtp_sink.Utf8.as_bytes
    smtp_sink.Text.starts_with forward_email smtp_sink.Forward.body_of parse_email
run_data-run_example =
    run_data-run storage ext forwarding parsers send to_boss 5 before_data (email_of "2" ∷ []) refl
      refl refl refl refl refl refl refl

-- A channel as its bound and what it holds.
abbrev Queue : Type 0
Queue = ℕ × List MailRecord

abbrev mpsc : Mpsc Queue
mpsc = record {
  channel = λ n. (n, []);
  send = λ (n, es) e. if ltb (length es) n then some (n, es ++ e ∷ []) else none;
  recv = λ (n, es). elim es [ [] ↦ none | e ∷ rest ↦ some (e, (n, rest)) ];
}

unfoldable mpsc-IsMpsc : IsMpsc mpsc
mpsc-IsMpsc = record {
  held = λ q. q.1;
  bound = λ q. q.0;
  channels = λ n. (refl, refl);
  sends = λ q e h. ((q.0, q.1 ++ e ∷ []), ground arith, refl, refl);
  full = λ q e h. ground arith;
  receives = λ q e es h. ((q.0, es), rw h refl, refl, refl);
  waits = λ q h. rw h refl;
}

abbrev handed_one : Forwarder Queue Text Text
handed_one = record {
  queue = (100, email_of "1" ∷ []);
  queued = email_of "1" ∷ [];
  taken = [];
  sent = [];
}

one_handed : Turns mpsc parsers send to_boss handed_one
unfolding new forward
one_handed = handed (email_of "1") started refl

Turns-Works_example : Works parsers send to_boss mpsc-IsMpsc handed_one
Turns-Works_example = Turns-Works parsers send to_boss mpsc-IsMpsc one_handed

-- So many copies of an email.
abbrev copies : ℕ → List MailRecord
copies zero = []
copies (suc n) = copies n ++ email_of "1" ∷ []

length-copies : (n : ℕ) → length (copies n) ≡ n
length-copies zero = refl
length-copies (suc n) = omega (arith, length-copies n, length-append (copies n) (email_of "1" ∷ []))

abbrev holding : ℕ → Forwarder Queue Text Text
holding n = record { queue = (100, copies n); queued = copies n; taken = []; sent = [] }

send_room :
    (n : ℕ) → suc n ≤ 100 → mpsc.send (100, copies n) (email_of "1") ≡ some (100, copies (suc n))
send_room n h =
    let room : ltb (length (copies n)) 100 ≡ true = ground (arith, length-copies n) in rw room refl

has_room :
    (n : ℕ)
    → suc n ≤ 100
    → forward mpsc parsers send to_boss (email_of "1") (holding n) ≡ some (holding (suc n))
unfolding forward
has_room n h = ap (offered mpsc parsers send to_boss (email_of "1") (holding n)) (send_room n h)

hundred_handed : (n : ℕ) → n ≤ 100 → Turns mpsc parsers send to_boss (holding n)
unfolding new
hundred_handed zero h = started
hundred_handed (suc n) h =
    handed (email_of "1") (hundred_handed n (omega (arith, h))) (has_room n h)

no_room : forward mpsc parsers send to_boss (email_of "2") (holding 100) ≡ none
unfolding forward mpsc-IsMpsc
no_room =
    ap (offered mpsc parsers send to_boss (email_of "2") (holding 100))
      (mpsc-IsMpsc.full (100, copies 100) (email_of "2") (omega (arith, length-copies 100)))

forward_waits_example :
    (g : Forwarder Queue Text Text) × (run_next mpsc parsers send to_boss (holding 100) ≡ some g)
    × (is_some (forward mpsc parsers send to_boss (email_of "2") g) ≡ true)
forward_waits_example =
    forward_waits parsers send to_boss mpsc-IsMpsc (email_of "2") (hundred_handed 100 (omega arith))
      no_room
