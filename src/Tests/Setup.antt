-- ===== src/Tests/Setup.antt =====
-- The stores, the configurations and the messages that the tests run on.
use smtp_sink.Prelude.{ℕ, true, false, List, [], ◌∷◌, ◌+◌, none, some, String}
use smtp_sink.Text.{Bytes, codes}
use smtp_sink.Text.Case.{CaseTables}
use smtp_sink.Email.{Attachment, MailRecord}
use smtp_sink.Store.{EmailStorage}
use smtp_sink.Store.Memory.{MemoryStore}
use smtp_sink.Store.Memory.Interface.{memory_storage}
use smtp_sink.Smtp.Session.{SmtpConfig, Session, idle}
use smtp_sink.Smtp.Message.{External, Stamp}
use smtp_sink.Smtp.Conn.{Conn}

abbrev pub tables : CaseTables
tables = record { upper = λ c. c ∷ []; lower = λ t. t }

abbrev pub stamp_of : ℕ → Stamp
stamp_of n = record {
  millis = codes "1700000000000";
  uuid = (n + 48) ∷ [];
  now = codes "2024-01-01T00:00:00+00:00";
  attachment_uuid = λ i. (i + 48) ∷ [];
}

-- A decoder that refuses every text, and a parser that finds no message.
abbrev pub ext : External
ext = record {
  tables = tables;
  base64_decode = λ t. none;
  parse_message = λ raw. none;
  rfc3339 = λ d. none;
  stamp = stamp_of;
}

abbrev pub open_config : SmtpConfig
open_config = record {
  whitelist = [];
  tls_acceptor = true;
  auth_required = false;
  auth_username = none;
  auth_password = none;
  forward_handle = false;
}

abbrev pub closed_config : SmtpConfig
closed_config = record open_config { auth_required = true }

abbrev pub storage : EmailStorage MemoryStore
storage = memory_storage tables

abbrev pub report : Attachment
report = record {
  filename = codes "report.txt";
  content_type = codes "text/plain";
  size = 2;
  content_id = none;
  content = codes "ok";
}

abbrev pub email_of : String → MailRecord
email_of id = record {
  id = codes id;
  to = codes "bob@x" ∷ [];
  from = codes "Ann@x";
  subject = none;
  text = none;
  html = none;
  date = codes "2024-01-01";
  headers = [];
  attachments = report ∷ [];
  raw = [];
}

abbrev pub two_emails : MemoryStore
two_emails = record { max = 2; emails = email_of "1" ∷ email_of "2" ∷ []; notified = 2 }

abbrev pub empty_store : MemoryStore
empty_store = record { max = 2; emails = []; notified = 0 }

abbrev pub ready : Session
ready = record {
  mail_from = some (codes "a@x");
  rcpt_to = codes "b@x" ∷ [];
  authenticated = false;
  auth_required = false;
  tls_active = false;
  auth_state = idle;
}

abbrev pub conn : List Bytes → Conn MemoryStore
conn input = record {
  session = ready;
  input = input;
  output = [];
  room = 9;
  store = empty_store;
  forwarded = [];
  accepted = 0;
}
