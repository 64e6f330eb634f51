-- ===== src/Smtp/Message.antt =====
-- `parse_email` of src/smtp.rs. The message is what the crate mail_parser reads from the bytes; its
-- parser, the clock and the random ids are arguments.
pub mod Parsed
use smtp_sink.Prelude.{
  ℕ, suc, Bool, ◌&&◌, ◌||◌, List, [], ◌∷◌, ◌++◌, Option, none, some, length, unwrap_or,
  if◌then◌else◌, ◌==◌,
}
use smtp_sink.Text.{Text, Bytes, codes, is_empty, text_eq}
use smtp_sink.Text.Case.{CaseTables, to_lowercase}
use smtp_sink.Email.{Attachment, MailRecord}
use smtp_sink.Smtp.Session.{Session}

-- Seconds from the epoch.
pub data Timestamp : Type 0 where
  since_epoch before_epoch : ℕ → Timestamp

-- The parts of `mail_parser::Message` that the program asks for.
pub record Addr : Type 0 where
  pub name : Option Text
  pub address : Option Text

pub record ContentType : Type 0 where
  pub ctype : Text
  pub subtype : Option Text

pub record Part : Type 0 where
  pub attachment_name : Option Text
  pub content_type : Option ContentType
  pub content_id : Option Text
  pub contents : Bytes

pub record Header : Type 0 where
  pub name : Text
  pub value_text : Option Text

pub record Message : Type 0 where
  pub from : Option (List Addr)
  pub to : Option (List Addr)
  pub subject : Option Text
  pub body_text : Option Text
  pub body_html : Option Text
  pub date : Option Timestamp
  pub headers : List Header
  pub attachments : List Part

-- The clock and the random ids, as they are when one email is read.
pub record Stamp : Type 0 where
  pub millis : Text
  pub uuid : Text
  pub now : Text
  pub attachment_uuid : ℕ → Text

-- What the program takes from elsewhere: the Unicode tables, the crates base64, mail_parser and
-- chrono (a date out of its range is `none`), and the stamp of the n-th email of a connection.
pub record External : Type 0 where
  pub tables : CaseTables
  pub base64_decode : Text → Option Bytes
  pub parse_message : Bytes → Option Message
  pub rfc3339 : Timestamp → Option Text
  pub stamp : ℕ → Stamp

unfoldable pub display_address : Addr → Text
display_address a = elim a.name [
  | none ↦ unwrap_or a.address []
  | some name ↦ name ++ (codes " <" ++ (unwrap_or a.address [] ++ codes ">"))
]

-- `.or_else(|| session.mail_from.clone()).unwrap_or_else(|| "unknown".to_string())`
abbrev pub sender_or_unknown : Option Text → Text
sender_or_unknown mail_from = unwrap_or mail_from (codes "unknown")

unfoldable pub from_of : Option (List Addr) → Session → Text
unfolding display_address
from_of none session = sender_or_unknown session.mail_from
from_of (some []) session = sender_or_unknown session.mail_from
from_of (some (a ∷ as')) session = display_address a

-- `filter_map(|a| a.address().map(String::from))`
unfoldable pub addresses : List Addr → List Text
addresses [] = []
addresses (a ∷ as') = let rest = addresses as' in elim a.address [ none ↦ rest | some t ↦ t ∷ rest ]

unfoldable pub to_of : Option (List Addr) → Session → List Text
unfolding addresses
to_of none session = session.rcpt_to
to_of (some list) session = if is_empty (addresses list) then session.rcpt_to else addresses list

unfoldable pub date_of : External → Stamp → Option Timestamp → Text
date_of ext st none = st.now
date_of ext st (some d) = unwrap_or (ext.rfc3339 d) st.now

-- `HashMap::insert`, on the entries.
unfoldable pub insert_header : Text → Text → List (Text × Text) → List (Text × Text)
insert_header k v [] = (k, v) ∷ []
insert_header k v ((j, w) ∷ m) =
    let rest = insert_header k v m in if text_eq j k then (k, v) ∷ m else (j, w) ∷ rest

-- `collect` into the hash map: a later header of the same name replaces an earlier one.
unfoldable pub collect_headers : CaseTables → List Header → List (Text × Text) → List (Text × Text)
unfolding insert_header
collect_headers u [] m = m
collect_headers u (h ∷ hs) m =
    collect_headers u hs
      (elim h.value_text [ none ↦ m | some v ↦ insert_header (to_lowercase u h.name) v m ])

abbrev is_bracket : ℕ → Bool
is_bracket c = c == b'<' || c == b'>'

unfoldable pub trim_brackets_start : Text → Text
trim_brackets_start [] = []
trim_brackets_start (c ∷ cs) =
    let rest = trim_brackets_start cs in if is_bracket c then rest else c ∷ cs

unfoldable pub trim_brackets_end : Text → Text
trim_brackets_end [] = []
trim_brackets_end (c ∷ cs) =
    let rest = trim_brackets_end cs in if is_bracket c && is_empty rest then [] else c ∷ rest

-- `s.trim_matches(['<', '>'])`
abbrev pub trim_brackets : Text → Text
trim_brackets s = trim_brackets_end (trim_brackets_start s)

abbrev pub content_type_of : Option ContentType → Text
content_type_of none = codes "application/octet-stream"
content_type_of (some ct) = elim ct.subtype [
  | none ↦ ct.ctype
  | some subtype ↦ ct.ctype ++ (codes "/" ++ subtype)
]

unfoldable pub attachment_of : Text → Part → Attachment
unfolding trim_brackets_start trim_brackets_end
attachment_of uuid part = record {
  filename = unwrap_or part.attachment_name (codes "attachment_" ++ uuid);
  content_type = content_type_of part.content_type;
  size = length part.contents;
  content_id = elim part.content_id [ none ↦ none | some s ↦ some (trim_brackets s) ];
  content = part.contents;
}

unfoldable pub attachments_of : (ℕ → Text) → ℕ → List Part → List Attachment
unfolding attachment_of
attachments_of uuid i [] = []
attachments_of uuid i (p ∷ ps) = attachment_of (uuid i) p ∷ attachments_of uuid (suc i) ps

abbrev pub record_id : Stamp → Text
record_id st = st.millis ++ (codes "-" ++ st.uuid)

abbrev pub unparsed : Stamp → Bytes → Session → MailRecord
unparsed st raw session = record {
  id = record_id st;
  to = session.rcpt_to;
  from = sender_or_unknown session.mail_from;
  subject = none;
  text = none;
  html = none;
  date = st.now;
  headers = [];
  attachments = [];
  raw = raw;
}

abbrev pub parsed : External → Stamp → Message → Bytes → Session → MailRecord
parsed ext st msg raw session = record {
  id = record_id st;
  to = to_of msg.to session;
  from = from_of msg.from session;
  subject = msg.subject;
  text = msg.body_text;
  html = msg.body_html;
  date = date_of ext st msg.date;
  headers = collect_headers ext.tables msg.headers [];
  attachments = attachments_of st.attachment_uuid 0 msg.attachments;
  raw = raw;
}

unfoldable pub parse_email : External → Stamp → Bytes → Session → MailRecord
unfolding from_of to_of date_of collect_headers attachments_of
parse_email ext st raw session = elim (ext.parse_message raw) [
  | none ↦ unparsed st raw session
  | some msg ↦ parsed ext st msg raw session
]
