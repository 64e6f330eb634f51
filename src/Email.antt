-- ===== src/Email.antt =====
-- src/email.rs: the records that a store holds. The headers are the entries of a hash map.
use smtp_sink.Prelude.{ℕ, Bool, List, Option}
use smtp_sink.Text.{Text, Bytes, text_eq}

pub record Attachment : Type 0 where
  pub filename : Text
  pub content_type : Text
  pub size : ℕ
  pub content_id : Option Text
  pub content : Bytes

pub record MailRecord : Type 0 where
  pub id : Text
  pub to : List Text
  pub from : Text
  pub subject : Option Text
  pub text : Option Text
  pub html : Option Text
  pub date : Text
  pub headers : List (Text × Text)
  pub attachments : List Attachment
  pub raw : Bytes

-- The test of the searches by id, `|e| e.id == id`.
abbrev pub has_id : Text → MailRecord → Bool
has_id id e = text_eq e.id id
