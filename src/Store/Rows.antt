-- ===== src/Store/Rows.antt =====
-- The two tables of src/sqlite_store.rs: their rows, the statements that the program gives the engine,
-- and how rows and emails become each other. The engine is foreign: it is a record of the statements,
-- whose parameters are those that the program binds; `none` is an error of rusqlite. So is the JSON of
-- serde. A row has the types of its columns: what another program wrote is left out.

use smtp_sink.Prelude.{ℕ, List, [], ◌∷◌, ◌++◌, Option, none, some, unwrap_or}
use smtp_sink.Text.{Text, Bytes, codes}
use smtp_sink.Email.{Attachment, MailRecord}
use smtp_sink.Store.Defs.{EmailQuery}

-- The columns of the table `emails` that the program writes and reads.
pub record EmailRow : Type 0 where
  pub id : Text
  pub from_addr : Text
  pub to_addrs : Text
  pub subject : Option Text
  pub text_body : Option Text
  pub html_body : Option Text
  pub date : Text
  pub headers : Text
  pub raw : Bytes

-- The columns of the table `attachments`.
pub record AttachmentRow : Type 0 where
  pub email_id : Text
  pub filename : Text
  pub content_type : Text
  pub content_id : Option Text
  pub content : Bytes
  pub size : ℕ

-- The tests behind `WHERE 1=1`, with their parameters.
pub data Condition : Type 0 where
  from_like to_like subject_like date_ge date_le : Text → Condition

-- The statements, in the order of the source.
pub record Engine (D : Type 0) : Type 0 where
  pub count_emails : D → Option ℕ
  pub delete_oldest : D → ℕ → Option D
  pub select_attachments : D → Text → Option (List AttachmentRow)
  pub insert_email : D → EmailRow → Option D
  pub insert_attachment : D → AttachmentRow → Option D
  pub select_email : D → Text → Option (List EmailRow)
  pub select_emails : D → List Condition → Option (List EmailRow)
  pub select_named : D → Text → Text → Option (List AttachmentRow)
  pub select_cid : D → Text → Text → Option (List AttachmentRow)
  pub delete_emails : D → Option D
  pub delete_email : D → Text → Option (ℕ × D)
  pub checkpoint : D → Option D

pub record Json : Type 0 where
  pub write_texts : List Text → Option Text
  pub read_texts : Text → Option (List Text)
  pub write_headers : List (Text × Text) → Option Text
  pub read_headers : Text → Option (List (Text × Text))

-- `if let Some(ref value) = field { … }`
abbrev pub asked : (Text → Condition) → Option Text → List Condition
asked condition none = []
asked condition (some value) = condition value ∷ []

-- `format!("%{value}%")`
abbrev pub anywhere : Text → Text
anywhere value = codes "%" ++ (value ++ codes "%")

unfoldable pub conditions_of : EmailQuery → List Condition
conditions_of q =
    asked (λ v. from_like (anywhere v)) q.from
    ++ (asked (λ v. to_like (anywhere v)) q.to
        ++ (asked (λ v. subject_like (anywhere v)) q.subject
            ++ (asked date_ge q.since ++ asked date_le q.until)))

unfoldable pub attachment_of_row : AttachmentRow → Attachment
attachment_of_row r = record {
  filename = r.filename;
  content_type = r.content_type;
  size = r.size;
  content_id = r.content_id;
  content = r.content;
}

unfoldable pub attachments_of_rows : List AttachmentRow → List Attachment
unfolding attachment_of_row
attachments_of_rows [] = []
attachments_of_rows (r ∷ rs) = attachment_of_row r ∷ attachments_of_rows rs

unfoldable pub row_of_attachment : Text → Attachment → AttachmentRow
row_of_attachment email_id a = record {
  email_id = email_id;
  filename = a.filename;
  content_type = a.content_type;
  content_id = a.content_id;
  content = a.content;
  size = a.size;
}

module _ (json : Json) where
  unfoldable pub row_to_record : EmailRow → MailRecord
  row_to_record r = record {
    id = r.id;
    to = unwrap_or (json.read_texts r.to_addrs) [];
    from = r.from_addr;
    subject = r.subject;
    text = r.text_body;
    html = r.html_body;
    date = r.date;
    headers = unwrap_or (json.read_headers r.headers) [];
    attachments = [];
    raw = r.raw;
  }

  unfoldable pub row_of : MailRecord → EmailRow
  row_of e = record {
    id = e.id;
    from_addr = e.from;
    to_addrs = unwrap_or (json.write_texts e.to) [];
    subject = e.subject;
    text_body = e.text;
    html_body = e.html;
    date = e.date;
    headers = unwrap_or (json.write_headers e.headers) [];
    raw = e.raw;
  }
