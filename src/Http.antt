-- ===== src/Http.antt =====
-- The handlers of src/http.rs. A `Request` names the route that the router has chosen, with the decoded
-- parts of the path; a `Response` holds the status, the headers that the handler sets, and what the
-- body is made of, in front of its encoding as JSON.
pub mod Laws
pub mod Socket
pub mod Watch
pub mod Routes
use smtp_sink.Prelude.{
  ℕ, Bool, ◌||◌, List, [], ◌∷◌, ◌++◌, Option, none, some, is_some, length, if◌then◌else◌,
}
use smtp_sink.Text.{Text, Bytes, codes}
use smtp_sink.Email.{Attachment, MailRecord}
use smtp_sink.Store.{EmailQuery, EmailStorage}

-- What `list_attachments` tells of an attachment.
pub record AttachmentInfo : Type 0 where
  pub filename : Text
  pub content_type : Text
  pub size : ℕ
  pub content_id : Option Text

pub data Body : Type 0 where
  page : Body
  nothing : Body
  message : Text → Body
  health : ℕ → Body
  emails : List MailRecord → Body
  email : MailRecord → Body
  infos : List AttachmentInfo → Body
  raw : Bytes → Body

pub record Response : Type 0 where
  pub status : ℕ
  pub headers : List (Text × Text)
  pub body : Body

pub data Request : Type 0 where
  index health_check delete_all_emails not_found : Request
  get_emails : EmailQuery → Request
  get_email delete_email list_attachments : Text → Request
  get_attachment get_attachment_by_cid : Text → Text → Request

abbrev pub plain : ℕ → Body → Response
plain status body = record { status = status; headers = []; body = body }

abbrev pub email_not_found : Response
email_not_found = plain 404 (message (codes "Email not found"))

abbrev pub attachment_not_found : Response
attachment_not_found = plain 404 (message (codes "Attachment not found"))

unfoldable pub has_query : EmailQuery → Bool
has_query q =
    is_some q.from || is_some q.to || is_some q.subject || is_some q.since || is_some q.until

abbrev pub info_of : Attachment → AttachmentInfo
info_of a = record {
  filename = a.filename;
  content_type = a.content_type;
  size = a.size;
  content_id = a.content_id;
}

unfoldable pub infos_of : List Attachment → List AttachmentInfo
infos_of [] = []
infos_of (a ∷ as') = info_of a ∷ infos_of as'

unfoldable pub email_response : Option MailRecord → Response
email_response none = email_not_found
email_response (some e) = plain 200 (email e)

unfoldable pub infos_response : Option MailRecord → Response
infos_response none = email_not_found
infos_response (some e) = plain 200 (infos (infos_of e.attachments))

-- What the handler hands to axum, which answers 500 in its place where the content type or the file name is
-- no allowed value of a header; `cid_response` is the same.
unfoldable pub attachment_response : Option Attachment → Response
attachment_response none = attachment_not_found
attachment_response (some a) = record {
  status = 200;
  headers =
      (codes "content-type", a.content_type)
      ∷ (codes "content-disposition", codes "attachment; filename=\"" ++ (a.filename ++ codes "\""))
      ∷ [];
  body = raw a.content;
}

unfoldable pub cid_response : Option Attachment → Response
cid_response none = attachment_not_found
cid_response (some a) = record {
  status = 200;
  headers = (codes "content-type", a.content_type) ∷ [];
  body = raw a.content;
}

unfoldable pub delete_response : Bool → Response
delete_response removed = if removed then plain 204 nothing else email_not_found

module _ {S : Type 0} (storage : EmailStorage S) where
  -- The handler of each route: its response, and the state of the backend behind it.
  unfoldable pub serve : Request → S → Response × S
  serve index s = (plain 200 page, s)
  serve health_check s = (plain 200 (health (length (storage.get_all s))), s)
  serve (get_emails params) s = (
    plain 200 (emails (if has_query params then storage.query s params else storage.get_all s)),
    s,
  )
  serve (get_email id) s = (email_response (storage.get_by_id s id), s)
  serve delete_all_emails s = (plain 204 nothing, storage.clear s)
  serve (delete_email id) s = let r = storage.remove s id in (delete_response r.1, r.0)
  serve (list_attachments id) s = (infos_response (storage.get_by_id s id), s)
  serve (get_attachment id filename) s =
      (attachment_response (storage.get_attachment s id filename), s)
  serve (get_attachment_by_cid id cid) s =
      (cid_response (storage.get_attachment_by_cid s id cid), s)
  serve not_found s = (plain 404 (message (codes "Not found")), s)
