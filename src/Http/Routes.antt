-- ===== src/Http/Routes.antt =====
-- The table of routes of `run_http_server` in src/http.rs, and the handler that a request reaches. Which
-- pattern of a table matches a path is axum's part, an argument, and so is the decoding of what it captured.
-- A path is the list of its segments, as they were sent; the query is that of `EmailQueryParams`, where
-- it can be read as one.
pub mod Patterns
pub mod Reached
pub mod Handlers
pub mod Answered
use smtp_sink.Prelude.{
  ℕ, ◌≡◌, refl, Bool, true, false, ◌&&◌, not, List, [], ◌∷◌, Option, none, some, Pairwise,
  if◌then◌else◌, ap, ◌∙◌,
}
use smtp_sink.Text.{Text, codes, text_eq, is_empty}
use smtp_sink.Store.{EmailQuery}
use smtp_sink.Http.{
  Request, index, health_check, delete_all_emails, not_found, get_emails, get_email, delete_email,
  list_attachments, get_attachment, get_attachment_by_cid,
}

pub data Segment : Type 0 where
  literal : Text → Segment
  capture : Segment

pub data Method : Type 0 where
  get head delete other : Method

-- The method routers of the table, by the handlers that they name.
pub data Endpoint : Type 0 where
  serve_index health emails_all email_one attachments attachment cid ws : Endpoint

abbrev pub Route : Type 0
Route = List Segment × Endpoint

-- `Router::new().route(…)`
unfoldable pub routes : List Route
routes =
    ([], serve_index)
    ∷ (literal (codes "index.html") ∷ [], serve_index)
    ∷ (literal (codes "health") ∷ [], health)
    ∷ (literal (codes "emails") ∷ [], emails_all)
    ∷ (literal (codes "emails") ∷ capture ∷ [], email_one)
    ∷ (literal (codes "emails") ∷ capture ∷ literal (codes "attachments") ∷ [], attachments)
    ∷ (
      literal (codes "emails") ∷ capture ∷ literal (codes "attachments") ∷ capture ∷ [],
      attachment,
    )
    ∷ (literal (codes "emails") ∷ capture ∷ literal (codes "cid") ∷ capture ∷ [], cid)
    ∷ (literal (codes "ws") ∷ [], ws)
    ∷ []

-- What a pattern captures of a path that it matches: a literal stands for itself, and `{…}` for any
-- segment that is not empty.
abbrev pub captures_of : List Segment → List Text → Option (List Text)
captures_of [] [] = some []
captures_of [] (s ∷ ss) = none
captures_of (p ∷ ps) [] = none
captures_of (literal t ∷ ps) (s ∷ ss) =
    let rest = captures_of ps ss in if text_eq t s then rest else none
captures_of (capture ∷ ps) (s ∷ ss) =
    let rest = captures_of ps ss in
    if is_empty s then none else elim rest [ none ↦ none | some cs ↦ some (s ∷ cs) ]

-- Two patterns that may match one path.
abbrev pub overlap : List Segment → List Segment → Bool
overlap [] [] = true
overlap [] (q ∷ qs) = false
overlap (p ∷ ps) [] = false
overlap (literal t ∷ ps) (literal s ∷ qs) = let rest = overlap ps qs in text_eq t s && rest
overlap (literal t ∷ ps) (capture ∷ qs) = overlap ps qs
overlap (capture ∷ ps) (q ∷ qs) = overlap ps qs

abbrev pub first_match : List Route → List Text → Option (Endpoint × List Text)
first_match [] path = none
first_match ((p, e) ∷ rs) path =
    let later = first_match rs path in
    elim (captures_of p path) [ none ↦ later | some cs ↦ some (e, cs) ]

-- Where no two patterns of a table overlap, the router gives the one that matches, and none if none does.
abbrev pub IsRouter : (List Route → List Text → Option (Endpoint × List Text)) → Type 0
IsRouter router =
    (table : List Route) (path : List Text)
    → Pairwise (λ r s. overlap r.0 s.0 ≡ false) table
    → router table path ≡ first_match table path

-- `EmailQueryParams`, with its `From`.
pub record EmailQueryParams : Type 0 where
  pub from : Option Text
  pub to : Option Text
  pub subject : Option Text
  pub since : Option Text
  pub until : Option Text

abbrev pub query_of : EmailQueryParams → EmailQuery
query_of p = record {
  from = p.from;
  to = p.to;
  subject = p.subject;
  since = p.since;
  until = p.until;
}

-- A handler, the change to a WebSocket, 400 for a part of the path that cannot be decoded, or 405.
pub data Routed : Type 0 where
  handled : Request → Routed
  upgrade bad_request method_not_allowed : Routed

-- HEAD goes to the handlers of GET.
abbrev pub as_get : Method → Method
as_get head = get
as_get m = m

abbrev pub handler : Endpoint → Method → List Text → EmailQueryParams → Routed
handler serve_index get cs q = handled index
handler health get cs q = handled health_check
handler emails_all get cs q = handled (get_emails (query_of q))
handler emails_all delete cs q = handled delete_all_emails
handler email_one get (id ∷ []) q = handled (get_email id)
handler email_one delete (id ∷ []) q = handled (delete_email id)
handler attachments get (id ∷ []) q = handled (list_attachments id)
handler attachment get (id ∷ filename ∷ []) q = handled (get_attachment id filename)
handler cid get (id ∷ content_id ∷ []) q = handled (get_attachment_by_cid id content_id)
handler e m cs q = method_not_allowed

-- The parts of the path, decoded one by one.
abbrev pub decode_all : (Text → Option Text) → List Text → Option (List Text)
decode_all decode [] = some []
decode_all decode (s ∷ ss) =
    let rest = decode_all decode ss in
    elim (decode s) [ none ↦ none | some t ↦ elim rest [ none ↦ none | some ts ↦ some (t ∷ ts) ] ]

-- A handler is chosen by the method before the parts of the path are decoded for it.
abbrev pub undecoded : Routed → Routed
undecoded (handled r) = bad_request
undecoded upgrade = upgrade
undecoded bad_request = bad_request
undecoded method_not_allowed = method_not_allowed

-- The handler with the decoded parts, if they could be decoded.
abbrev pub decoded : Endpoint → List Text → Method → EmailQueryParams → Option (List Text) → Routed
decoded e cs m q none = undecoded (handler e (as_get m) cs q)
decoded e cs m q (some ds) = handler e (as_get m) ds q

-- `ws_handler` takes no HEAD: the change to a WebSocket is refused with 405 but for GET.
abbrev pub ws_answer : Method → Routed
ws_answer get = upgrade
ws_answer m = method_not_allowed

abbrev pub answered :
    (Text → Option Text) → Endpoint → List Text → Method → EmailQueryParams → Routed
answered decode ws cs m q = ws_answer m
answered decode e cs m q = decoded e cs m q (decode_all decode cs)

abbrev pub handler_of :
    (Text → Option Text) → Option (Endpoint × List Text) → Method → EmailQueryParams → Routed
handler_of decode none m q = handled not_found
handler_of decode (some (e, cs)) m q = answered decode e cs m q

-- The routed request, with the fallback.
unfoldable pub routed :
    (List Route → List Text → Option (Endpoint × List Text))
    → (Text → Option Text)
    → Method
    → List Text
    → EmailQueryParams
    → Routed
unfolding routes
routed router decode m path q = handler_of decode (router routes path) m q
