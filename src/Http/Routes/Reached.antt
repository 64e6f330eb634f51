-- ===== src/Http/Routes/Reached.antt =====
-- Which requests reach which handler of src/http.rs.
use smtp_sink.Prelude.{◌≡◌, ◌∙◌, refl, Bool, true, false, List, [], ◌∷◌, Option, some, Pairwise, ap}
use smtp_sink.Text.{Text, codes, text_eq, is_empty}
use smtp_sink.Http.{
  Request, index, health_check, delete_all_emails, get_emails, get_email, delete_email,
  list_attachments, get_attachment, get_attachment_by_cid,
}
use smtp_sink.Http.Routes.{
  Method, get, head, delete, other, Route, Endpoint, serve_index, health, emails_all, email_one,
  attachments, attachment, cid, routes, overlap, first_match, IsRouter, handled, decode_all,
  decoded, answered, handler_of, routed, EmailQueryParams, query_of,
}

-- GET, and HEAD, which asks for the same without its body.
abbrev pub reads : Method → Bool
reads get = true
reads head = true
reads delete = false
reads other = false

module _ (decode : Text → Option Text) where
  -- A part of a path, not empty, and what it decodes to.
  abbrev pub Names : Text → Text → Type 0
  Names s t = (is_empty s ≡ false) × (decode s ≡ some t)

  -- The requests of the interface: a method, the segments of a path as they were sent, and a query.
  pub data Asks : Request → Method → List Text → EmailQueryParams → Type 0 where
    root : (m : Method) (q : EmailQueryParams) → reads m ≡ true → Asks index m [] q
    page :
        (m : Method) (q : EmailQueryParams)
        → reads m ≡ true
        → Asks index m (codes "index.html" ∷ []) q
    status :
        (m : Method) (q : EmailQueryParams)
        → reads m ≡ true
        → Asks health_check m (codes "health" ∷ []) q
    all_emails :
        (m : Method) (q : EmailQueryParams)
        → reads m ≡ true
        → Asks (get_emails (query_of q)) m (codes "emails" ∷ []) q
    no_emails : (q : EmailQueryParams) → Asks delete_all_emails delete (codes "emails" ∷ []) q
    one_email :
        (m : Method) (s id : Text) (q : EmailQueryParams)
        → reads m ≡ true
        → Names s id
        → Asks (get_email id) m (codes "emails" ∷ s ∷ []) q
    one_less :
        (s id : Text) (q : EmailQueryParams)
        → Names s id
        → Asks (delete_email id) delete (codes "emails" ∷ s ∷ []) q
    attachments_of :
        (m : Method) (s id : Text) (q : EmailQueryParams)
        → reads m ≡ true
        → Names s id
        → Asks (list_attachments id) m (codes "emails" ∷ s ∷ codes "attachments" ∷ []) q
    attachment_named :
        (m : Method) (s t id filename : Text) (q : EmailQueryParams)
        → reads m ≡ true
        → Names s id
        → Names t filename
        → Asks (get_attachment id filename) m (codes "emails" ∷ s ∷ codes "attachments" ∷ t ∷ []) q
    attachment_with :
        (m : Method) (s t id cid : Text) (q : EmailQueryParams)
        → reads m ≡ true
        → Names s id
        → Names t cid
        → Asks (get_attachment_by_cid id cid) m (codes "emails" ∷ s ∷ codes "cid" ∷ t ∷ []) q

routes-apart : Pairwise (λ r s. overlap r.0 s.0 ≡ false) routes
unfolding routes text_eq
routes-apart = (
  (refl, (refl, (refl, (refl, (refl, (refl, (refl, (refl, tt)))))))),
  (
    (refl, (refl, (refl, (refl, (refl, (refl, (refl, tt))))))),
    (
      (refl, (refl, (refl, (refl, (refl, (refl, tt)))))),
      (
        (refl, (refl, (refl, (refl, (refl, tt))))),
        (
          (refl, (refl, (refl, (refl, tt)))),
          ((refl, (refl, (refl, tt))), ((refl, (refl, tt)), ((refl, tt), (tt, tt)))),
        ),
      ),
    ),
  ),
)

module _ (router : List Route → List Text → Option (Endpoint × List Text)) (axum : IsRouter router)
    (decode : Text → Option Text) where
  pub first-routed :
      (m : Method) (path : List Text) (q : EmailQueryParams)
      → routed router decode m path q ≡ handler_of decode (first_match routes path) m q
  unfolding routed
  first-routed m path q = ap (λ o. handler_of decode o m q) (axum routes path routes-apart)

  decode_one : (s id : Text) → decode s ≡ some id → decode_all decode (s ∷ []) ≡ some (id ∷ [])
  decode_one s id e = rw (decode_all, e) refl

  decode_two :
      (s t id name : Text)
      → decode s ≡ some id
      → decode t ≡ some name
      → decode_all decode (s ∷ t ∷ []) ≡ some (id ∷ name ∷ [])
  decode_two s t id name e k = rw (decode_all, e, k) refl

  -- What is chosen of the table, without the table.
  by_choice :
      {r : Request} (m : Method) (path : List Text) (q : EmailQueryParams) (e : Endpoint)
      (cs : List Text)
      → first_match routes path ≡ some (e, cs)
      → answered decode e cs m q ≡ handled r
      → routed router decode m path q ≡ handled r
  by_choice m path q e cs k h = first-routed m path q ∙ ap (λ o. handler_of decode o m q) k ∙ h

  root_match :
      (m : Method) (q : EmailQueryParams)
      → reads m ≡ true
      → answered decode serve_index [] m q ≡ handled index
  root_match get q h = refl
  root_match head q h = refl
  root_match delete q h = absurd (cc h)
  root_match other q h = absurd (cc h)

  status_match :
      (m : Method) (q : EmailQueryParams)
      → reads m ≡ true
      → answered decode health [] m q ≡ handled health_check
  status_match get q h = refl
  status_match head q h = refl
  status_match delete q h = absurd (cc h)
  status_match other q h = absurd (cc h)

  all_match :
      (m : Method) (q : EmailQueryParams)
      → reads m ≡ true
      → answered decode emails_all [] m q ≡ handled (get_emails (query_of q))
  all_match get q h = refl
  all_match head q h = refl
  all_match delete q h = absurd (cc h)
  all_match other q h = absurd (cc h)

  one_match :
      (m : Method) (s id : Text) (q : EmailQueryParams)
      → reads m ≡ true
      → decode s ≡ some id
      → answered decode email_one (s ∷ []) m q ≡ handled (get_email id)
  one_match get s id q h e = ap (decoded email_one (s ∷ []) get q) (decode_one s id e)
  one_match head s id q h e = ap (decoded email_one (s ∷ []) head q) (decode_one s id e)
  one_match delete s id q h e = absurd (cc h)
  one_match other s id q h e = absurd (cc h)

  less_match :
      (s id : Text) (q : EmailQueryParams)
      → decode s ≡ some id
      → answered decode email_one (s ∷ []) delete q ≡ handled (delete_email id)
  less_match s id q e = ap (decoded email_one (s ∷ []) delete q) (decode_one s id e)

  list_match :
      (m : Method) (s id : Text) (q : EmailQueryParams)
      → reads m ≡ true
      → decode s ≡ some id
      → answered decode attachments (s ∷ []) m q ≡ handled (list_attachments id)
  list_match get s id q h e = ap (decoded attachments (s ∷ []) get q) (decode_one s id e)
  list_match head s id q h e = ap (decoded attachments (s ∷ []) head q) (decode_one s id e)
  list_match delete s id q h e = absurd (cc h)
  list_match other s id q h e = absurd (cc h)

  named_match :
      (m : Method) (s t id name : Text) (q : EmailQueryParams)
      → reads m ≡ true
      → decode s ≡ some id
      → decode t ≡ some name
      → answered decode attachment (s ∷ t ∷ []) m q ≡ handled (get_attachment id name)
  named_match get s t id name q h e k =
      ap (decoded attachment (s ∷ t ∷ []) get q) (decode_two s t id name e k)
  named_match head s t id name q h e k =
      ap (decoded attachment (s ∷ t ∷ []) head q) (decode_two s t id name e k)
  named_match delete s t id name q h e k = absurd (cc h)
  named_match other s t id name q h e k = absurd (cc h)

  with_match :
      (m : Method) (s t id name : Text) (q : EmailQueryParams)
      → reads m ≡ true
      → decode s ≡ some id
      → decode t ≡ some name
      → answered decode cid (s ∷ t ∷ []) m q ≡ handled (get_attachment_by_cid id name)
  with_match get s t id name q h e k =
      ap (decoded cid (s ∷ t ∷ []) get q) (decode_two s t id name e k)
  with_match head s t id name q h e k =
      ap (decoded cid (s ∷ t ∷ []) head q) (decode_two s t id name e k)
  with_match delete s t id name q h e k = absurd (cc h)
  with_match other s t id name q h e k = absurd (cc h)

  -- With a router that matches paths as its documentation says: each request of the interface reaches
  -- the handler that it asks for, with its own parts of the path, decoded, and its query.
  pub routed-Asks :
      {r : Request} {m : Method} {path : List Text} {q : EmailQueryParams}
      → Asks decode r m path q
      → routed router decode m path q ≡ handled r
  unfolding routes text_eq
  routed-Asks (root m q h) = by_choice m [] q _ _ refl (root_match m q h)
  routed-Asks (page m q h) = by_choice m (codes "index.html" ∷ []) q _ _ refl (root_match m q h)
  routed-Asks (status m q h) = by_choice m (codes "health" ∷ []) q _ _ refl (status_match m q h)
  routed-Asks (all_emails m q h) = by_choice m (codes "emails" ∷ []) q _ _ refl (all_match m q h)
  routed-Asks (no_emails q) = by_choice delete (codes "emails" ∷ []) q emails_all [] refl refl
  routed-Asks (one_email m [] id q h (n, e)) = absurd (cc n)
  routed-Asks (one_email m (c ∷ s) id q h (n, e)) =
      by_choice m (codes "emails" ∷ (c ∷ s) ∷ []) q _ _ refl (one_match m (c ∷ s) id q h e)
  routed-Asks (one_less [] id q (n, e)) = absurd (cc n)
  routed-Asks (one_less (c ∷ s) id q (n, e)) =
      by_choice delete (codes "emails" ∷ (c ∷ s) ∷ []) q _ _ refl (less_match (c ∷ s) id q e)
  routed-Asks (attachments_of m [] id q h (n, e)) = absurd (cc n)
  routed-Asks (attachments_of m (c ∷ s) id q h (n, e)) =
      by_choice m (codes "emails" ∷ (c ∷ s) ∷ codes "attachments" ∷ []) q _ _ refl
        (list_match m (c ∷ s) id q h e)
  routed-Asks (attachment_named m [] t id name q h (n, e) k) = absurd (cc n)
  routed-Asks (attachment_named m (c ∷ s) [] id name q h (n, e) (l, k)) = absurd (cc l)
  routed-Asks (attachment_named m (c ∷ s) (d ∷ t) id name q h (n, e) (l, k)) =
      by_choice m (codes "emails" ∷ (c ∷ s) ∷ codes "attachments" ∷ (d ∷ t) ∷ []) q _ _ refl
        (named_match m (c ∷ s) (d ∷ t) id name q h e k)
  routed-Asks (attachment_with m [] t id name q h (n, e) k) = absurd (cc n)
  routed-Asks (attachment_with m (c ∷ s) [] id name q h (n, e) (l, k)) = absurd (cc l)
  routed-Asks (attachment_with m (c ∷ s) (d ∷ t) id name q h (n, e) (l, k)) =
      by_choice m (codes "emails" ∷ (c ∷ s) ∷ codes "cid" ∷ (d ∷ t) ∷ []) q _ _ refl
        (with_match m (c ∷ s) (d ∷ t) id name q h e k)
