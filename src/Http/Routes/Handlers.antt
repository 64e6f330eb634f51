-- ===== src/Http/Routes/Handlers.antt =====
-- What each handler of the routes in src/http.rs answers, and to which requests.
use smtp_sink.Prelude.{
  ◌≡◌, inl, inr, sym, false, List, [], ◌∷◌, Option, none, some, of_some, some-ne-none, refl, ap,
  ◌∙◌, subst, Option-cases,
}
use smtp_sink.Text.{Text, codes, is_empty}
use smtp_sink.Http.{Request, not_found}
use smtp_sink.Http.Routes.{
  bad_request, undecoded, as_get, decode_all, decoded, answered, Method, get, head, delete, other,
  Endpoint, serve_index, health, emails_all, email_one, attachments, attachment, cid, ws, Routed,
  handled, upgrade, method_not_allowed, handler, EmailQueryParams,
}
use smtp_sink.Http.Routes.Reached.{
  Asks, Names, root, page, status, all_emails, no_emails, one_email, one_less, attachments_of,
  attachment_named, attachment_with,
}

abbrev request_of : Routed → Request
request_of (handled r) = r
request_of upgrade = not_found
request_of bad_request = not_found
request_of method_not_allowed = not_found

pub of_handled : {r s : Request} → handled r ≡ handled s → r ≡ s
of_handled h = ap request_of h

undecoded_unhandled : (x : Routed) (r : Request) → undecoded x ≡ handled r → ⊥
undecoded_unhandled (handled s) r h = cc h
undecoded_unhandled upgrade r h = cc h
undecoded_unhandled bad_request r h = cc h
undecoded_unhandled method_not_allowed r h = cc h

-- Where a handler answers, the parts were decoded.
of_decoded :
    (e : Endpoint) (cs : List Text) (m : Method) (q : EmailQueryParams) (r : Request)
    (o : Option (List Text))
    → decoded e cs m q o ≡ handled r
    → (ds : List Text) × (o ≡ some ds) × (handler e (as_get m) ds q ≡ handled r)
of_decoded e cs m q r none h = absurd (undecoded_unhandled _ r h)
of_decoded e cs m q r (some ds) h = (ds, refl, h)

module _ (decode : Text → Option Text) where
  -- A handler that answers a request, given a path and what was captured of it.
  abbrev pub Answers : Endpoint → List Text → List Text → Type 0
  Answers e path cs =
      (r : Request) (m : Method) (q : EmailQueryParams)
      → answered decode e cs m q ≡ handled r
      → Asks decode r m path q

  as_asked :
      {x r : Request} {m : Method} {path : List Text} {q : EmailQueryParams}
      → handled x ≡ handled r
      → Asks decode x m path q
      → Asks decode r m path q
  as_asked {m = m} {path = path} {q = q} h a = subst (λ y. Asks decode y m path q) (of_handled h) a

  of_one :
      (s : Text) (ds : List Text)
      → decode_all decode (s ∷ []) ≡ some ds
      → (id : Text) × (decode s ≡ some id) × (id ∷ [] ≡ ds)
  of_one s ds h = elim (Option-cases (decode s)) [
    | inl e ↦ absurd (some-ne-none (sym (rw (decode_all, e) at h)))
    | inr (id, e) ↦ (id, e, of_some (rw (decode_all, e) at h))
  ]

  of_two :
      (s t : Text) (ds : List Text)
      → decode_all decode (s ∷ t ∷ []) ≡ some ds
      → (id : Text) × (name : Text) × (decode s ≡ some id)
        × (decode t ≡ some name)
        × (id ∷ name ∷ [] ≡ ds)
  of_two s t ds h = elim (Option-cases (decode s)) [
    | inl e ↦ absurd (some-ne-none (sym (rw (decode_all, e) at h)))
    | inr (id, e) ↦ elim (Option-cases (decode t)) [
      | inl k ↦ absurd (some-ne-none (sym (rw (decode_all, e, k) at h)))
      | inr (name, k) ↦ (id, name, e, k, of_some (rw (decode_all, e, k) at h))
    ]
  ]

  pub root-Answers : Answers serve_index [] []
  root-Answers r get q h = as_asked h (root get q refl)
  root-Answers r head q h = as_asked h (root head q refl)
  root-Answers r delete q h = absurd (cc h)
  root-Answers r other q h = absurd (cc h)

  pub page-Answers : Answers serve_index (codes "index.html" ∷ []) []
  page-Answers r get q h = as_asked h (page get q refl)
  page-Answers r head q h = as_asked h (page head q refl)
  page-Answers r delete q h = absurd (cc h)
  page-Answers r other q h = absurd (cc h)

  pub health-Answers : Answers health (codes "health" ∷ []) []
  health-Answers r get q h = as_asked h (status get q refl)
  health-Answers r head q h = as_asked h (status head q refl)
  health-Answers r delete q h = absurd (cc h)
  health-Answers r other q h = absurd (cc h)

  pub emails_all-Answers : Answers emails_all (codes "emails" ∷ []) []
  emails_all-Answers r get q h = as_asked h (all_emails get q refl)
  emails_all-Answers r head q h = as_asked h (all_emails head q refl)
  emails_all-Answers r delete q h = as_asked h (no_emails q)
  emails_all-Answers r other q h = absurd (cc h)

  pub ws-Answers : Answers ws (codes "ws" ∷ []) []
  ws-Answers r get q h = absurd (cc h)
  ws-Answers r head q h = absurd (cc h)
  ws-Answers r delete q h = absurd (cc h)
  ws-Answers r other q h = absurd (cc h)

  email_one_asked :
      (s id : Text) (r : Request) (m : Method) (q : EmailQueryParams)
      → Names decode s id
      → handler email_one (as_get m) (id ∷ []) q ≡ handled r
      → Asks decode r m (codes "emails" ∷ s ∷ []) q
  email_one_asked s id r get q n h = as_asked h (one_email get s id q refl n)
  email_one_asked s id r head q n h = as_asked h (one_email head s id q refl n)
  email_one_asked s id r delete q n h = as_asked h (one_less s id q n)
  email_one_asked s id r other q n h = absurd (cc h)

  pub email_one-Answers :
      (s : Text) → is_empty s ≡ false → Answers email_one (codes "emails" ∷ s ∷ []) (s ∷ [])
  email_one-Answers s full r m q h =
      let (ds, k, g) = of_decoded email_one (s ∷ []) m q r (decode_all decode (s ∷ [])) h in
      let (id, e, c) = of_one s ds k in
      email_one_asked s id r m q (full, e) (ap (λ l. handler email_one (as_get m) l q) c ∙ g)

  attachments_asked :
      (s id : Text) (r : Request) (m : Method) (q : EmailQueryParams)
      → Names decode s id
      → handler attachments (as_get m) (id ∷ []) q ≡ handled r
      → Asks decode r m (codes "emails" ∷ s ∷ codes "attachments" ∷ []) q
  attachments_asked s id r get q n h = as_asked h (attachments_of get s id q refl n)
  attachments_asked s id r head q n h = as_asked h (attachments_of head s id q refl n)
  attachments_asked s id r delete q n h = absurd (cc h)
  attachments_asked s id r other q n h = absurd (cc h)

  pub attachments-Answers :
      (s : Text)
      → is_empty s ≡ false
      → Answers attachments (codes "emails" ∷ s ∷ codes "attachments" ∷ []) (s ∷ [])
  attachments-Answers s full r m q h =
      let (ds, k, g) = of_decoded attachments (s ∷ []) m q r (decode_all decode (s ∷ [])) h in
      let (id, e, c) = of_one s ds k in
      attachments_asked s id r m q (full, e) (ap (λ l. handler attachments (as_get m) l q) c ∙ g)

  attachment_asked :
      (s t id name : Text) (r : Request) (m : Method) (q : EmailQueryParams)
      → Names decode s id
      → Names decode t name
      → handler attachment (as_get m) (id ∷ name ∷ []) q ≡ handled r
      → Asks decode r m (codes "emails" ∷ s ∷ codes "attachments" ∷ t ∷ []) q
  attachment_asked s t id name r get q n k h =
      as_asked h (attachment_named get s t id name q refl n k)
  attachment_asked s t id name r head q n k h =
      as_asked h (attachment_named head s t id name q refl n k)
  attachment_asked s t id name r delete q n k h = absurd (cc h)
  attachment_asked s t id name r other q n k h = absurd (cc h)

  pub attachment-Answers :
      (s t : Text)
      → is_empty s ≡ false
      → is_empty t ≡ false
      → Answers attachment (codes "emails" ∷ s ∷ codes "attachments" ∷ t ∷ []) (s ∷ t ∷ [])
  attachment-Answers s t full full' r m q h =
      let (ds, k, g) =
        of_decoded attachment (s ∷ t ∷ []) m q r (decode_all decode (s ∷ t ∷ [])) h in
      let (id, name, e, e', c) = of_two s t ds k in
      attachment_asked s t id name r m q (full, e) (full', e')
        (ap (λ l. handler attachment (as_get m) l q) c ∙ g)

  cid_asked :
      (s t id name : Text) (r : Request) (m : Method) (q : EmailQueryParams)
      → Names decode s id
      → Names decode t name
      → handler cid (as_get m) (id ∷ name ∷ []) q ≡ handled r
      → Asks decode r m (codes "emails" ∷ s ∷ codes "cid" ∷ t ∷ []) q
  cid_asked s t id name r get q n k h = as_asked h (attachment_with get s t id name q refl n k)
  cid_asked s t id name r head q n k h = as_asked h (attachment_with head s t id name q refl n k)
  cid_asked s t id name r delete q n k h = absurd (cc h)
  cid_asked s t id name r other q n k h = absurd (cc h)

  pub cid-Answers :
      (s t : Text)
      → is_empty s ≡ false
      → is_empty t ≡ false
      → Answers cid (codes "emails" ∷ s ∷ codes "cid" ∷ t ∷ []) (s ∷ t ∷ [])
  cid-Answers s t full full' r m q h =
      let (ds, k, g) = of_decoded cid (s ∷ t ∷ []) m q r (decode_all decode (s ∷ t ∷ [])) h in
      let (id, name, e, e', c) = of_two s t ds k in
      cid_asked s t id name r m q (full, e) (full', e') (ap (λ l. handler cid (as_get m) l q) c ∙ g)
