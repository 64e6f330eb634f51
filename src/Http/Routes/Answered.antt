-- ===== src/Http/Routes/Answered.antt =====
-- That a handler of src/http.rs is reached by no other requests than those of the interface.
use smtp_sink.Prelude.{
  ◌≡◌, ◌≢◌, inl, inr, sym, false, List, [], ◌∷◌, Option, some, ap, ◌∙◌, subst, Option-cases, ◌↔◌,
}
use smtp_sink.Text.{Text, codes, is_empty}
use smtp_sink.Http.{Request, not_found}
use smtp_sink.Http.Routes.{
  literal, capture, Method, Route, Endpoint, routes, captures_of, first_match, IsRouter, handled,
  handler_of, routed, EmailQueryParams,
}
use smtp_sink.Http.Routes.Reached.{Asks, first-routed, routed-Asks}
use smtp_sink.Http.Routes.Patterns.{
  Matches, first_match-Matches, of_nil, one_literal, literal_capture,
}
use smtp_sink.Http.Routes.Handlers.{
  of_handled, Answers, attachment-Answers, attachments-Answers, cid-Answers, email_one-Answers,
  emails_all-Answers, health-Answers, page-Answers, root-Answers, ws-Answers,
}

module _ (decode : Text → Option Text) where
  moved :
      {d e : Endpoint} {l path cs ds : List Text}
      → d ≡ e
      → path ≡ l
      → cs ≡ ds
      → Answers decode d l ds
      → Answers decode e path cs
  moved {d} {e} {l} {path} {cs} {ds} same p c a =
      subst (λ x. Answers decode x path cs) same
        (subst (λ x. Answers decode d x cs) (sym p) (subst (Answers decode d l) (sym c) a))

  capture_end :
      (d : Endpoint) (e : Endpoint) (path cs : List Text)
      → ((id : Text) → is_empty id ≡ false → Answers decode d (codes "emails" ∷ id ∷ []) (id ∷ []))
      → captures_of (literal (codes "emails") ∷ capture ∷ []) path ≡ some cs
      → d ≡ e
      → Answers decode e path cs
  capture_end d e path cs a h same =
      let (s, ss, ds, p, full, c, k) = literal_capture (codes "emails") [] path cs h in
      let (n, m) = of_nil ss ds k in
      moved same (p ∙ ap (λ l. codes "emails" ∷ s ∷ l) n) (c ∙ ap (λ l. s ∷ l) m) (a s full)

  capture_literal :
      (t : Text) (d e : Endpoint) (path cs : List Text)
      → ((id : Text)
          → is_empty id ≡ false
          → Answers decode d (codes "emails" ∷ id ∷ t ∷ []) (id ∷ []))
      → captures_of (literal (codes "emails") ∷ capture ∷ literal t ∷ []) path ≡ some cs
      → d ≡ e
      → Answers decode e path cs
  capture_literal t d e path cs a h same =
      let (s, ss, ds, p, full, c, k) =
        literal_capture (codes "emails") (literal t ∷ []) path cs h in
      let (n, m) = one_literal t ss ds k in
      moved same (p ∙ ap (λ l. codes "emails" ∷ s ∷ l) n) (c ∙ ap (λ l. s ∷ l) m) (a s full)

  capture_two :
      (t : Text) (d e : Endpoint) (path cs : List Text)
      → ((id name : Text)
          → is_empty id ≡ false
          → is_empty name ≡ false
          → Answers decode d (codes "emails" ∷ id ∷ t ∷ name ∷ []) (id ∷ name ∷ []))
      → captures_of (literal (codes "emails") ∷ capture ∷ literal t ∷ capture ∷ []) path ≡ some cs
      → d ≡ e
      → Answers decode e path cs
  capture_two t d e path cs a h same =
      let (s, ss, ds, p, full, c, k) =
        literal_capture (codes "emails") (literal t ∷ capture ∷ []) path cs h in
      let (s', ss', ds', p', full', c', k') = literal_capture t [] ss ds k in
      let (n, m) = of_nil ss' ds' k' in
      moved same (p ∙ ap (λ l. codes "emails" ∷ s ∷ l) (p' ∙ ap (λ l. t ∷ s' ∷ l) n))
        (c ∙ ap (λ l. s ∷ l) (c' ∙ ap (λ l. s' ∷ l) m)) (a s s' full full')

  literal_end :
      (t : Text) (d e : Endpoint) (path cs : List Text)
      → Answers decode d (t ∷ []) []
      → captures_of (literal t ∷ []) path ≡ some cs
      → d ≡ e
      → Answers decode e path cs
  literal_end t d e path cs a h same = let (p, c) = one_literal t path cs h in moved same p c a

  Matches-Answers :
      (path : List Text) (e : Endpoint) (cs : List Text)
      → Matches path e cs routes
      → Answers decode e path cs
  unfolding routes
  Matches-Answers path e cs (inl (k, d)) =
      let (p, c) = of_nil path cs k in moved d p c (root-Answers decode)
  Matches-Answers path e cs (inr (inl (k, d))) = literal_end _ _ e path cs (page-Answers decode) k d
  Matches-Answers path e cs (inr (inr (inl (k, d)))) =
      literal_end _ _ e path cs (health-Answers decode) k d
  Matches-Answers path e cs (inr (inr (inr (inl (k, d))))) =
      literal_end _ _ e path cs (emails_all-Answers decode) k d
  Matches-Answers path e cs (inr (inr (inr (inr (inl (k, d)))))) =
      capture_end _ e path cs (email_one-Answers decode) k d
  Matches-Answers path e cs (inr (inr (inr (inr (inr (inl (k, d))))))) =
      capture_literal _ _ e path cs (attachments-Answers decode) k d
  Matches-Answers path e cs (inr (inr (inr (inr (inr (inr (inl (k, d)))))))) =
      capture_two _ _ e path cs (attachment-Answers decode) k d
  Matches-Answers path e cs (inr (inr (inr (inr (inr (inr (inr (inl (k, d))))))))) =
      capture_two _ _ e path cs (cid-Answers decode) k d
  Matches-Answers path e cs (inr (inr (inr (inr (inr (inr (inr (inr (inl (k, d)))))))))) =
      literal_end _ _ e path cs (ws-Answers decode) k d
  Matches-Answers path e cs (inr (inr (inr (inr (inr (inr (inr (inr (inr none_left))))))))) =
      absurd none_left

module _ (router : List Route → List Text → Option (Endpoint × List Text)) (axum : IsRouter router)
    (decode : Text → Option Text) where
  of_routed :
      (r : Request) (m : Method) (path : List Text) (q : EmailQueryParams)
      → r ≢ not_found
      → handler_of decode (first_match routes path) m q ≡ handled r
      → Asks decode r m path q
  of_routed r m path q known h = elim (Option-cases (first_match routes path)) [
    | inl e ↦ absurd (known (sym (of_handled (sym (ap (λ o. handler_of decode o m q) e) ∙ h))))
    | inr ((e, cs), k) ↦
        Matches-Answers decode path e cs (first_match-Matches routes path e cs k) r m q
          (sym (ap (λ o. handler_of decode o m q) k) ∙ h)
  ]

  -- With a router that matches paths, as they were sent, in the way of its documentation: a request whose
  -- query can be read reaches the handler that answers `r`, if that is not the fallback, exactly when
  -- it asks for `r`: with the method of the interface, HEAD counting as GET, its path as it is
  -- written, in which the parts that vary decode to those of `r`, and with its query.
  pub routed_iff :
      (r : Request) (m : Method) (path : List Text) (q : EmailQueryParams)
      → r ≢ not_found
      → (routed router decode m path q ≡ handled r) ↔ Asks decode r m path q
  routed_iff r m path q known = (
    λ h. of_routed r m path q known (sym (first-routed router axum decode m path q) ∙ h),
    λ a. routed-Asks router axum decode a,
  )
