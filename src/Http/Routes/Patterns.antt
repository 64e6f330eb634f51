-- ===== src/Http/Routes/Patterns.antt =====
-- What the patterns of the routes in src/http.rs match.
use smtp_sink.Prelude.{
  ◌≡◌, inl, inr, refl, sym, false, List, [], ◌∷◌, some, Any, ap, ◌∙◌, Bool-cases, Option-cases,
  of_some, some-ne-none,
}
use smtp_sink.Text.{Text, text_eq, text_eq_iff, is_empty}
use smtp_sink.Http.Routes.{Segment, literal, capture, Route, Endpoint, captures_of, first_match}

-- The pattern of an endpoint that captures these parts of the path.
abbrev pub Matches : List Text → Endpoint → List Text → List Route → Type 0
Matches path e cs = Any (λ r. (captures_of r.0 path ≡ some cs) × (r.1 ≡ e))

pub first_match-Matches :
    (table : List Route) (path : List Text) (e : Endpoint) (cs : List Text)
    → first_match table path ≡ some (e, cs)
    → Matches path e cs table
first_match-Matches [] path e cs h = absurd (some-ne-none (sym h))
first_match-Matches ((p, d) ∷ rs) path e cs h = elim (Option-cases (captures_of p path)) [
  | inl k ↦ inr (first_match-Matches rs path e cs (rw (first_match, k) at h))
  | inr (ds, k) ↦
      let same = of_some (rw (first_match, k) at h) in
      inl (
        k ∙ ap some (ap (λ (x : Endpoint × List Text). x.1) same),
        ap (λ (x : Endpoint × List Text). x.0) same,
      )
]

pub of_nil : (path cs : List Text) → captures_of [] path ≡ some cs → (path ≡ []) × (cs ≡ [])
of_nil [] cs h = (refl, sym (of_some h))
of_nil (s ∷ ss) cs h = absurd (some-ne-none (sym h))

pub of_literal :
    (t : Text) (ps : List Segment) (path cs : List Text)
    → captures_of (literal t ∷ ps) path ≡ some cs
    → (ss : List Text) × (path ≡ t ∷ ss) × (captures_of ps ss ≡ some cs)
of_literal t ps [] cs h = absurd (some-ne-none (sym h))
of_literal t ps (s ∷ ss) cs h = elim (Bool-cases (text_eq t s)) [
  | inl e ↦ (ss, ap (λ x. x ∷ ss) (sym ((text_eq_iff t s).0 e)), rw e at h)
  | inr e ↦ absurd (some-ne-none (sym (rw e at h)))
]

pub of_capture :
    (ps : List Segment) (path cs : List Text)
    → captures_of (capture ∷ ps) path ≡ some cs
    → (s : Text) × (ss : List Text) × (ds : List Text) × (path ≡ s ∷ ss)
      × (is_empty s ≡ false)
      × (cs ≡ s ∷ ds)
      × (captures_of ps ss ≡ some ds)
of_capture ps [] cs h = absurd (some-ne-none (sym h))
of_capture ps (s ∷ ss) cs h = elim (Bool-cases (is_empty s)) [
  | inl e ↦ absurd (some-ne-none (sym (rw e at h)))
  | inr e ↦ elim (Option-cases (captures_of ps ss)) [
    | inl k ↦ absurd (some-ne-none (sym (rw (e, k) at h)))
    | inr (ds, k) ↦ (s, ss, ds, refl, e, sym (of_some (rw (e, k) at h)), k)
  ]
]

pub one_literal :
    (t : Text) (path cs : List Text)
    → captures_of (literal t ∷ []) path ≡ some cs
    → (path ≡ t ∷ []) × (cs ≡ [])
one_literal t path cs h =
    let (ss, e, k) = of_literal t [] path cs h in
    let (n, c) = of_nil ss cs k in (e ∙ ap (λ l. t ∷ l) n, c)

pub literal_capture :
    (t : Text) (ps : List Segment) (path cs : List Text)
    → captures_of (literal t ∷ capture ∷ ps) path ≡ some cs
    → (s : Text) × (ss : List Text) × (ds : List Text) × (path ≡ t ∷ s ∷ ss)
      × (is_empty s ≡ false)
      × (cs ≡ s ∷ ds)
      × (captures_of ps ss ≡ some ds)
literal_capture t ps path cs h =
    let (ss, e, k) = of_literal t (capture ∷ ps) path cs h in
    let (s, rest, ds, e', full, c, k') = of_capture ps ss cs k in
    (s, rest, ds, e ∙ ap (λ l. t ∷ l) e', full, c, k')
