-- ===== src/Tests/Engine/Laws.antt =====
-- The engine of the tests does what the statements of the source say.
use smtp_sink.Prelude.{
  of_some, ℕ, zero, suc, ◌-◌, ◌≤◌, ◌≡◌, ◌≢◌, ◌⊎◌, refl, sym, ap, inl, inr, Bool, true, ◌&&◌, List,
  [], ◌∷◌, ◌++◌, none, some, length, length-drop, drop, filter, All, Any, Pairwise, Rearranges,
  Rearranges_refl, Has, All-Has, All-of_Has, arith, Bool-cases, subst, Any-Has,
}
use smtp_sink.Text.{Text, text_eq, opt_text_eq, text_eq_iff}
use smtp_sink.Store.Rows.{EmailRow, AttachmentRow}
use smtp_sink.Store.Sqlite.Laws.{IsSqlite, Gives, meets, row_has_id, row_of_email}
use smtp_sink.Store.Sqlite.Lookup.{has_key}
use smtp_sink.Tests.Engine.{
  Tables, engine, Part-Pairwise, Part-filter, take, stamped_eq, stamped_ne, inserted, attached,
  deleted, insert_new, attach, restrict, others, owned, Part-take, Part-nil,
}
use smtp_sink.Tests.Engine.Like.{like}

pub gives : {A : Type 0} (l : List A) → Gives l (some l)
gives l = record { given = l; runs = refl; same = Rearranges_refl l }

not_both : (id : Text) (rs : List EmailRow) → Any (λ x. x.id ≡ id) rs → All (λ x. x.id ≢ id) rs → ⊥
not_both id rs h k =
    let (r, m, e) = Any-Has (λ x. x.id ≡ id) rs h in All-Has (λ x. x.id ≢ id) r rs k m e

pub take-drop : {A : Type 0} (n : ℕ) (xs : List A) → take n xs ++ drop n xs ≡ xs
take-drop zero xs = refl
take-drop (suc n) [] = refl
take-drop (suc n) (x ∷ xs) = ap (◌∷◌ x) (take-drop n xs)

Has-drop : {A : Type 0} (n : ℕ) (xs : List A) (a : A) → Has a (drop n xs) → Has a xs
Has-drop zero xs a m = m
Has-drop (suc n) [] a m = m
Has-drop (suc n) (x ∷ xs) a m = inr (Has-drop n xs a m)

-- What is ordered is so across a cut.
pub across :
    {A : Type 0} (R : A → A → Type 0) (n : ℕ) (xs : List A)
    → Pairwise R xs
    → All (λ y. All (λ x. R x y) (take n xs)) (drop n xs)
across R zero xs h = All-of_Has _ xs λ a m. tt
across R (suc n) [] h = tt
across R (suc n) (x ∷ xs) h = All-of_Has _ (drop n xs) λ a m. (
  All-Has (R x) a xs h.0 (Has-drop n xs a m),
  All-Has (λ y. All (λ x. R x y) (take n xs)) a (drop n xs) (across R n xs h.1) m,
)

owned_of_Any :
    (rs : List EmailRow) (a : AttachmentRow) → Any (λ r. r.id ≡ a.email_id) rs → owned rs a ≡ true
owned_of_Any [] a h = absurd h
owned_of_Any (r ∷ rs) a (inl e) = rw ((text_eq_iff r.id a.email_id).1 e) refl
owned_of_Any (r ∷ rs) a (inr h) = ground (arith, owned_of_Any rs a h)

filter_under :
    {A : Type 0} (p q : A → Bool) (xs : List A)
    → ((x : A) → p x ≡ true → q x ≡ true)
    → filter p (filter q xs) ≡ filter p xs
filter_under p q [] h = refl
filter_under p q (x ∷ xs) h = elim (Bool-cases (p x)) [
  | inl e ↦ rw (h x e, e) (ap (◌∷◌ x) (filter_under p q xs h))
  | inr e ↦ elim (Bool-cases (q x)) [
    | inl k ↦ rw (k, e) (filter_under p q xs h)
    | inr k ↦ rw (k, e) (filter_under p q xs h)
  ]
]

pub kept_attachments :
    (rs : List EmailRow) (as' : List AttachmentRow) (id : Text)
    → Any (λ x. x.id ≡ id) rs
    → filter (row_of_email id) (filter (owned rs) as') ≡ filter (row_of_email id) as'
kept_attachments rs as' id h = filter_under (row_of_email id) (owned rs) as' λ a e.
    owned_of_Any rs a
      (subst (λ k. Any (λ x. x.id ≡ k) rs) (sym ((text_eq_iff a.email_id id).0 e)) h)

pub inserts-cases :
    (d : Tables) (r : EmailRow)
    → All (λ x. x.id ≢ r.id) d.emails
    → (k : Any (λ x. x.id ≡ r.id) d.emails ⊎ All (λ x. x.id ≢ r.id) d.emails)
    → (d' : Tables) × (inserted d r k ≡ some d')
      × Rearranges (r ∷ d.emails) d'.emails
      × (d'.attachments ≡ d.attachments)
      × (d'.created_at r.id ≡ d.clock)
      × ((id : Text) → id ≢ r.id → d'.created_at id ≡ d.created_at id)
inserts-cases d r h (inl k) = absurd (not_both r.id d.emails k h)
inserts-cases d r h (inr k) =
    (insert_new d r k, refl, Rearranges_refl _, refl, stamped_eq d r.id, stamped_ne d r.id)

pub rejects-cases :
    (d : Tables) (r : EmailRow)
    → Any (λ x. x.id ≡ r.id) d.emails
    → (k : Any (λ x. x.id ≡ r.id) d.emails ⊎ All (λ x. x.id ≢ r.id) d.emails)
    → inserted d r k ≡ none
rejects-cases d r h (inl k) = refl
rejects-cases d r h (inr k) = absurd (not_both r.id d.emails h k)

pub attaches-cases :
    (d : Tables) (a : AttachmentRow)
    → Any (λ x. x.id ≡ a.email_id) d.emails
    → (k : Any (λ x. x.id ≡ a.email_id) d.emails ⊎ All (λ x. x.id ≢ a.email_id) d.emails)
    → (d' : Tables) × (attached d a k ≡ some d')
      × (d'.emails ≡ d.emails)
      × Rearranges (a ∷ d.attachments) d'.attachments
      × ((id : Text) → d'.created_at id ≡ d.created_at id)
attaches-cases d a h (inl k) = (attach d a k, refl, refl, Rearranges_refl _, λ id. refl)
attaches-cases d a h (inr k) = absurd (not_both a.email_id d.emails h k)

pub deletes-cases :
    (d : Tables) (id : Text)
    → Any (λ x. x.id ≡ id) d.emails
    → (k : Any (λ x. x.id ≡ id) d.emails ⊎ All (λ x. x.id ≢ id) d.emails)
    → (d' : Tables) × (deleted d id k ≡ some (1, d'))
      × (d'.emails ≡ others id d.emails)
      × ((other : Text)
          → Any (λ x. x.id ≡ other) d'.emails
          → filter (row_of_email other) d'.attachments ≡ filter (row_of_email other) d.attachments)
      × ((other : Text)
          → Any (λ x. x.id ≡ other) d'.emails
          → d'.created_at other ≡ d.created_at other)
deletes-cases d id h (inl k) = (
  restrict d (others id d.emails) (Part-filter _ d.emails),
  refl,
  refl,
  kept_attachments (others id d.emails) d.attachments,
  λ other m. refl,
)
deletes-cases d id h (inr k) = absurd (not_both id d.emails h k)

pub deletes_none-cases :
    (d : Tables) (id : Text)
    → All (λ x. x.id ≢ id) d.emails
    → (k : Any (λ x. x.id ≡ id) d.emails ⊎ All (λ x. x.id ≢ id) d.emails)
    → deleted d id k ≡ some (0, d)
deletes_none-cases d id h (inl k) = absurd (not_both id d.emails k h)
deletes_none-cases d id h (inr k) = refl

unfoldable pub engine-IsSqlite : IsSqlite engine
engine-IsSqlite = record {
  emails = λ d. d.emails;
  attachments = λ d. d.attachments;
  created_at = λ d. d.created_at;
  now = λ d. d.clock;
  like = like;
  keys = λ d. d.keys;
  owners = λ d. d.owners;
  counts = λ d. refl;
  selects_email = λ d id. gives (filter (row_has_id id) d.emails);
  selects_emails = λ d cs short. gives (filter (meets like cs) d.emails);
  newest_first = λ d cs l e.
      subst (Pairwise (λ x y. d.created_at y.id ≤ d.created_at x.id)) (of_some e) (
        Part-Pairwise (λ x y. d.created_at y.id ≤ d.created_at x.id)
          (Part-filter (meets like cs) d.emails) d.newest);
  selects_attachments = λ d id. gives (filter (row_of_email id) d.attachments);
  selects_named = λ d id filename.
      gives (filter (λ a. row_of_email id a && text_eq a.filename filename) d.attachments);
  selects_cid = λ d id cid.
      gives (filter (λ a. row_of_email id a && opt_text_eq a.content_id (some cid)) d.attachments);
  inserts = λ d r h. inserts-cases d r h (has_key r.id d.emails);
  rejects = λ d r h. rejects-cases d r h (has_key r.id d.emails);
  attaches = λ d a h. attaches-cases d a h (has_key a.email_id d.emails);
  deletes_oldest = λ d n h.
      let m = length d.emails - n in
      (
        restrict d (take m d.emails) (Part-take m d.emails),
        drop m d.emails,
        refl,
        omega (arith, length-drop m d.emails, h),
        subst (Rearranges d.emails) (sym (take-drop m d.emails)) (Rearranges_refl d.emails),
        across (λ x y. d.created_at y.id ≤ d.created_at x.id) m d.emails d.newest,
        kept_attachments (take m d.emails) d.attachments,
        λ id k. refl,
      );
  deletes_all = λ d. (restrict d [] (Part-nil d.emails), refl, refl);
  deletes = λ d id h. deletes-cases d id h (has_key id d.emails);
  deletes_none = λ d id h. deletes_none-cases d id h (has_key id d.emails);
}
