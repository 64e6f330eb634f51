-- ===== src/Tests/Engine.antt =====
-- An engine for the tests: two tables in memory, with the constraints that SQLite enforces. The emails
-- stand newest first, and the clock moves on with each of them.
pub mod Like
pub mod Encoding
pub mod Laws
use smtp_sink.Prelude.{
  ℕ, zero, suc, ◌+◌, ◌-◌, ◌≤◌, ◌<◌, ◌≡◌, ◌≢◌, ◌⊎◌, ◌∙◌, refl, sym, ap, inl, inr, Bool, true, false,
  ◌&&◌, not, List, [], ◌∷◌, Option, none, some, length, filter, any, All, Any, Pairwise, Has,
  All-Has, All-of_Has, of_filter, arith, Bool-cases, if◌then◌else◌,
}
use smtp_sink.Text.{Text, text_eq, opt_text_eq, text_eq_iff}
use smtp_sink.Store.Rows.{Engine, EmailRow, AttachmentRow, Condition}
use smtp_sink.Store.Sqlite.Laws.{meets, row_has_id, row_of_email}
use smtp_sink.Store.Sqlite.Lookup.{has_key}
use smtp_sink.Tests.Engine.Like.{like}

-- The first list is the second without some of its rows.
pub data Part {A : Type 0} : List A → List A → Type 0 where
  end : Part [] []
  keep : (x : A) {xs ys : List A} → Part xs ys → Part (x ∷ xs) (x ∷ ys)
  leave : (x : A) {xs ys : List A} → Part xs ys → Part xs (x ∷ ys)

module _ {A : Type 0} where
  pub Part-All : (P : A → Type 0) {xs ys : List A} → Part xs ys → All P ys → All P xs
  Part-All P end h = tt
  Part-All P (keep x p) h = (h.0, Part-All P p h.1)
  Part-All P (leave x p) h = Part-All P p h.1

  pub Part-Pairwise :
      (R : A → A → Type 0) {xs ys : List A} → Part xs ys → Pairwise R ys → Pairwise R xs
  Part-Pairwise R end h = tt
  Part-Pairwise R (keep x p) h = (Part-All (R x) p h.0, Part-Pairwise R p h.1)
  Part-Pairwise R (leave x p) h = Part-Pairwise R p h.1

  pub Part-filter : (p : A → Bool) (xs : List A) → Part (filter p xs) xs
  Part-filter p [] = end
  Part-filter p (x ∷ xs) = elim (Bool-cases (p x)) [
    | inl e ↦ rw e (keep x (Part-filter p xs))
    | inr e ↦ rw e (leave x (Part-filter p xs))
  ]

  abbrev pub take : ℕ → List A → List A
  take zero xs = []
  take (suc n) [] = []
  take (suc n) (x ∷ xs) = x ∷ take n xs

  pub Part-nil : (xs : List A) → Part [] xs
  Part-nil [] = end
  Part-nil (x ∷ xs) = leave x (Part-nil xs)

  pub Part-take : (n : ℕ) (xs : List A) → Part (take n xs) xs
  Part-take zero xs = Part-nil xs
  Part-take (suc n) [] = end
  Part-take (suc n) (x ∷ xs) = keep x (Part-take n xs)

abbrev pub Newest : (Text → ℕ) → List EmailRow → Type 0
Newest created = Pairwise (λ x y. created y.id ≤ created x.id)

pub record Tables : Type 0 where
  pub emails : List EmailRow
  pub attachments : List AttachmentRow
  pub created_at : Text → ℕ
  pub clock : ℕ
  pub keys : Pairwise (λ x y. x.id ≢ y.id) emails
  pub owners : All (λ a. Any (λ r. r.id ≡ a.email_id) emails) attachments
  pub newest : Newest created_at emails
  pub past : All (λ r. created_at r.id < clock) emails

abbrev pub stamped : Tables → Text → Text → ℕ
stamped d new id = if text_eq id new then d.clock else d.created_at id

pub stamped_ne : (d : Tables) (new id : Text) → id ≢ new → stamped d new id ≡ d.created_at id
stamped_ne d new id h = elim (Bool-cases (text_eq id new)) [
  | inl e ↦ absurd (h ((text_eq_iff id new).0 e))
  | inr e ↦ rw e
]

pub stamped_eq : (d : Tables) (new : Text) → stamped d new new ≡ d.clock
stamped_eq d new = rw ((text_eq_iff new new).1 refl)

pub Newest-stamped :
    (d : Tables) (new : Text) (rs : List EmailRow)
    → All (λ x. x.id ≢ new) rs
    → Newest d.created_at rs
    → Newest (stamped d new) rs
Newest-stamped d new [] h n = tt
Newest-stamped d new (r ∷ rs) h n = (
  All-of_Has _ rs λ x m. omega (
    arith,
    stamped_ne d new r.id h.0,
    stamped_ne d new x.id (All-Has (λ x. x.id ≢ new) x rs h.1 m),
    All-Has (λ y. d.created_at y.id ≤ d.created_at r.id) x rs n.0 m,
  ),
  Newest-stamped d new rs h.1 n.1,
)

abbrev pub insert_new : (d : Tables) (r : EmailRow) → All (λ x. x.id ≢ r.id) d.emails → Tables
insert_new d r h = record {
  emails = r ∷ d.emails;
  attachments = d.attachments;
  created_at = stamped d r.id;
  clock = suc d.clock;
  keys =
      (All-of_Has _ d.emails (λ x m e. All-Has (λ x. x.id ≢ r.id) x d.emails h m (sym e)), d.keys);
  owners =
      All-of_Has _ d.attachments λ a m.
        inr (All-Has (λ a. Any (λ r. r.id ≡ a.email_id) d.emails) a d.attachments d.owners m);
  newest = (
    All-of_Has _ d.emails λ x m. omega (
      arith,
      stamped_eq d r.id,
      stamped_ne d r.id x.id (All-Has (λ x. x.id ≢ r.id) x d.emails h m),
      All-Has (λ r. d.created_at r.id < d.clock) x d.emails d.past m,
    ),
    Newest-stamped d r.id d.emails h d.newest,
  );
  past = (
    omega (arith, stamped_eq d r.id),
    All-of_Has _ d.emails λ x m. omega (
      arith,
      stamped_ne d r.id x.id (All-Has (λ x. x.id ≢ r.id) x d.emails h m),
      All-Has (λ r. d.created_at r.id < d.clock) x d.emails d.past m,
    ),
  );
}

abbrev pub attach :
    (d : Tables) (a : AttachmentRow) → Any (λ r. r.id ≡ a.email_id) d.emails → Tables
attach d a h = record {
  emails = d.emails;
  attachments = a ∷ d.attachments;
  created_at = d.created_at;
  clock = d.clock;
  keys = d.keys;
  owners = (h, d.owners);
  newest = d.newest;
  past = d.past;
}

abbrev pub owned : List EmailRow → AttachmentRow → Bool
owned rs a = any (λ r. text_eq r.id a.email_id) rs

pub owned-Any :
    (rs : List EmailRow) (a : AttachmentRow) → owned rs a ≡ true → Any (λ r. r.id ≡ a.email_id) rs
owned-Any [] a h = cc
owned-Any (r ∷ rs) a h = elim (Bool-cases (text_eq r.id a.email_id)) [
  | inl e ↦ inl ((text_eq_iff r.id a.email_id).0 e)
  | inr e ↦ inr (owned-Any rs a (ground arith))
]

-- The rest of the rows, with the attachments that they own.
abbrev pub restrict : (d : Tables) (rs : List EmailRow) → Part rs d.emails → Tables
restrict d rs p = record {
  emails = rs;
  attachments = filter (owned rs) d.attachments;
  created_at = d.created_at;
  clock = d.clock;
  keys = Part-Pairwise (λ x y. x.id ≢ y.id) p d.keys;
  owners =
      All-of_Has _ (filter (owned rs) d.attachments)
        λ a m. owned-Any rs a (of_filter (owned rs) d.attachments m).1;
  newest = Part-Pairwise (λ x y. d.created_at y.id ≤ d.created_at x.id) p d.newest;
  past = Part-All (λ r. d.created_at r.id < d.clock) p d.past;
}

abbrev pub inserted :
    (d : Tables) (r : EmailRow)
    → Any (λ x. x.id ≡ r.id) d.emails ⊎ All (λ x. x.id ≢ r.id) d.emails
    → Option Tables
inserted d r (inl k) = none
inserted d r (inr k) = some (insert_new d r k)

abbrev pub attached :
    (d : Tables) (a : AttachmentRow)
    → Any (λ x. x.id ≡ a.email_id) d.emails ⊎ All (λ x. x.id ≢ a.email_id) d.emails
    → Option Tables
attached d a (inl k) = some (attach d a k)
attached d a (inr k) = none

abbrev pub others : Text → List EmailRow → List EmailRow
others id = filter (λ r. not (row_has_id id r))

abbrev pub deleted :
    (d : Tables) (id : Text)
    → Any (λ x. x.id ≡ id) d.emails ⊎ All (λ x. x.id ≢ id) d.emails
    → Option (ℕ × Tables)
deleted d id (inl k) = some (1, restrict d (others id d.emails) (Part-filter _ d.emails))
deleted d id (inr k) = some (0, d)

abbrev pub engine : Engine Tables
engine = record {
  count_emails = λ d. some (length d.emails);
  delete_oldest = λ d n.
      some (
        restrict d (take (length d.emails - n) d.emails)
          (Part-take (length d.emails - n) d.emails));
  select_attachments = λ d id. some (filter (row_of_email id) d.attachments);
  insert_email = λ d r. inserted d r (has_key r.id d.emails);
  insert_attachment = λ d a. attached d a (has_key a.email_id d.emails);
  select_email = λ d id. some (filter (row_has_id id) d.emails);
  select_emails = λ d cs. some (filter (meets like cs) d.emails);
  select_named = λ d id filename.
      some (filter (λ a. row_of_email id a && text_eq a.filename filename) d.attachments);
  select_cid = λ d id cid.
      some (filter (λ a. row_of_email id a && opt_text_eq a.content_id (some cid)) d.attachments);
  delete_emails = λ d. some (restrict d [] (Part-nil d.emails));
  delete_email = λ d id. deleted d id (has_key id d.emails);
  checkpoint = λ d. some d;
}
