-- ===== src/Store/Agree/Answers.antt =====
-- What clients are answered by the two backends of src/store.rs and src/sqlite_store.rs.
use smtp_sink.Prelude.{
  reverse, ℕ, ◌≤◌, ◌≡◌, ◌≢◌, ◌∙◌, refl, sym, ap, subst, inl, inr, List, [], ◌∷◌, Option, none, some,
  Any, Has, Pairwise, Rearranges, arith, All-Has, All-of_Has, Any-Has, Any-of_Has, of_Has-append,
  of_some, is_some, Rearranges-Has, Rearranges-sym, Has-append_left, Has-append_right, Option-cases,
  find, find-Has,
}
use smtp_sink.Text.{Text}
use smtp_sink.Email.{Attachment, MailRecord, has_id}
use smtp_sink.Store.Rows.{Engine, Json, EmailRow}
use smtp_sink.Store.Memory
use smtp_sink.Store.Memory.{MemoryStore}
use smtp_sink.Store.Sqlite.{SqliteStore, load_record, load_records, get_all, get_by_id, remove}
use smtp_sink.Store.Sqlite.Laws.{IsSqlite, IsJson}
use smtp_sink.Store.Sqlite.Lookup.{
  all_rows, all_keys, get_all_lem, get_by_id_present, get_by_id_lacking,
}
use smtp_sink.Store.Agree.{Agrees, Earlier, row_present, row_absent, find-none-Lacks}
use smtp_sink.Store.Agree.Push.{Pairwise-snoc}
use smtp_sink.Store.Sqlite.Interface.{sqlite_storage-IsLawful}
use smtp_sink.Store.Memory.Interface.{remove-is_some}
use smtp_sink.Store.Agree.Remove.{find_id}
use smtp_sink.Store.Agree.Run.{Together, Together-Agrees_max}

-- The same email, but for the order of its attachments.
abbrev pub Alike : MailRecord → MailRecord → Type 0
Alike x y = (l : List Attachment) × (y ≡ record x { attachments = l }) × Rearranges x.attachments l

abbrev pub AlikeOption : Option MailRecord → Option MailRecord → Type 0
AlikeOption none none = Unit
AlikeOption none (some y) = ⊥
AlikeOption (some x) none = ⊥
AlikeOption (some x) (some y) = Alike x y

-- One by one, in the same order.
abbrev pub AlikeList : List MailRecord → List MailRecord → Type 0
AlikeList [] [] = Unit
AlikeList [] (y ∷ ys) = ⊥
AlikeList (x ∷ xs) [] = ⊥
AlikeList (x ∷ xs) (y ∷ ys) = Alike x y × AlikeList xs ys

of_Has-reverse : {A : Type 0} (a : A) (xs : List A) → Has a (reverse xs) → Has a xs
of_Has-reverse a [] m = m
of_Has-reverse a (x ∷ xs) m = elim (of_Has-append a (reverse xs) (x ∷ []) m) [
  | inl k ↦ inr (of_Has-reverse a xs k)
  | inr (inl e) ↦ inl e
  | inr (inr k) ↦ absurd k
]

Has-reverse : {A : Type 0} (a : A) (xs : List A) → Has a xs → Has a (reverse xs)
Has-reverse a [] m = m
Has-reverse a (x ∷ xs) (inl e) = Has-append_right a (reverse xs) (x ∷ []) (inl e)
Has-reverse a (x ∷ xs) (inr m) = Has-append_left a (reverse xs) (x ∷ []) (Has-reverse a xs m)

Pairwise-reverse :
    {A : Type 0} (R : A → A → Type 0) (xs : List A)
    → Pairwise R xs
    → Pairwise (λ x y. R y x) (reverse xs)
Pairwise-reverse R [] h = tt
Pairwise-reverse R (x ∷ xs) h =
    Pairwise-snoc (λ x y. R y x) (reverse xs) x (Pairwise-reverse R xs h.1)
      (All-of_Has (R x) (reverse xs) λ y m. All-Has (R x) y xs h.0 (of_Has-reverse y xs m))

module _ {D : Type 0} {engine : Engine D} (law : IsSqlite engine) (json : Json) where
  -- Two lists of the same ids, both the newest first.
  match_rows :
      (d : D) (xs : List MailRecord) (rs : List EmailRow)
      → Pairwise (λ x y. Earlier law json d y x) xs
      → Pairwise (λ x y. law.created_at d y.id ≤ law.created_at d x.id) rs
      → Pairwise (λ x y. x.id ≢ y.id) rs
      → ((x : MailRecord) → Has x xs → Any (λ r. r.id ≡ x.id) rs)
      → ((r : EmailRow) → Has r rs → Any (λ x. x.id ≡ r.id) xs)
      → ((x : MailRecord) (r : EmailRow)
          → Has x xs
          → Has r rs
          → r.id ≡ x.id
          → Alike x (load_record engine json d r))
      → AlikeList xs (load_records engine json d rs)
  unfolding load_records
  match_rows d [] [] newest sorted keys rows known same = tt
  match_rows d [] (r ∷ rs) newest sorted keys rows known same = known r (inl refl)
  match_rows d (x ∷ xs) [] newest sorted keys rows known same = rows x (inl refl)
  match_rows d (x ∷ xs) (r ∷ rs) newest sorted keys rows known same =
      let heads = first_same (rows x (inl refl)) (known r (inl refl)) in
      (
        same x r (inl refl) (inl refl) heads,
        match_rows d xs rs newest.1 sorted.1 keys.1 (λ y m. later_row y m heads (rows y (inr m)))
            (λ q m. later_email q m heads (known q (inr m))) (λ y q m n. same y q (inr m) (inr n)),
      )
    where
      first_same : Any (λ r. r.id ≡ x.id) (r ∷ rs) → Any (λ x. x.id ≡ r.id) (x ∷ xs) → r.id ≡ x.id
      first_same (inl e) k = e
      first_same (inr h) (inl e) = sym e
      first_same (inr h) (inr k) =
          let (q, m, e) = Any-Has (λ q. q.id ≡ x.id) rs h in
          let (y, n, e') = Any-Has (λ y. y.id ≡ r.id) xs k in
          let later =
            All-Has (λ q. law.created_at d q.id ≤ law.created_at d r.id) q rs sorted.0 m in
          let earlier = All-Has (λ y. Earlier law json d y x) y xs newest.0 n in
          absurd (omega (arith, later, earlier, ap (law.created_at d) e, ap (law.created_at d) e'))

      later_row :
          (y : MailRecord)
          → Has y xs
          → r.id ≡ x.id
          → Any (λ q. q.id ≡ y.id) (r ∷ rs)
          → Any (λ q. q.id ≡ y.id) rs
      later_row y m e (inl e') =
          let earlier = All-Has (λ y. Earlier law json d y x) y xs newest.0 m in
          absurd (omega (arith, earlier, ap (law.created_at d) (sym e ∙ e')))
      later_row y m e (inr h) = h

      later_email :
          (q : EmailRow)
          → Has q rs
          → r.id ≡ x.id
          → Any (λ y. y.id ≡ q.id) (x ∷ xs)
          → Any (λ y. y.id ≡ q.id) xs
      later_email q m e (inl e') = absurd (All-Has (λ q. r.id ≢ q.id) q rs keys.0 m (e ∙ e'))
      later_email q m e (inr h) = h

  module _ {s : MemoryStore} {t : SqliteStore D} (a : Agrees law json s t) where
    -- The email of a row is the one in memory with its id.
    loaded-Alike :
        (x : MailRecord) (r : EmailRow)
        → Has x s.emails
        → Has r (law.emails t.conn)
        → r.id ≡ x.id
        → Alike x (load_record engine json t.conn r)
    loaded-Alike x r m k same =
        let (l, found, q) = a.shown x m in
        (l, of_some (sym (get_by_id_present law json t x.id r k same) ∙ found), q)

    Agrees-get_all : AlikeList (reverse (Memory.get_all s)) (get_all engine json t)
    unfolding Memory.get_all
    Agrees-get_all =
        let rows = all_rows law json t.conn in
        subst (AlikeList (reverse s.emails)) (sym (get_all_lem law json t)) (
          match_rows t.conn (reverse s.emails) (law.selects_emails t.conn [] tt).given
            (Pairwise-reverse (Earlier law json t.conn) s.emails a.order)
            (law.newest_first t.conn [] _ (law.selects_emails t.conn [] tt).runs)
            (all_keys law json t.conn)
            (λ x m.
              let (r, k, e) =
                Any-Has (λ r. r.id ≡ x.id) (law.emails t.conn)
                  (row_present law json a x (of_Has-reverse x s.emails m)) in
              Any-of_Has (λ r. r.id ≡ x.id) r _ (Rearranges-Has r rows k) e)
            (λ r m.
              let (x, k, e) =
                Any-Has (λ x. x.id ≡ r.id) s.emails
                  (a.known r (Rearranges-Has r (Rearranges-sym rows) m)) in
              Any-of_Has (λ x. x.id ≡ r.id) x (reverse s.emails) (Has-reverse x s.emails k) e)
            (λ x r m k e.
              loaded-Alike x r (of_Has-reverse x s.emails m)
                (Rearranges-Has r (Rearranges-sym rows) k) e))

    Agrees-get_by_id :
        (id : Text) → AlikeOption (Memory.get_by_id s id) (get_by_id engine json t id)
    unfolding Memory.get_by_id
    Agrees-get_by_id id = elim (Option-cases (find (has_id id) s.emails)) [
      | inl none_here ↦
          rw
            (
              none_here,
              get_by_id_lacking law json t id
                  (row_absent law json a id (find-none-Lacks id s.emails none_here)),
            )
            tt
      | inr (x, here) ↦
          let (l, found, q) = a.shown x (find-Has (has_id id) x s.emails here) in
          rw
            (
              here,
              subst (λ i. get_by_id engine json t i ≡ some (record x { attachments = l }))
                  (find_id id s.emails x here) found,
            )
            (l, refl, q)
    ]

    Agrees-remove : (id : Text) → (Memory.remove s id).1 ≡ (remove engine t id).1
    Agrees-remove id =
        remove-is_some s id
        ∙ alike_is_some (Memory.get_by_id s id) (get_by_id engine json t id) (Agrees-get_by_id id)
        ∙ sym ((sqlite_storage-IsLawful law json).remove-is_some t id)
      where
        alike_is_some : (x y : Option MailRecord) → AlikeOption x y → is_some x ≡ is_some y
        alike_is_some none none h = refl
        alike_is_some none (some y) h = absurd h
        alike_is_some (some x) none h = absurd h
        alike_is_some (some x) (some y) h = refl

  -- With an engine that does what its statements say, and JSON that reads back what it wrote: take a
  -- store in memory and a SQLite store that is opened on empty tables, both with the same maximum of
  -- at least one, and give both the same calls, where each email that is pushed has a new id and comes
  -- in a later second than those that are stored. Then, but for the order of the attachments of an
  -- email, the SQLite store lists the emails that the store in memory lists, in the reverse order;
  -- both find the same email under each id, or none; both answer a removal alike; and both have sent as
  -- many notifications.
  pub Together-alike :
      (law' : IsJson json) {max : ℕ}
      → 1 ≤ max
      → {s : MemoryStore} {t : SqliteStore D} → Together law json max s t
      → AlikeList (reverse (Memory.get_all s)) (get_all engine json t)
        × ((id : Text)
            → AlikeOption (Memory.get_by_id s id) (get_by_id engine json t id)
              × ((Memory.remove s id).1 ≡ (remove engine t id).1))
        × (t.notified ≡ s.notified)
  Together-alike law' one h =
      let a = (Together-Agrees_max law json law' one h).0 in
      (Agrees-get_all a, λ id. (Agrees-get_by_id a id, Agrees-remove a id), a.told)
