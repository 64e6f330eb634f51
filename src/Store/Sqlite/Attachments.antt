-- ===== src/Store/Sqlite/Attachments.antt =====
-- The attachments of the SQLite store.
use smtp_sink.Prelude.{
  some-ne-none, and_both, done, skip, swap, chain, ◌≡◌, ◌≢◌, ◌∙◌, refl, sym, ap, inl, inr, Bool,
  true, ◌&&◌, List, [], ◌∷◌, Option, none, some, filter, All, Any, Has, Rearranges, arith, Any-Has,
  subst, Rearranges-sym, Rearranges-Has, All-Has, All-of_Has, of_filter, in_filter,
}
use smtp_sink.Text.{Text, text_eq, text_eq_iff}
use smtp_sink.Email.{Attachment, MailRecord}
use smtp_sink.Store.Defs.{Offers}
use smtp_sink.Store.Rows.{Engine, Json, AttachmentRow, attachments_of_rows, attachment_of_row}
use smtp_sink.Store.Sqlite.{
  SqliteStore, first_row, load_record, load_attachments, attachment_of_first, get_by_id,
  get_attachment,
}
use smtp_sink.Store.Sqlite.Laws.{IsSqlite, row_of_email}
use smtp_sink.Store.Sqlite.Insertion.{rows_of, attachments_of_rows-rows_of}
use smtp_sink.Store.Sqlite.Lookup.{has_key, get_by_id_present, get_by_id_lacking}

and_true : (a b : Bool) → a ≡ true → b ≡ true → (a && b) ≡ true
and_true a b h k = ground arith

attachments_or : Option MailRecord → List Attachment
attachments_or none = []
attachments_or (some e) = e.attachments

Has-attachments_of_rows :
    (a : AttachmentRow) (rs : List AttachmentRow)
    → Has a rs
    → Has (attachment_of_row a) (attachments_of_rows rs)
unfolding attachments_of_rows
Has-attachments_of_rows a [] h = absurd h
Has-attachments_of_rows a (r ∷ rs) (inl e) = inl (ap attachment_of_row e)
Has-attachments_of_rows a (r ∷ rs) (inr h) = inr (Has-attachments_of_rows a rs h)

All-attachments_of_rows :
    (P : Attachment → Type 0) (rs : List AttachmentRow)
    → All (λ r. P (attachment_of_row r)) rs
    → All P (attachments_of_rows rs)
unfolding attachments_of_rows
All-attachments_of_rows P [] h = tt
All-attachments_of_rows P (r ∷ rs) h = (h.0, All-attachments_of_rows P rs h.1)

pub Rearranges-attachments_of_rows :
    {rs ts : List AttachmentRow}
    → Rearranges rs ts
    → Rearranges (attachments_of_rows rs) (attachments_of_rows ts)
unfolding attachments_of_rows
Rearranges-attachments_of_rows done = done
Rearranges-attachments_of_rows (skip r h) =
    skip (attachment_of_row r) (Rearranges-attachments_of_rows h)
Rearranges-attachments_of_rows (swap r t rs) =
    swap (attachment_of_row r) (attachment_of_row t) (attachments_of_rows rs)
Rearranges-attachments_of_rows (chain h k) =
    chain (Rearranges-attachments_of_rows h) (Rearranges-attachments_of_rows k)

module _ {D : Type 0} {engine : Engine D} (law : IsSqlite engine) (json : Json) where
  -- A row under a name is one of the rows of the email, with the name.
  named_row :
      (d : D) (id filename : Text) (a : AttachmentRow)
      → Has a (law.selects_named d id filename).given
      → Has a (law.selects_attachments d id).given × (a.filename ≡ filename)
  named_row d id filename a h =
      let k =
        of_filter (λ b. row_of_email id b && text_eq b.filename filename) (law.attachments d)
          (Rearranges-Has a (Rearranges-sym (law.selects_named d id filename).same) h) in
      let t = and_both _ _ k.1 in
      (
        Rearranges-Has a (law.selects_attachments d id).same
            (in_filter (row_of_email id) (law.attachments d) t.0 k.0),
        (text_eq_iff a.filename filename).0 t.1,
      )

  row_named :
      (d : D) (id filename : Text) (a : AttachmentRow)
      → Has a (law.selects_attachments d id).given
      → a.filename ≡ filename
      → Has a (law.selects_named d id filename).given
  row_named d id filename a h e =
      let k =
        of_filter (row_of_email id) (law.attachments d)
          (Rearranges-Has a (Rearranges-sym (law.selects_attachments d id).same) h) in
      Rearranges-Has a (law.selects_named d id filename).same (
        in_filter (λ b. row_of_email id b && text_eq b.filename filename) (law.attachments d)
          (and_true _ _ k.1 ((text_eq_iff a.filename filename).1 e)) k.0)

  first-Offers :
      (d : D) (id filename : Text) (l : List AttachmentRow)
      → (law.selects_named d id filename).given ≡ l
      → Offers filename
          (attachments_of_rows (law.selects_attachments d id).given)
          (attachment_of_first (first_row (some l)))
  unfolding attachment_of_row
  first-Offers d id filename [] e =
      All-attachments_of_rows (λ a. a.filename ≢ filename) (law.selects_attachments d id).given
        (All-of_Has _ (law.selects_attachments d id).given
          λ a h k. absurd (subst (Has a) e (row_named d id filename a h k)))
  first-Offers d id filename (a ∷ l) e =
      let k = named_row d id filename a (subst (Has a) (sym e) (inl refl)) in
      (Has-attachments_of_rows a (law.selects_attachments d id).given k.0, k.1)

  pub load_attachments_lem :
      (d : D) (id : Text)
      → load_attachments engine d id ≡ attachments_of_rows (law.selects_attachments d id).given
  unfolding load_attachments
  load_attachments_lem d id = rw (law.selects_attachments d id).runs

  pub loaded_attachments :
      (s : SqliteStore D) (id : Text) (e : MailRecord)
      → get_by_id engine json s id ≡ some e
      → e.attachments ≡ attachments_of_rows (law.selects_attachments s.conn id).given
  unfolding load_record attachments_or
  loaded_attachments s id e h = elim (has_key id (law.emails s.conn)) [
    | inl k ↦
        let (r, m, same) = Any-Has (λ x. x.id ≡ id) (law.emails s.conn) k in
        ap attachments_or (sym h ∙ get_by_id_present law json s id r m same)
        ∙ ap (load_attachments engine s.conn) same
        ∙ load_attachments_lem s.conn id
    | inr k ↦ absurd (some-ne-none (sym h ∙ get_by_id_lacking law json s id k))
  ]

  pub get_attachment-Offers :
      (s : SqliteStore D) (id filename : Text) (e : MailRecord)
      → get_by_id engine json s id ≡ some e
      → Offers filename e.attachments (get_attachment engine s id filename)
  unfolding get_attachment
  get_attachment-Offers s id filename e h =
      rw (loaded_attachments s id e h, (law.selects_named s.conn id filename).runs)
        (first-Offers s.conn id filename _ refl)

  none_named :
      (d : D) (id filename : Text) (l : List AttachmentRow)
      → All (λ r. r.id ≢ id) (law.emails d)
      → (law.selects_named d id filename).given ≡ l
      → attachment_of_first (first_row (some l)) ≡ none
  none_named d id filename [] h e = refl
  none_named d id filename (a ∷ l) h e =
      let k =
        of_filter (λ b. row_of_email id b && text_eq b.filename filename) (law.attachments d)
          (Rearranges-Has a (Rearranges-sym (law.selects_named d id filename).same)
            (subst (Has a) (sym e) (inl refl))) in
      let (r, m, same) =
        Any-Has (λ r. r.id ≡ a.email_id) (law.emails d)
          (All-Has (λ b. Any (λ r. r.id ≡ b.email_id) (law.emails d)) a (law.attachments d)
            (law.owners d) k.0) in
      absurd (
        All-Has (λ r. r.id ≢ id) r (law.emails d) h m
          (same ∙ (text_eq_iff a.email_id id).0 (and_both _ _ k.1).0))

  pub get_attachment_lacking :
      (s : SqliteStore D) (id filename : Text)
      → get_by_id engine json s id ≡ none
      → get_attachment engine s id filename ≡ none
  unfolding get_attachment
  get_attachment_lacking s id filename h = elim (has_key id (law.emails s.conn)) [
    | inl k ↦
        let (r, m, same) = Any-Has (λ x. x.id ≡ id) (law.emails s.conn) k in
        absurd (some-ne-none (sym (get_by_id_present law json s id r m same) ∙ h))
    | inr k ↦
        rw (law.selects_named s.conn id filename).runs (none_named s.conn id filename _ k refl)
  ]

  -- Attachments whose rows are in the table are loaded, in some order.
  pub Rearranges-load_attachments :
      (d : D) (id : Text) (as' : List Attachment)
      → Rearranges (rows_of id as') (filter (row_of_email id) (law.attachments d))
      → Rearranges as' (load_attachments engine d id)
  Rearranges-load_attachments d id as' h = rw (load_attachments_lem d id) (
      subst (λ l. Rearranges l (attachments_of_rows (law.selects_attachments d id).given))
        (attachments_of_rows-rows_of id as')
        (Rearranges-attachments_of_rows (chain h (law.selects_attachments d id).same)))
