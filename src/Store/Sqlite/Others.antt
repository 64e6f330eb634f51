-- ===== src/Store/Sqlite/Others.antt =====
-- What `push` and `remove` of src/sqlite_store.rs leave of the other emails.
use smtp_sink.Prelude.{
  some-ne-none, of_some, Bool-cases, ◌≡◌, ◌≢◌, ◌∙◌, sym, ap, inl, inr, not, List, ◌∷◌, ◌++◌, none,
  true, some, filter, Any, Has, Rearranges, chain, Rearranges_refl, Rearranges-Has, Rearranges-sym,
  Has-append_left, in_filter, Any-of_Has, Any-Has, subst,
}
use smtp_sink.Text.{Text, text_eq, text_eq_iff}
use smtp_sink.Email.{Attachment, MailRecord}
use smtp_sink.Store.Rows.{Engine, Json, EmailRow, row_of}
use smtp_sink.Store.Sqlite.{
  SqliteStore, enforce_max, push, remove, removed, get_by_id, load_record, load_attachments, notify,
}
use smtp_sink.Store.Sqlite.Laws.{IsSqlite, row_of_email, row_has_id}
use smtp_sink.Store.Sqlite.Lookup.{has_key, get_by_id_present}
use smtp_sink.Store.Sqlite.Attachments.{
  loaded_attachments, load_attachments_lem, Rearranges-attachments_of_rows,
}
use smtp_sink.Store.Sqlite.Insertion.{enforce_max-Cut}
use smtp_sink.Store.Sqlite.Push.{present_key, push-Inserted, push_rejected}

module _ {D : Type 0} {engine : Engine D} (law : IsSqlite engine) (json : Json) where
  -- The email is in the store as it was, but for the order of its attachments.
  abbrev pub StillHas : SqliteStore D → Text → MailRecord → Type 0
  StillHas t id x =
      (l : List Attachment) × (get_by_id engine json t id ≡ some (record x { attachments = l }))
      × Rearranges x.attachments l

  -- It is, where its row is one of those before, with the same rows of attachments.
  still :
      (s t : SqliteStore D) (id : Text) (x : MailRecord) (r : EmailRow)
      → get_by_id engine json s id ≡ some x
      → Has r (law.emails s.conn)
      → Has r (law.emails t.conn)
      → r.id ≡ id
      → Rearranges
          (filter (row_of_email id) (law.attachments s.conn))
          (filter (row_of_email id) (law.attachments t.conn))
      → StillHas t id x
  unfolding load_record
  still s t id x r found m m' same h =
      let e : load_record engine json s.conn r ≡ x =
        of_some (sym (get_by_id_present law json s id r m same) ∙ found) in
      let l = load_attachments engine t.conn r.id in
      (
        l,
        get_by_id_present law json t id r m' same
            ∙ ap (λ (y : MailRecord). some (record y { attachments = l })) e,
        rw (loaded_attachments law json s id x found, same, load_attachments_lem law json t.conn id)
            (Rearranges-attachments_of_rows (
              chain (Rearranges-sym (law.selects_attachments s.conn id).same)
                (chain h (law.selects_attachments t.conn id).same))),
      )

  -- A row that was not pushed just now was there before.
  was_there :
      (s : SqliteStore D) (e : MailRecord) (d : D) (gone : List EmailRow) (tables : D)
      (r : EmailRow)
      → Rearranges (row_of json e ∷ law.emails s.conn) (law.emails tables)
      → Rearranges (law.emails tables) (law.emails d ++ gone)
      → r.id ≢ e.id
      → Has r (law.emails d)
      → Has r (law.emails s.conn)
  unfolding row_of
  was_there s e d gone tables r rows cut ne m =
      elim (Rearranges-Has r (Rearranges-sym rows)
        (Rearranges-Has r (Rearranges-sym cut) (Has-append_left r (law.emails d) gone m))) [
          | inl k ↦ absurd (ne (sym (ap (λ (y : EmailRow). y.id) k)))
          | inr k ↦ k
        ]

  -- The rows of attachments that the second tables have for an email are those that the first have.
  abbrev Kept : D → Text → D → Type 0
  Kept c id d =
      Rearranges (filter (row_of_email id) (law.attachments c))
        (filter (row_of_email id) (law.attachments d))

  pub has_email :
      (s : SqliteStore D) (id : Text)
      → Any (λ r. r.id ≡ id) (law.emails s.conn)
      → get_by_id engine json s id ≢ none
  has_email s id k n =
      let (r, m, same) = Any-Has (λ x. x.id ≡ id) (law.emails s.conn) k in
      some-ne-none (sym (get_by_id_present law json s id r m same) ∙ n)

  pub not_id : (r : EmailRow) (id : Text) → r.id ≢ id → not (row_has_id id r) ≡ true
  not_id r id h = elim (Bool-cases (text_eq r.id id)) [
    | inl e ↦ absurd (h ((text_eq_iff r.id id).0 e))
    | inr e ↦ rw e
  ]

  -- With an engine that does what its statements say, whether or not an email is taken in: an email
  -- with another id that is still in the store behind the `push` is as it was, but for the order of
  -- its attachments.
  pub push-others :
      (s : SqliteStore D) (e x : MailRecord) (id : Text)
      → id ≢ e.id
      → get_by_id engine json s id ≡ some x
      → get_by_id engine json (push engine json s e) id ≢ none
      → StillHas (push engine json s e) id x
  push-others s e x id ne found left =
      let (r, m, same) =
        Any-Has (λ x. x.id ≡ id) _ (present_key law json (push engine json s e) id left) in
      elim (has_key e.id (law.emails s.conn)) [
        | inl k ↦
            let c =
              ap (λ (t : SqliteStore D). t.conn)
                (push_rejected law json s e (has_email s e.id k)) in
            still s (push engine json s e) id x r found (subst (λ d. Has r (law.emails d)) c m) m
              same (subst (Kept s.conn id) (sym c) (Rearranges_refl _))
        | inr k ↦
            let i = push-Inserted law json s e k in
            let d = enforce_max engine s.max i.tables in
            let (gone, n, cut, older, kept, times) = enforce_max-Cut law s.max i.tables in
            let m' = subst (λ d. Has r (law.emails d)) i.bounded m in
            still s (push engine json s e) id x r found
              (was_there s e d gone i.tables r i.rows cut (λ q. ne (sym same ∙ q)) m') m same
              (subst (Kept s.conn id) (sym i.bounded) (
                subst (Rearranges (filter (row_of_email id) (law.attachments s.conn)))
                  (sym (kept id (Any-of_Has (λ y. y.id ≡ id) r (law.emails d) m' same)))
                  (i.others id ne)))
      ]

  -- With an engine that does what its statements say, an email with another id than the one that is
  -- removed is still in the store as it was, but for the order of its attachments.
  pub remove-others :
      (s : SqliteStore D) (id other : Text) (x : MailRecord)
      → other ≢ id
      → get_by_id engine json s other ≡ some x
      → StillHas (remove engine s id).0 other x
  unfolding remove
  remove-others s id other x ne found =
      let (r, m, same) =
        Any-Has (λ y. y.id ≡ other) (law.emails s.conn)
          (present_key law json s other λ n. some-ne-none (sym found ∙ n)) in
      elim (has_key id (law.emails s.conn)) [
        | inl k ↦
            let (d, runs, rows, kept, times) = law.deletes s.conn id k in
            let m' = subst (Has r) (sym rows) (
              in_filter (λ r. not (row_has_id id r)) (law.emails s.conn)
                (not_id r id λ q. ne (sym same ∙ q)) m) in
            subst (λ t. StillHas t other x) (sym (ap (λ o. (removed engine s o).0) runs))
              (still s (notify (record s { conn = d })) other x r found m m' same (
                subst (Rearranges (filter (row_of_email other) (law.attachments s.conn)))
                  (sym (kept other (Any-of_Has (λ y. y.id ≡ other) r (law.emails d) m' same)))
                  (Rearranges_refl _)))
        | inr k ↦
            subst (λ t. StillHas t other x)
              (sym (ap (λ o. (removed engine s o).0) (law.deletes_none s.conn id k)))
              (x.attachments, found, Rearranges_refl x.attachments)
      ]
