-- ===== src/Store/Sqlite/Push.antt =====
-- `SqliteStore::push` of src/sqlite_store.rs: what it stores, what it drops, and when it fails.
use smtp_sink.Prelude.{
  some-ne-none, ◌⊎◌, ℕ, suc, ◌≤◌, ◌<◌, ◌-◌, ◌≡◌, ◌≢◌, ◌∙◌, refl, sym, ap, inl, inr, List, [], ◌∷◌,
  ◌++◌, none, some, filter, All, Any, Has, Rearranges, length, Rearranges-length, Rearranges-Has,
  Rearranges-filter, Any-of_Has, All-Has, All-of_Has, Any-Has, if◌then◌else◌, arith, ltb, subst,
}
use smtp_sink.Text.{Text}
use smtp_sink.Email.{Attachment, MailRecord}
use smtp_sink.Store.Rows.{Engine, Json, EmailRow, row_of, row_to_record}
use smtp_sink.Store.Sqlite.{
  SqliteStore, insert_attachments, enforce_max, kept, push, get_all, get_by_id, load_record,
  load_records, notify, load_attachments,
}
use smtp_sink.Store.Sqlite.Laws.{IsSqlite, IsJson, row_of_email}
use smtp_sink.Store.Sqlite.Lookup.{
  has_key, get_all_lem, all_rows, get_by_id_present, get_by_id_lacking,
}
use smtp_sink.Store.Sqlite.Attachments.{Rearranges-load_attachments}
use smtp_sink.Store.Sqlite.Insertion.{
  rows_of, filter-rows_of, filter-rows_of_ne, insert_attachments-Attached, enforce_max-Cut,
  Cut-length, Cut-Has, Roomy,
}

module _ {D : Type 0} {engine : Engine D} (law : IsSqlite engine) (json : Json) where
  length-load_records :
      (d : D) (rs : List EmailRow) → length (load_records engine json d rs) ≡ length rs
  unfolding load_records
  length-load_records d [] = refl
  length-load_records d (r ∷ rs) = ap suc (length-load_records d rs)

  -- There are as many emails as rows.
  pub length-get_all :
      (s : SqliteStore D) → length (get_all engine json s) ≡ length (law.emails s.conn)
  length-get_all s =
      ap length (get_all_lem law json s)
      ∙ length-load_records s.conn _
      ∙ sym (Rearranges-length (all_rows law json s.conn))

  -- An id without an email has no row, and one with an email has one.
  pub absent_key :
      (s : SqliteStore D) (id : Text)
      → get_by_id engine json s id ≡ none
      → All (λ r. r.id ≢ id) (law.emails s.conn)
  absent_key s id h = elim (has_key id (law.emails s.conn)) [
    | inl k ↦
        let (r, m, same) = Any-Has (λ x. x.id ≡ id) (law.emails s.conn) k in
        absurd (some-ne-none (sym (get_by_id_present law json s id r m same) ∙ h))
    | inr k ↦ k
  ]

  pub present_key :
      (s : SqliteStore D) (id : Text)
      → get_by_id engine json s id ≢ none
      → Any (λ r. r.id ≡ id) (law.emails s.conn)
  present_key s id h = elim (has_key id (law.emails s.conn)) [
    | inl k ↦ k
    | inr k ↦ absurd (h (get_by_id_lacking law json s id k))
  ]

  -- The tables behind the insertions, ahead of the bound.
  pub record Inserted (s : SqliteStore D) (e : MailRecord) : Type 0 where
    pub tables : D
    pub bounded : (push engine json s e).conn ≡ enforce_max engine s.max tables
    pub rows : Rearranges (row_of json e ∷ law.emails s.conn) (law.emails tables)
    pub attached :
        Rearranges
          (rows_of e.id e.attachments)
          (filter (row_of_email e.id) (law.attachments tables))
    pub others :
        (id : Text)
        → id ≢ e.id
        → Rearranges
            (filter (row_of_email id) (law.attachments s.conn))
            (filter (row_of_email id) (law.attachments tables))
    pub newest : law.created_at tables e.id ≡ law.now s.conn
    pub older : (id : Text) → id ≢ e.id → law.created_at tables id ≡ law.created_at s.conn id

  lacks_attachments :
      (d : D) (id : Text)
      → All (λ r. r.id ≢ id) (law.emails d)
      → All (λ a. a.email_id ≢ id) (law.attachments d)
  lacks_attachments d id h =
      All-of_Has (λ a. a.email_id ≢ id) (law.attachments d)
        λ a m same.
          let (r, k, e) =
            Any-Has (λ r. r.id ≡ a.email_id) (law.emails d)
              (All-Has (λ b. Any (λ r. r.id ≡ b.email_id) (law.emails d)) a (law.attachments d)
                (law.owners d) m) in
          All-Has (λ r. r.id ≢ id) r (law.emails d) h k (e ∙ same)

  pub push-Inserted :
      (s : SqliteStore D) (e : MailRecord)
      → All (λ r. r.id ≢ e.id) (law.emails s.conn)
      → Inserted s e
  unfolding push row_of
  push-Inserted s e h =
      let (d, runs, rows, same, now, times) = law.inserts s.conn (row_of json e) h in
      let (rows', attached, times') = insert_attachments-Attached law e.id e.attachments d (
        Any-of_Has (λ r. r.id ≡ e.id) (row_of json e) (law.emails d)
          (Rearranges-Has (row_of json e) rows (inl refl)) refl) in
      let attached' = Rearranges-filter (row_of_email e.id) attached in
      let bare =
        ap (filter (row_of_email e.id)) (ap (λ l. rows_of e.id e.attachments ++ l) same)
        ∙ filter-rows_of e.id e.attachments (law.attachments s.conn)
            (lacks_attachments s.conn e.id h) in
      record {
        tables = insert_attachments engine e.id e.attachments d;
        bounded = ap (kept engine json s.max e s.conn) runs;
        rows = subst (Rearranges (row_of json e ∷ law.emails s.conn)) (sym rows') rows;
        attached =
            subst
              (λ l. Rearranges l (
                filter (row_of_email e.id)
                  (law.attachments (insert_attachments engine e.id e.attachments d))))
              bare attached';
        others = λ id ne.
            subst
              (λ l. Rearranges l (
                filter (row_of_email id)
                  (law.attachments (insert_attachments engine e.id e.attachments d))))
              (filter-rows_of_ne e.id id e.attachments (law.attachments d) ne
                ∙ ap (filter (row_of_email id)) same)
              (Rearranges-filter (row_of_email id) attached);
        newest = times' e.id ∙ now;
        older = λ id ne. times' id ∙ times id ne;
      }

  -- With an engine that does what its statements say, an email whose id is not in the store is
  -- taken in: the store then lists one email more, but never more than its maximum, even where it
  -- listed more before, as the database of an earlier run may.
  pub push-count :
      (s : SqliteStore D) (e : MailRecord)
      → get_by_id engine json s e.id ≡ none
      → let n = suc (length (get_all engine json s)) in
        length (get_all engine json (push engine json s e)) ≡ (if ltb s.max n then s.max else n)
  push-count s e h =
      let i = push-Inserted s e (absent_key s e.id h) in
      length-get_all (push engine json s e)
      ∙ ap (λ d. length (law.emails d)) i.bounded
      ∙ Cut-length law s.max i.tables _ (enforce_max-Cut law s.max i.tables)
      ∙ counted s.max _ _ _ (Rearranges-length i.rows) (length-get_all s)
    where
      counted :
          (max n m l : ℕ)
          → suc m ≡ n
          → l ≡ m
          → n - (n - max) ≡ (if ltb max (suc l) then max else suc l)
      counted max n m l h k = ground arith

  -- With an engine that does what its statements say, an email whose id is in the store is refused
  -- and changes nothing; yet the subscribers are notified.
  pub push_rejected :
      (s : SqliteStore D) (e : MailRecord)
      → get_by_id engine json s e.id ≢ none
      → push engine json s e ≡ notify s
  unfolding push row_of
  push_rejected s e h = rw (law.rejects s.conn (row_of json e) (present_key s e.id h))

  unread :
      (json' : IsJson json) (e : MailRecord) (l : List Attachment)
      → record (row_to_record json (row_of json e)) { attachments = l }
        ≡ record e { attachments = l }
  unfolding row_to_record row_of
  unread law' e l =
      let (t, w, r) = law'.texts e.to in
      let (u, w', r') = law'.headers e.headers in rw (w, r, w', r')

  room_behind :
      (s : SqliteStore D) (e : MailRecord)
      → All (λ r. r.id ≢ e.id) (law.emails s.conn)
      → (i : Inserted s e)
      → (suc (length (get_all engine json s)) ≤ s.max)
        ⊎ ((1 ≤ s.max) × All (λ x. law.created_at s.conn x.id < law.now s.conn) (law.emails s.conn))
      → Roomy law s.max i.tables (row_of json e) (law.emails s.conn)
  unfolding row_of
  room_behind s e absent i (inl h) = inl (omega (arith, h, length-get_all s))
  room_behind s e absent i (inr (one, h)) = inr (
    one,
    All-of_Has _ (law.emails s.conn) λ x m. omega (
      arith,
      i.newest,
      i.older x.id (All-Has (λ r. r.id ≢ e.id) x (law.emails s.conn) absent m),
      All-Has (λ x. law.created_at s.conn x.id < law.now s.conn) x (law.emails s.conn) h m,
    ),
  )

  -- With an engine that does what its statements say, and JSON that reads back what it wrote: an
  -- email whose id is not in the store is found under it behind a `push`, as it was but for the
  -- order of its attachments, if the bound is not reached yet, or if it is one at least and every
  -- other email has an older time, which counts whole seconds.
  pub push-get_by_id :
      (law' : IsJson json) (s : SqliteStore D) (e : MailRecord)
      → get_by_id engine json s e.id ≡ none
      → (suc (length (get_all engine json s)) ≤ s.max)
        ⊎ ((1 ≤ s.max) × All (λ x. law.created_at s.conn x.id < law.now s.conn) (law.emails s.conn))
      → (l : List Attachment) × (get_by_id engine json (push engine json s e) e.id
          ≡ some (record e { attachments = l }))
        × Rearranges e.attachments l
  unfolding load_record row_of
  push-get_by_id law' s e h room =
      let absent = absent_key s e.id h in
      let i = push-Inserted s e absent in
      let cut = enforce_max-Cut law s.max i.tables in
      let stays =
        Cut-Has law s.max i.tables _ (row_of json e) (law.emails s.conn)
          (room_behind s e absent i room) i.rows cut in
      let (gone, n, same, older, kept', times) = cut in
      let d = enforce_max engine s.max i.tables in
      let l = load_attachments engine d e.id in
      (
        l,
        get_by_id_present law json (push engine json s e) e.id (row_of json e)
              (subst (λ d. Has (row_of json e) (law.emails d)) (sym i.bounded) stays) refl
            ∙ ap (λ d. some (load_record engine json d (row_of json e))) i.bounded
            ∙ ap some (unread law' e l),
        Rearranges-load_attachments law json d e.id e.attachments (
            subst (Rearranges (rows_of e.id e.attachments))
              (sym (
                kept' e.id
                  (Any-of_Has (λ x. x.id ≡ e.id) (row_of json e) (law.emails d) stays refl)))
              i.attached),
      )
