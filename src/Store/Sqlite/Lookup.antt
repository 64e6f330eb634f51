-- ===== src/Store/Sqlite/Lookup.antt =====
-- Emails of the SQLite store by their key.
use smtp_sink.Prelude.{
  Bool, true, false, ◌≡◌, ◌≢◌, ◌⊎◌, ◌∙◌, refl, sym, ap, inl, inr, List, [], ◌∷◌, none, some, find,
  filter, All, Any, Has, Pairwise, Rearranges, Bool-cases, arith, Rearranges-All, subst,
  Rearranges-sym, Rearranges-Has, Rearranges-Pairwise, All-Has, All-of_Has, of_filter, in_filter,
}
use smtp_sink.Text.{Text, text_eq, text_eq_iff}
use smtp_sink.Email.{has_id}
use smtp_sink.Store.Rows.{Engine, Json, EmailRow, row_to_record}
use smtp_sink.Store.Sqlite.{
  SqliteStore, first_row, loaded, load_record, load_records, load_attachments, get_all, get_by_id,
}
use smtp_sink.Store.Sqlite.Laws.{IsSqlite, row_has_id, meets}

unfoldable pub here_or_later :
    (id : Text) (r : EmailRow) (rs : List EmailRow) (b : Bool)
    → text_eq r.id id ≡ b
    → Any (λ x. x.id ≡ id) rs ⊎ All (λ x. x.id ≢ id) rs
    → Any (λ x. x.id ≡ id) (r ∷ rs) ⊎ All (λ x. x.id ≢ id) (r ∷ rs)
here_or_later id r rs true e k = inl (inl ((text_eq_iff r.id id).0 e))
here_or_later id r rs false e (inl k) = inl (inr k)
here_or_later id r rs false e (inr k) = inr ((λ q. absurd (cc ((text_eq_iff r.id id).1 q, e))), k)

-- Whether the table has a row with the key.
unfoldable pub has_key :
    (id : Text) (rs : List EmailRow) → Any (λ r. r.id ≡ id) rs ⊎ All (λ r. r.id ≢ id) rs
unfolding here_or_later
has_key id [] = inr tt
has_key id (r ∷ rs) = here_or_later id r rs (text_eq r.id id) refl (has_key id rs)

module _ {D : Type 0} {engine : Engine D} (law : IsSqlite engine) (json : Json) where
  -- The rows of a key are those of the table that have it.
  row_of_key :
      (d : D) (id : Text) (r : EmailRow)
      → Has r (law.selects_email d id).given
      → Has r (law.emails d) × (r.id ≡ id)
  row_of_key d id r h =
      let g = law.selects_email d id in
      let k =
        of_filter (row_has_id id) (law.emails d) (Rearranges-Has r (Rearranges-sym g.same) h) in
      (k.0, (text_eq_iff r.id id).0 k.1)

  key_of_row :
      (d : D) (id : Text) (r : EmailRow)
      → Has r (law.emails d)
      → r.id ≡ id
      → Has r (law.selects_email d id).given
  key_of_row d id r h e =
      Rearranges-Has r (law.selects_email d id).same
        (in_filter (row_has_id id) (law.emails d) ((text_eq_iff r.id id).1 e) h)

  find_lacking :
      (d : D) (id : Text) (rs : List EmailRow)
      → All (λ r. r.id ≢ id) rs
      → find (has_id id) (load_records engine json d rs) ≡ none
  unfolding load_records load_record
  find_lacking d id [] h = refl
  find_lacking d id (r ∷ rs) h = ground (arith, text_eq_iff r.id id, find_lacking d id rs h.1, h.0)

  find_row :
      (d : D) (id : Text) (r : EmailRow) (rs : List EmailRow)
      → Pairwise (λ x y. x.id ≢ y.id) rs
      → Has r rs
      → r.id ≡ id
      → find (has_id id) (load_records engine json d rs) ≡ some (load_record engine json d r)
  unfolding load_records load_record
  find_row d id r [] u h e = absurd h
  find_row d id r (x ∷ rs) u (inl k) e =
      rw ((text_eq_iff x.id id).1 (ap (λ (y : EmailRow). y.id) k ∙ e))
        (ap (λ y. some (load_record engine json d y)) k)
  find_row d id r (x ∷ rs) u (inr k) e = elim (Bool-cases (text_eq x.id id)) [
    | inl t ↦ absurd (All-Has (λ y. x.id ≢ y.id) r rs u.0 k ((text_eq_iff x.id id).0 t ∙ sym e))
    | inr t ↦ rw t (find_row d id r rs u.1 k e)
  ]

  -- All rows, without a condition.
  pub all_rows : (d : D) → Rearranges (law.emails d) (law.selects_emails d [] tt).given
  all_rows d =
      subst (λ l. Rearranges l (law.selects_emails d [] tt).given) (all_true (law.emails d))
        (law.selects_emails d [] tt).same
    where
      all_true : (rs : List EmailRow) → filter (meets law.like []) rs ≡ rs
      all_true [] = refl
      all_true (r ∷ rs) = ap (◌∷◌ r) (all_true rs)

  pub all_keys : (d : D) → Pairwise (λ x y. x.id ≢ y.id) (law.selects_emails d [] tt).given
  all_keys d =
      Rearranges-Pairwise (λ x y. x.id ≢ y.id) (λ x y ne e. ne (sym e)) (all_rows d) (law.keys d)

  pub get_all_lem :
      (s : SqliteStore D)
      → get_all engine json s
        ≡ load_records engine json s.conn (law.selects_emails s.conn [] tt).given
  unfolding get_all
  get_all_lem s = rw (law.selects_emails s.conn [] tt).runs

  listed_lacking :
      (d : D) (id : Text)
      → All (λ r. r.id ≢ id) (law.emails d)
      → find (has_id id) (load_records engine json d (law.selects_emails d [] tt).given) ≡ none
  listed_lacking d id h =
      find_lacking d id (law.selects_emails d [] tt).given
        (Rearranges-All (λ r. r.id ≢ id) (all_rows d) h)

  listed_present :
      (d : D) (id : Text) (r : EmailRow)
      → Has r (law.emails d)
      → r.id ≡ id
      → find (has_id id) (load_records engine json d (law.selects_emails d [] tt).given)
        ≡ some (load_record engine json d r)
  listed_present d id r h e =
      find_row d id r (law.selects_emails d [] tt).given (all_keys d)
        (Rearranges-Has r (all_rows d) h) e

  first_found :
      (d : D) (id : Text) (l : List EmailRow)
      → (law.selects_email d id).given ≡ l
      → loaded engine json d id (first_row (some l))
        ≡ find (has_id id) (load_records engine json d (law.selects_emails d [] tt).given)
  unfolding load_record
  first_found d id [] e = sym (
      listed_lacking d id (
        All-of_Has (λ r. r.id ≢ id) (law.emails d)
          λ r h k. absurd (subst (Has r) e (key_of_row d id r h k))))
  first_found d id (r ∷ l) e =
      let k = row_of_key d id r (subst (Has r) (sym e) (inl refl)) in
      ap (λ i. some (record (row_to_record json r) { attachments = load_attachments engine d i }))
        (sym k.1)
      ∙ sym (listed_present d id r k.0 k.1)

  pub get_by_id-find :
      (s : SqliteStore D) (id : Text)
      → get_by_id engine json s id ≡ find (has_id id) (get_all engine json s)
  unfolding get_by_id
  get_by_id-find s id =
      rw ((law.selects_email s.conn id).runs, get_all_lem s) (first_found s.conn id _ refl)

  -- The email of a key is its row with its attachments, and there is none without a row.
  pub get_by_id_present :
      (s : SqliteStore D) (id : Text) (r : EmailRow)
      → Has r (law.emails s.conn)
      → r.id ≡ id
      → get_by_id engine json s id ≡ some (load_record engine json s.conn r)
  get_by_id_present s id r h e =
      get_by_id-find s id ∙ rw (get_all_lem s) (listed_present s.conn id r h e)

  pub get_by_id_lacking :
      (s : SqliteStore D) (id : Text)
      → All (λ r. r.id ≢ id) (law.emails s.conn)
      → get_by_id engine json s id ≡ none
  get_by_id_lacking s id h = get_by_id-find s id ∙ rw (get_all_lem s) (listed_lacking s.conn id h)
