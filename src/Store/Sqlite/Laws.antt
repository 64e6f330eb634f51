-- ===== src/Store/Sqlite/Laws.antt =====
-- What src/sqlite_store.rs relies on of SQLite: each statement that breaks no constraint runs, and does
-- to the two tables what its text says. A SELECT gives its rows in an order of its choice, but for what
-- its ORDER BY fixes. Foreign keys are enforced, as in the engine that rusqlite bundles.
use smtp_sink.Prelude.{
  ℕ, ◌≤◌, ◌≡◌, ◌≢◌, Bool, true, ◌&&◌, not, List, [], ◌∷◌, ◌++◌, Option, none, some, length, filter,
  All, Any, Pairwise, Rearranges,
}
use smtp_sink.Text.{Text, text_eq, opt_text_eq, text_lt}
use smtp_sink.Text.Slice.{len}
use smtp_sink.Store.Rows.{
  Engine, Json, EmailRow, AttachmentRow, Condition, from_like, to_like, subject_like, date_ge,
  date_le,
}

-- `NULL LIKE …` is not true.
abbrev pub like_column : (Text → Text → Bool) → Text → Option Text → Bool
like_column like pattern none = Bool.false
like_column like pattern (some t) = like pattern t

-- The test of a condition on a row, given the operator LIKE, pattern first.
abbrev pub meets_one : (Text → Text → Bool) → EmailRow → Condition → Bool
meets_one like r (from_like v) = like v r.from_addr
meets_one like r (to_like v) = like v r.to_addrs
meets_one like r (subject_like v) = like_column like v r.subject
meets_one like r (date_ge v) = not (text_lt r.date v)
meets_one like r (date_le v) = not (text_lt v r.date)

abbrev pub meets : (Text → Text → Bool) → List Condition → EmailRow → Bool
meets like [] r = true
meets like (c ∷ cs) r = meets_one like r c && meets like cs r

abbrev pub row_has_id : Text → EmailRow → Bool
row_has_id id r = text_eq r.id id

abbrev pub row_of_email : Text → AttachmentRow → Bool
row_of_email id a = text_eq a.email_id id

-- What serde promises of its JSON: what was written is read back.
pub record IsJson (json : Json) : Type 0 where
  pub texts :
      (ts : List Text) → (t : Text) × (json.write_texts ts ≡ some t) × (json.read_texts t ≡ some ts)
  pub headers :
      (hs : List (Text × Text))
      → (t : Text) × (json.write_headers hs ≡ some t) × (json.read_headers t ≡ some hs)

-- SQLite refuses a pattern of LIKE with more bytes than this.
abbrev pub IsShort : Condition → Type 0
IsShort (from_like p) = len p ≤ 50000
IsShort (to_like p) = len p ≤ 50000
IsShort (subject_like p) = len p ≤ 50000
IsShort (date_ge t) = Unit
IsShort (date_le t) = Unit

-- A SELECT that gives these rows, in some order.
pub record Gives {A : Type 0} (rows : List A) (result : Option (List A)) : Type 0 where
  pub given : List A
  pub runs : result ≡ some given
  pub same : Rearranges rows given

pub record IsSqlite {D : Type 0} (engine : Engine D) : Type 0 where
  -- The tables, the column `created_at` by the key of its row, the clock and the operator LIKE.
  pub emails : D → List EmailRow
  pub attachments : D → List AttachmentRow
  pub created_at : D → Text → ℕ
  pub now : D → ℕ
  pub like : Text → Text → Bool
  -- `PRIMARY KEY` and `FOREIGN KEY`
  pub keys : (d : D) → Pairwise (λ x y. x.id ≢ y.id) (emails d)
  pub owners : (d : D) → All (λ a. Any (λ r. r.id ≡ a.email_id) (emails d)) (attachments d)
  pub counts : (d : D) → engine.count_emails d ≡ some (length (emails d))
  pub selects_email :
      (d : D) (id : Text) → Gives (filter (row_has_id id) (emails d)) (engine.select_email d id)
  pub selects_emails :
      (d : D) (cs : List Condition)
      → All IsShort cs
      → Gives (filter (meets like cs) (emails d)) (engine.select_emails d cs)
  pub newest_first :
      (d : D) (cs : List Condition) (l : List EmailRow)
      → engine.select_emails d cs ≡ some l
      → Pairwise (λ x y. created_at d y.id ≤ created_at d x.id) l
  pub selects_attachments :
      (d : D) (id : Text)
      → Gives (filter (row_of_email id) (attachments d)) (engine.select_attachments d id)
  pub selects_named :
      (d : D) (id filename : Text)
      → Gives
          (filter (λ a. row_of_email id a && text_eq a.filename filename) (attachments d))
          (engine.select_named d id filename)
  pub selects_cid :
      (d : D) (id cid : Text)
      → Gives
          (filter (λ a. row_of_email id a && opt_text_eq a.content_id (some cid)) (attachments d))
          (engine.select_cid d id cid)
  pub inserts :
      (d : D) (r : EmailRow)
      → All (λ x. x.id ≢ r.id) (emails d)
      → (d' : D) × (engine.insert_email d r ≡ some d')
        × Rearranges (r ∷ emails d) (emails d')
        × (attachments d' ≡ attachments d)
        × (created_at d' r.id ≡ now d)
        × ((id : Text) → id ≢ r.id → created_at d' id ≡ created_at d id)
  pub rejects :
      (d : D) (r : EmailRow) → Any (λ x. x.id ≡ r.id) (emails d) → engine.insert_email d r ≡ none
  pub attaches :
      (d : D) (a : AttachmentRow)
      → Any (λ x. x.id ≡ a.email_id) (emails d)
      → (d' : D) × (engine.insert_attachment d a ≡ some d')
        × (emails d' ≡ emails d)
        × Rearranges (a ∷ attachments d) (attachments d')
        × ((id : Text) → created_at d' id ≡ created_at d id)
  -- What refers to a deleted row goes with it, by `ON DELETE CASCADE`, and nothing else.
  pub deletes_oldest :
      (d : D) (n : ℕ)
      → n ≤ length (emails d)
      → (d' : D) × (gone : List EmailRow) × (engine.delete_oldest d n ≡ some d')
        × (length gone ≡ n)
        × Rearranges (emails d) (emails d' ++ gone)
        × All (λ x. All (λ y. created_at d x.id ≤ created_at d y.id) (emails d')) gone
        × ((id : Text)
            → Any (λ x. x.id ≡ id) (emails d')
            → filter (row_of_email id) (attachments d') ≡ filter (row_of_email id) (attachments d))
        × ((id : Text) → Any (λ x. x.id ≡ id) (emails d') → created_at d' id ≡ created_at d id)
  pub deletes_all : (d : D) → (d' : D) × (engine.delete_emails d ≡ some d') × (emails d' ≡ [])
  pub deletes :
      (d : D) (id : Text)
      → Any (λ x. x.id ≡ id) (emails d)
      → (d' : D) × (engine.delete_email d id ≡ some (1, d'))
        × (emails d' ≡ filter (λ r. not (row_has_id id r)) (emails d))
        × ((other : Text)
            → Any (λ x. x.id ≡ other) (emails d')
            → filter (row_of_email other) (attachments d')
              ≡ filter (row_of_email other) (attachments d))
        × ((other : Text)
            → Any (λ x. x.id ≡ other) (emails d')
            → created_at d' other ≡ created_at d other)
  pub deletes_none :
      (d : D) (id : Text) → All (λ x. x.id ≢ id) (emails d) → engine.delete_email d id ≡ some (0, d)
