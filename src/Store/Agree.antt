-- ===== src/Store/Agree.antt =====
-- The two backends of src/store.rs and src/sqlite_store.rs side by side: when a store in memory and a
-- SQLite store hold the same emails.
pub mod Cut
pub mod Push
pub mod Remove
pub mod Run
pub mod Answers
use smtp_sink.Prelude.{
  ℕ, ◌≤◌, ◌<◌, ◌≡◌, ◌≢◌, ◌∙◌, sym, some-ne-none, none, List, [], ◌∷◌, ◌++◌, length, All, Any, Has,
  Pairwise, inl, inr, Any-Has, All-Has, All-of_Has, find, Bool-cases, arith, true, false,
}
use smtp_sink.Text.{Text, text_eq, text_eq_iff}
use smtp_sink.Email.{MailRecord, has_id}
use smtp_sink.Store.Rows.{Engine, Json, EmailRow}
use smtp_sink.Store.Memory.{MemoryStore}
use smtp_sink.Store.Memory.Lookup.{Lacks}
use smtp_sink.Store.Sqlite.{SqliteStore, get_by_id}
use smtp_sink.Store.Sqlite.Laws.{IsSqlite}
use smtp_sink.Store.Sqlite.Others.{StillHas}
use smtp_sink.Store.Sqlite.Push.{present_key}

pub find-none-Lacks : (id : Text) (es : List MailRecord) → find (has_id id) es ≡ none → Lacks id es
find-none-Lacks id [] h = tt
find-none-Lacks id (e ∷ es) h = (
  ground (arith, text_eq_iff e.id id),
  find-none-Lacks id es (ground (arith, text_eq_iff e.id id)),
)

module _ {D : Type 0} {engine : Engine D} (law : IsSqlite engine) (json : Json) where
  -- The first email's row has an older time than the second's.
  abbrev pub Earlier : D → MailRecord → MailRecord → Type 0
  Earlier d x y = law.created_at d x.id < law.created_at d y.id

  -- The stores have the same bound and hold the same emails, but for the order of their attachments;
  -- the times of the rows rise in the order of arrival, and as many notifications were sent.
  pub record Agrees (s : MemoryStore) (t : SqliteStore D) : Type 0 where
    pub max : t.max ≡ s.max
    pub within : length s.emails ≤ s.max
    pub order : Pairwise (Earlier t.conn) s.emails
    pub shown : (x : MailRecord) → Has x s.emails → StillHas law json t x.id x
    pub known : (r : EmailRow) → Has r (law.emails t.conn) → Any (λ x. x.id ≡ r.id) s.emails
    pub told : t.notified ≡ s.notified
    pub count : length (law.emails t.conn) ≡ length s.emails

  pub row_present :
      {s : MemoryStore} {t : SqliteStore D} (a : Agrees s t) (x : MailRecord)
      → Has x s.emails
      → Any (λ r. r.id ≡ x.id) (law.emails t.conn)
  row_present {s} {t} a x m =
      let (l, found, same) = a.shown x m in
      present_key law json t x.id λ n. some-ne-none (sym found ∙ n)

  -- An id that the store in memory lacks has no row.
  pub row_absent :
      {s : MemoryStore} {t : SqliteStore D} (a : Agrees s t) (id : Text)
      → Lacks id s.emails
      → All (λ r. r.id ≢ id) (law.emails t.conn)
  row_absent {s} {t} a id h =
      All-of_Has (λ r. r.id ≢ id) (law.emails t.conn)
        λ r m e.
          let (x, k, q) = Any-Has (λ x. x.id ≡ r.id) s.emails (a.known r m) in
          All-Has (λ x. x.id ≢ id) x s.emails h k (q ∙ e)
