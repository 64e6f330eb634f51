-- ===== src/Store/Sqlite/Queries.antt =====
-- `SqliteStore::query` of src/sqlite_store.rs beside the filter of src/store.rs, `matches_query`.
use smtp_sink.Prelude.{
  Pairwise, ◌≤◌, ◌≡◌, ◌↔◌, ◌∙◌, refl, sym, ap, inl, inr, true, List, [], ◌∷◌, All, All-Has, Has,
  Rearranges-Has, Rearranges-sym, of_filter, in_filter, subst,
}
use smtp_sink.Text.Case.{CaseTables}
use smtp_sink.Text.{Text}
use smtp_sink.Email.{MailRecord}
use smtp_sink.Store.Defs.{EmailQuery}
use smtp_sink.Store.Query.{matches_query}
use smtp_sink.Store.Query.Meaning.{Satisfies, matches_query_iff}
use smtp_sink.Store.Rows.{Condition, Engine, Json, EmailRow, conditions_of, row_to_record}
use smtp_sink.Store.Sqlite.{SqliteStore, load_record, load_records, query, get_all}
use smtp_sink.Store.Sqlite.Laws.{IsSqlite, IsShort, meets}
use smtp_sink.Store.Sqlite.Lookup.{get_all_lem, all_rows}
use smtp_sink.Store.Sqlite.Conditions.{IsLike, IsSimple, HasAscii, Shows, meets-matches_query}

module _ {D : Type 0} {engine : Engine D} (law : IsSqlite engine) (json : Json) where
  -- The emails of a list of rows.
  of_load_records :
      (d : D) (e : MailRecord) (rs : List EmailRow)
      → Has e (load_records engine json d rs)
      → (r : EmailRow) × Has r rs × (load_record engine json d r ≡ e)
  unfolding load_records
  of_load_records d e [] h = absurd h
  of_load_records d e (r ∷ rs) (inl k) = (r, inl refl, k)
  of_load_records d e (r ∷ rs) (inr h) = let (t, m, k) = of_load_records d e rs h in (t, inr m, k)

  in_load_records :
      (d : D) (r : EmailRow) (rs : List EmailRow)
      → Has r rs
      → Has (load_record engine json d r) (load_records engine json d rs)
  unfolding load_records
  in_load_records d r [] h = absurd h
  in_load_records d r (x ∷ rs) (inl k) = inl (ap (load_record engine json d) k)
  in_load_records d r (x ∷ rs) (inr h) = inr (in_load_records d r rs h)

  query_lem :
      (s : SqliteStore D) (q : EmailQuery) (short : All IsShort (conditions_of q))
      → query engine json s q
        ≡ load_records engine json s.conn (law.selects_emails s.conn (conditions_of q) short).given
  unfolding query
  query_lem s q short = rw (law.selects_emails s.conn (conditions_of q) short).runs

  load_record-Shows :
      (u : CaseTables) (like : IsLike law.like) (d : D) (r : EmailRow)
      → Shows like u r (load_record engine json d r)
  unfolding load_record row_to_record
  load_record-Shows u like d r = record { from = refl; subject = refl; date = refl }

  -- An email of a simple query is one of all that passes the test, and conversely.
  module _ (u : CaseTables) (like : IsLike law.like) (s : SqliteStore D) (q : EmailQuery)
      (p : IsSimple q) where
    agree :
        (r : EmailRow)
        → All HasAscii (get_all engine json s)
        → Has r (law.selects_emails s.conn [] tt).given
        → meets law.like (conditions_of q) r ≡ matches_query u (load_record engine json s.conn r) q
    agree r a m = meets-matches_query like u r _ q (load_record-Shows u like s.conn r) p (
        All-Has HasAscii (load_record engine json s.conn r)
          (load_records engine json s.conn (law.selects_emails s.conn [] tt).given)
          (subst (All HasAscii) (get_all_lem law json s) a) (in_load_records s.conn r _ m))

    listed :
        (e : MailRecord)
        → All HasAscii (get_all engine json s)
        → Has e (query engine json s q)
        → Has e (get_all engine json s) × (matches_query u e q ≡ true)
    listed e a h =
        let (r, m, same) = of_load_records s.conn e _ (subst (Has e) (query_lem s q p.short) h) in
        let (k, t) = of_filter (meets law.like (conditions_of q)) (law.emails s.conn) (
          Rearranges-Has r
            (Rearranges-sym (law.selects_emails s.conn (conditions_of q) p.short).same) m) in
        let m' = Rearranges-Has r (all_rows law json s.conn) k in
        (
          subst (Has e) (sym (get_all_lem law json s)) (
              subst
                (λ x.
                  Has x (load_records engine json s.conn (law.selects_emails s.conn [] tt).given))
                same (in_load_records s.conn r _ m')),
          sym (ap (λ x. matches_query u x q) same) ∙ sym (agree r a m') ∙ t,
        )

    selected :
        (e : MailRecord)
        → All HasAscii (get_all engine json s)
        → Has e (get_all engine json s)
        → matches_query u e q ≡ true
        → Has e (query engine json s q)
    selected e a h t =
        let (r, m, same) = of_load_records s.conn e _ (subst (Has e) (get_all_lem law json s) h) in
        let k =
          in_filter (meets law.like (conditions_of q)) (law.emails s.conn)
            (agree r a m ∙ ap (λ x. matches_query u x q) same ∙ t)
            (Rearranges-Has r (Rearranges-sym (all_rows law json s.conn)) m) in
        subst (Has e) (sym (query_lem s q p.short)) (
          subst
            (λ x. Has x (
              load_records engine json s.conn
                (law.selects_emails s.conn (conditions_of q) p.short).given))
            same
            (in_load_records s.conn r _
              (Rearranges-Has r (law.selects_emails s.conn (conditions_of q) p.short).same k)))

  -- With an engine that does what its statements say, whose LIKE is that of SQLite: in a store whose
  -- emails have senders and subjects of ASCII without NUL, a query gives exactly the emails that satisfy
  -- it, as in the store in memory, if it has no demand on the recipients, its texts for sender and subject
  -- are ASCII, without wildcards and NUL, that for the subject is not empty, and the patterns made of
  -- them have no more than 50000 bytes. As in memory, dates are compared as texts.
  pub query_iff_simple :
      (u : CaseTables) (like : IsLike law.like) (s : SqliteStore D) (q : EmailQuery)
      (e : MailRecord)
      → IsSimple q
      → All HasAscii (get_all engine json s)
      → Has e (query engine json s q) ↔ (Has e (get_all engine json s) × Satisfies u e q)
  query_iff_simple u like s q e p a = (
    λ h. let (m, t) = listed u like s q p e a h in (m, (matches_query_iff u e q).0 t),
    λ h. selected u like s q p e a h.0 ((matches_query_iff u e q).1 h.1),
  )

  All-load_records :
      (P : Text → Type 0) (d : D) (rs : List EmailRow)
      → All (λ x. P x.id) rs
      → All (λ x. P x.id) (load_records engine json d rs)
  unfolding load_records load_record row_to_record
  All-load_records P d [] h = tt
  All-load_records P d (r ∷ rs) h = (h.0, All-load_records P d rs h.1)

  -- What holds of all rows, by their keys, holds of the emails read from them.
  Pairwise-load_records :
      (R : Text → Text → Type 0) (d : D) (rs : List EmailRow)
      → Pairwise (λ x y. R x.id y.id) rs
      → Pairwise (λ x y. R x.id y.id) (load_records engine json d rs)
  unfolding load_records load_record row_to_record
  Pairwise-load_records R d [] h = tt
  Pairwise-load_records R d (r ∷ rs) h =
      (All-load_records (R r.id) d rs h.0, Pairwise-load_records R d rs h.1)

  -- No email has an earlier time than one that comes behind it.
  abbrev pub NewestFirst : SqliteStore D → List MailRecord → Type 0
  NewestFirst s = Pairwise (λ x y. law.created_at s.conn y.id ≤ law.created_at s.conn x.id)

  newest :
      (s : SqliteStore D) (cs : List Condition) (short : All IsShort cs)
      → NewestFirst s (load_records engine json s.conn (law.selects_emails s.conn cs short).given)
  newest s cs short =
      Pairwise-load_records (λ i j. law.created_at s.conn j ≤ law.created_at s.conn i) s.conn _
        (law.newest_first s.conn cs _ (law.selects_emails s.conn cs short).runs)

  -- With an engine that does what its statements say, the results of a query with patterns that it takes and the list of all
  -- emails are in the order of their arrival, the newest first; the order among emails of the same
  -- second is open.
  pub query-NewestFirst :
      (s : SqliteStore D) (q : EmailQuery)
      → All IsShort (conditions_of q)
      → NewestFirst s (query engine json s q) × NewestFirst s (get_all engine json s)
  query-NewestFirst s q short = (
    rw (query_lem s q short) (newest s (conditions_of q) short),
    rw (get_all_lem law json s) (newest s [] tt),
  )
