-- ===== src/Store/Sqlite/Capacity.antt =====
-- The bound on the SQLite store: what each operation of src/sqlite_store.rs does to it.
use smtp_sink.Prelude.{
  subst, if_both, ℕ, ◌≤◌, sym, ap, inl, inr, Bool, not, some, length, length-filter, ltb, arith,
  Option-cases,
}
use smtp_sink.Text.{Text}
use smtp_sink.Email.{MailRecord}
use smtp_sink.Store.Rows.{Engine, Json}
use smtp_sink.Store.Sqlite.{SqliteStore, push, get_all, get_by_id, clear, remove, removed, notify}
use smtp_sink.Store.Sqlite.Laws.{IsSqlite, row_has_id}
use smtp_sink.Store.Sqlite.Lookup.{has_key}
use smtp_sink.Store.Sqlite.Interface.{sqlite_storage-IsLawful}
use smtp_sink.Store.Sqlite.Push.{length-get_all, push-count, push_rejected}

module _ {D : Type 0} {engine : Engine D} (law : IsSqlite engine) (json : Json) where
  -- The store lists no more emails than its maximum.
  abbrev pub IsWithin : SqliteStore D → Type 0
  IsWithin s = length (get_all engine json s) ≤ s.max

  pub push-IsWithin :
      (s : SqliteStore D) (e : MailRecord) → IsWithin s → IsWithin (push engine json s e)
  unfolding push get_all
  push-IsWithin s e h = elim (Option-cases (get_by_id engine json s e.id)) [
    | inl k ↦ ground (arith, push-count law json s e k)
    | inr (x, k) ↦ subst IsWithin (sym (push_rejected law json s e λ n. cc (k, n))) h
  ]

  pub clear-IsWithin : (s : SqliteStore D) → IsWithin (clear engine s)
  unfolding clear
  clear-IsWithin s = omega (arith, ap length ((sqlite_storage-IsLawful law json).get_all-clear s))

  removed-IsWithin :
      (s : SqliteStore D) (n : ℕ) (d : D)
      → length (law.emails d) ≤ length (law.emails s.conn)
      → IsWithin s
      → IsWithin (removed engine s (some (n, d))).0
  unfolding get_all
  removed-IsWithin s n d h w =
      if_both (λ (r : SqliteStore D × Bool). IsWithin r.0) (ltb 0 n)
        (omega (
          arith,
          length-get_all law json (notify (record s { conn = d })),
          length-get_all law json s,
          h,
          w,
        ))
        (omega
          (arith, length-get_all law json (record s { conn = d }), length-get_all law json s, h, w))

  pub remove-IsWithin :
      (s : SqliteStore D) (id : Text) → IsWithin s → IsWithin (remove engine s id).0
  unfolding remove
  remove-IsWithin s id w = elim (has_key id (law.emails s.conn)) [
    | inl k ↦
        let (d, runs, left, kept, times) = law.deletes s.conn id k in
        rw runs (
          removed-IsWithin s 1 d
            (omega (
              arith,
              ap length left,
              length-filter (λ r. not (row_has_id id r)) (law.emails s.conn),
            ))
            w)
    | inr k ↦ rw (law.deletes_none s.conn id k) w
  ]
