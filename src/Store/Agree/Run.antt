-- ===== src/Store/Agree/Run.antt =====
-- A store in memory and a SQLite store that start empty and are given the same calls.
use smtp_sink.Prelude.{
  ℕ, ◌≤◌, ◌≡◌, ◌∙◌, refl, sym, ap, subst, [], Option, none, some, length, of_some, some-ne-none,
  arith, Option-cases, inl, inr, Has,
}
use smtp_sink.Text.{Text}
use smtp_sink.Email.{MailRecord}
use smtp_sink.Store.Rows.{Engine, Json}
use smtp_sink.Store.Memory
use smtp_sink.Store.Memory.{MemoryStore}
use smtp_sink.Store.Sqlite.{SqliteStore, open_store, push, remove, clear}
use smtp_sink.Store.Sqlite.Laws.{IsSqlite, IsJson}
use smtp_sink.Store.Agree.{Agrees, find-none-Lacks}
use smtp_sink.Store.Agree.Push.{IsLater, push-Agrees}
use smtp_sink.Store.Agree.Remove.{clear-Agrees, remove-Agrees}

-- How `open_store` leaves the fields beside the connection.
open_store-fields :
    {D : Type 0} (connect : Text → Option D) (create_tables : D → Option D) (path : Text) (max : ℕ)
    {t : SqliteStore D}
    → open_store connect create_tables path max ≡ some t
    → (t.max ≡ max) × (t.notified ≡ 0)
unfolding open_store
open_store-fields {D = D} connect create_tables path max {t} h =
    elim (Option-cases (connect path)) [
      | inl e ↦ absurd (some-ne-none (sym (rw (open_store, e) at h)))
      | inr (d, e) ↦ elim (Option-cases (create_tables d)) [
        | inl e' ↦ absurd (some-ne-none (sym (rw (open_store, e, e') at h)))
        | inr (c, e') ↦
            let k = of_some (rw (open_store, e, e') at h) in
            (
              ap (λ (s : SqliteStore D). s.max) (sym k),
              ap (λ (s : SqliteStore D). s.notified) (sym k),
            )
      ]
    ]

remove_max : (s : MemoryStore) (id : Text) → (Memory.remove s id).0.max ≡ s.max
unfolding Memory.remove
remove_max s id = elim (Option-cases (Memory.position id s.emails)) [
  | inl e ↦ rw (e, Memory.remove) refl
  | inr (i, e) ↦ rw (e, Memory.remove) refl
]

module _ {D : Type 0} {engine : Engine D} (law : IsSqlite engine) (json : Json) where
  -- The same calls on both, one at a time: each pushed email has a new id and comes in a later second
  -- than those in the store.
  pub data Together (max : ℕ) : MemoryStore → SqliteStore D → Type 0 where
    opened :
        (connect : Text → Option D) (create_tables : D → Option D) (path : Text) {t : SqliteStore D}
        → open_store connect create_tables path max ≡ some t
        → law.emails t.conn ≡ []
        → Together max (Memory.new max) t
    pushed :
        {s : MemoryStore} {t : SqliteStore D} (e : MailRecord)
        → Together max s t
        → Memory.get_by_id s e.id ≡ none
        → IsLater law json t.conn
        → Together max (Memory.push s e) (push engine json t e)
    removed :
        {s : MemoryStore} {t : SqliteStore D} (id : Text)
        → Together max s t
        → Together max (Memory.remove s id).0 (remove engine t id).0
    cleared :
        {s : MemoryStore} {t : SqliteStore D}
        → Together max s t
        → Together max (Memory.clear s) (clear engine t)

  -- After any such calls the stores agree, and have the bound that they were opened with.
  pub Together-Agrees_max :
      (law' : IsJson json) {max : ℕ}
      → 1 ≤ max
      → {s : MemoryStore} {t : SqliteStore D} → Together max s t
      → Agrees law json s t × (s.max ≡ max)
  unfolding Memory.new Memory.push Memory.clear Memory.get_by_id
  Together-Agrees_max law' {max} one (opened connect create_tables path opens empty) =
      let (m, n) = open_store-fields connect create_tables path max opens in
      (
        record {
          max = m;
          within = omega arith;
          order = tt;
          shown = λ x m. absurd m;
          known = λ r m. absurd (subst (Has r) empty m);
          told = n;
          count = ap length empty;
        },
        refl,
      )
  Together-Agrees_max law' one (pushed {s} {t} e h new late) =
      let (a, m) = Together-Agrees_max law' one h in
      (
        push-Agrees law json a e (find-none-Lacks e.id s.emails new) late
            (subst (λ n. 1 ≤ n) (sym m) one) law',
        m,
      )
  Together-Agrees_max law' one (removed {s} {t} id h) =
      let (a, m) = Together-Agrees_max law' one h in
      (remove-Agrees law json a id, remove_max s id ∙ m)
  Together-Agrees_max law' one (cleared h) =
      let (a, m) = Together-Agrees_max law' one h in (clear-Agrees law json a, m)
