-- ===== src/Store/Notify.antt =====
-- What the subscribers of a backend rely on: each call that changes the list of emails is followed by a
-- notification on the broadcast channel, in src/store.rs and in src/sqlite_store.rs.
use smtp_sink.Prelude.{ℕ, ◌+◌, ◌≤◌, ◌≡◌, ◌⊎◌, refl, sym, ap, inl, inr, arith, Option-cases}
use smtp_sink.Text.{Text}
use smtp_sink.Text.Case.{CaseTables}
use smtp_sink.Email.{MailRecord}
use smtp_sink.Store.Defs.{EmailStorage}
use smtp_sink.Store.Rows.{Engine, Json}
use smtp_sink.Store.Memory
use smtp_sink.Store.Memory.{MemoryStore}
use smtp_sink.Store.Memory.Interface.{memory_storage}
use smtp_sink.Store.Sqlite
use smtp_sink.Store.Sqlite.{SqliteStore, sqlite_storage}
use smtp_sink.Store.Sqlite.Laws.{IsSqlite}
use smtp_sink.Store.Sqlite.Lookup.{has_key}

-- A call of one of the methods that write.
pub data Change : Type 0 where
  push : MailRecord → Change
  clear : Change
  remove : Text → Change

abbrev pub changed : {S : Type 0} → EmailStorage S → Change → S → S
changed storage (push e) s = storage.push s e
changed storage clear s = storage.clear s
changed storage (remove id) s = (storage.remove s id).0

-- `notified` counts the messages that were sent on the channel.
pub record IsNotifying {S : Type 0} (storage : EmailStorage S) (notified : S → ℕ) : Type 0 where
  pub grows : (c : Change) (s : S) → notified s ≤ notified (changed storage c s)
  pub tells :
      (c : Change) (s : S)
      → notified (changed storage c s) ≡ notified s
      → storage.get_all (changed storage c s) ≡ storage.get_all s

remove-notified :
    (s : MemoryStore) (id : Text)
    → (s.notified + 1 ≡ (Memory.remove s id).0.notified) ⊎ (s ≡ (Memory.remove s id).0)
unfolding Memory.remove
remove-notified s id = elim (Option-cases (Memory.position id s.emails)) [
  | inl e ↦ inr (rw (Memory.remove, e) refl)
  | inr (i, e) ↦ inl (rw (Memory.remove, e) refl)
]

memory_grows :
    (u : CaseTables) (c : Change) (s : MemoryStore)
    → s.notified ≤ (changed (memory_storage u) c s).notified
unfolding Memory.push Memory.clear
memory_grows u (push e) s = omega arith
memory_grows u clear s = omega arith
memory_grows u (remove id) s = elim (remove-notified s id) [
  | inl e ↦ omega (arith, e)
  | inr e ↦ omega (arith, ap (λ (t : MemoryStore). t.notified) e)
]

memory_tells :
    (u : CaseTables) (c : Change) (s : MemoryStore)
    → (changed (memory_storage u) c s).notified ≡ s.notified
    → Memory.get_all (changed (memory_storage u) c s) ≡ Memory.get_all s
unfolding Memory.push Memory.clear
memory_tells u (push e) s h = absurd (omega (arith, h))
memory_tells u clear s h = absurd (omega (arith, h))
memory_tells u (remove id) s h = elim (remove-notified s id) [
  | inl e ↦ absurd (omega (arith, e, h))
  | inr e ↦ ap Memory.get_all (sym e)
]

pub memory_storage-IsNotifying : (u : CaseTables) → IsNotifying (memory_storage u) (λ s. s.notified)
memory_storage-IsNotifying u = record { grows = memory_grows u; tells = memory_tells u }

module _ {D : Type 0} {engine : Engine D} (law : IsSqlite engine) (json : Json) where
  sqlite_remove-notified :
      (s : SqliteStore D) (id : Text)
      → (s.notified + 1 ≡ (Sqlite.remove engine s id).0.notified)
        ⊎ (s ≡ (Sqlite.remove engine s id).0)
  unfolding Sqlite.remove
  sqlite_remove-notified s id = elim (has_key id (law.emails s.conn)) [
    | inl k ↦
        let (d, runs, left, kept, times) = law.deletes s.conn id k in
        inl (sym (ap (λ o. (Sqlite.removed engine s o).0.notified) runs))
    | inr k ↦ inr (sym (ap (λ o. (Sqlite.removed engine s o).0) (law.deletes_none s.conn id k)))
  ]

  sqlite_grows :
      (c : Change) (s : SqliteStore D)
      → s.notified ≤ (changed (sqlite_storage engine json) c s).notified
  unfolding Sqlite.push Sqlite.clear
  sqlite_grows (push e) s = omega arith
  sqlite_grows clear s = omega arith
  sqlite_grows (remove id) s = elim (sqlite_remove-notified s id) [
    | inl e ↦ omega (arith, e)
    | inr e ↦ omega (arith, ap (λ (t : SqliteStore D). t.notified) e)
  ]

  sqlite_tells :
      (c : Change) (s : SqliteStore D)
      → (changed (sqlite_storage engine json) c s).notified ≡ s.notified
      → Sqlite.get_all engine json (changed (sqlite_storage engine json) c s)
        ≡ Sqlite.get_all engine json s
  unfolding Sqlite.push Sqlite.clear
  sqlite_tells (push e) s h = absurd (omega (arith, h))
  sqlite_tells clear s h = absurd (omega (arith, h))
  sqlite_tells (remove id) s h = elim (sqlite_remove-notified s id) [
    | inl e ↦ absurd (omega (arith, e, h))
    | inr e ↦ ap (Sqlite.get_all engine json) (sym e)
  ]

  pub sqlite_storage-IsNotifying : IsNotifying (sqlite_storage engine json) (λ s. s.notified)
  sqlite_storage-IsNotifying = record { grows = sqlite_grows; tells = sqlite_tells }
