-- ===== src/Server/Database.antt =====
-- The servers on the SQLite store.
use smtp_sink.Prelude.{ℕ, ◌≤◌, ◌≡◌, ◌∙◌, refl, arith, length, if_both, Option, none, some}
use smtp_sink.Store.Rows.{Engine, Json}
use smtp_sink.Store.Sqlite.{SqliteStore, push, clear, remove, removed, get_all, sqlite_storage}
use smtp_sink.Store.Sqlite.Laws.{IsSqlite}
use smtp_sink.Store.Sqlite.Capacity.{IsWithin, push-IsWithin, clear-IsWithin, remove-IsWithin}
use smtp_sink.Smtp.Session.{SmtpConfig}
use smtp_sink.Smtp.Message.{External}
use smtp_sink.Sink.{Server}
use smtp_sink.Server.{World, Turns, started}
use smtp_sink.Server.Shared.{IsKept, Turns-Q}

module _ {D : Type 0} {engine : Engine D} (law : IsSqlite engine) (json : Json) (ext : External)
    (config : SmtpConfig) where
  -- The bound, which is what it was at the start.
  abbrev Kept : ℕ → SqliteStore D → Type 0
  Kept max s = IsWithin law json s × (s.max ≡ max)

  removed-max : (s : SqliteStore D) (o : Option (ℕ × D)) → (removed engine s o).0.max ≡ s.max
  removed-max s none = refl
  removed-max s (some (n, d)) = if_both (λ (r : SqliteStore D × _). r.0.max ≡ s.max) _ refl refl

  Kept-IsKept : (max : ℕ) → IsKept (sqlite_storage engine json) ext config (Kept max)
  unfolding push clear remove
  Kept-IsKept max = record {
    push = λ s e h. (push-IsWithin law json s e h.0, h.1);
    clear = λ s h. (clear-IsWithin law json s, h.1);
    remove = λ s id h.
        (remove-IsWithin law json s id h.0, removed-max s (engine.delete_email s.conn id) ∙ h.1);
  }

  -- With an engine that does what its statements say, whatever the peers send, on however many
  -- connections, and in whatever order their commands and the requests of HTTP reach a database
  -- that listed no more emails than its maximum: it never lists more.
  pub Turns-IsWithin :
      (server : Server) (s : SqliteStore D) {w : World (SqliteStore D)}
      → IsWithin law json s
      → Turns
          (sqlite_storage engine json)
          ext
          config
          server
          (started (sqlite_storage engine json) ext config s)
          w
      → length (get_all engine json w.store) ≤ s.max
  Turns-IsWithin server s h ts =
      let (b, m) =
        Turns-Q (sqlite_storage engine json) ext config (Kept s.max) (Kept-IsKept s.max) server s
          (h, refl) ts in
      omega (arith, b, m)
