-- ===== src/Store/Sqlite.antt =====
-- `SqliteStore` of src/sqlite_store.rs, over the engine. Each method takes the lock of the connection once,
-- and runs its statements under it. A method that changes the tables sends its notification when the lock is
-- free again: the functions below are these two parts in sequence, and Http/Watch has what comes
-- between them.

pub mod Laws
pub mod Lookup
pub mod Attachments
pub mod Interface
pub mod Insertion
pub mod Push
pub mod Others
pub mod Conditions
pub mod Queries
pub mod Capacity
use smtp_sink.Prelude.{
  ℕ, ◌+◌, ◌-◌, Bool, true, false, List, [], ◌∷◌, ◌++◌, Option, none, some, unwrap_or, ltb,
  if◌then◌else◌,
}
use smtp_sink.Text.{Text, Bytes, codes}
use smtp_sink.Email.{Attachment, MailRecord}
use smtp_sink.Store.Rows.{
  EmailRow, AttachmentRow, Condition, Engine, Json, asked, anywhere, conditions_of,
  attachment_of_row, attachments_of_rows, row_of_attachment, row_to_record, row_of, from_like,
  to_like, subject_like, date_ge, date_le,
}
use smtp_sink.Store.Defs.{EmailQuery, EmailStorage}

pub record SqliteStore (D : Type 0) : Type 0 where
  pub conn : D
  pub max : ℕ
  pub notified : ℕ

-- `SqliteStore::open`, given what opens a connection and what runs the `CREATE` statements on it.
unfoldable pub open_store :
    {D : Type 0} → (Text → Option D) → (D → Option D) → Text → ℕ → Option (SqliteStore D)
open_store connect create_tables path max = elim (connect path) [
  | none ↦ none
  | some d ↦ elim (create_tables d) [
    | none ↦ none
    | some conn ↦ some (record { conn = conn; max = max; notified = 0 })
  ]
]

abbrev pub notify : {D : Type 0} → SqliteStore D → SqliteStore D
notify s = record s { notified = s.notified + 1 }

-- `query_row`: the first row, if there is one.
abbrev pub first_row {ℓ} : {A : Type ℓ} → Option (List A) → Option A
first_row none = none
first_row (some []) = none
first_row (some (r ∷ rs)) = some r

abbrev pub attachment_of_first : Option AttachmentRow → Option Attachment
attachment_of_first none = none
attachment_of_first (some r) = some (attachment_of_row r)

module _ {D : Type 0} (engine : Engine D) where
  unfoldable pub load_attachments : D → Text → List Attachment
  unfolding attachments_of_rows
  load_attachments d email_id =
      attachments_of_rows (unwrap_or (engine.select_attachments d email_id) [])

  -- A failing statement leaves the connection as it is.
  abbrev pub or_same : D → Option D → D
  or_same d r = unwrap_or r d

  unfoldable pub enforce_max : ℕ → D → D
  enforce_max max d =
      let count = unwrap_or (engine.count_emails d) 0 in
      if ltb max count then or_same d (engine.delete_oldest d (count - max)) else d

  unfoldable pub insert_attachments : Text → List Attachment → D → D
  unfolding row_of_attachment
  insert_attachments email_id [] d = d
  insert_attachments email_id (a ∷ as') d =
      insert_attachments email_id as'
        (or_same d (engine.insert_attachment d (row_of_attachment email_id a)))

  module _ (json : Json) where
    -- `record.attachments = Self::load_attachments(&conn, …)`
    unfoldable pub load_record : D → EmailRow → MailRecord
    unfolding row_to_record load_attachments
    load_record d r = record (row_to_record json r) { attachments = load_attachments d r.id }

    unfoldable pub load_records : D → List EmailRow → List MailRecord
    load_records d [] = []
    load_records d (r ∷ rs) = load_record d r ∷ load_records d rs

    abbrev pub kept : ℕ → MailRecord → D → Option D → D
    kept max email d none = d
    kept max email d (some d') = enforce_max max (insert_attachments email.id email.attachments d')

    unfoldable pub push : SqliteStore D → MailRecord → SqliteStore D
    unfolding row_of enforce_max insert_attachments
    push s email = notify (record s {
      conn = kept s.max email s.conn (engine.insert_email s.conn (row_of json email));
    })

    unfoldable pub get_all : SqliteStore D → List MailRecord
    unfolding load_records
    get_all s = load_records s.conn (unwrap_or (engine.select_emails s.conn []) [])

    abbrev pub loaded : D → Text → Option EmailRow → Option MailRecord
    loaded d id none = none
    loaded d id (some r) =
        some (record (row_to_record json r) { attachments = load_attachments d id })

    unfoldable pub get_by_id : SqliteStore D → Text → Option MailRecord
    unfolding row_to_record load_attachments
    get_by_id s id = loaded s.conn id (first_row (engine.select_email s.conn id))

    unfoldable pub query : SqliteStore D → EmailQuery → List MailRecord
    unfolding conditions_of load_records
    query s q = load_records s.conn (unwrap_or (engine.select_emails s.conn (conditions_of q)) [])

  unfoldable pub get_attachment : SqliteStore D → Text → Text → Option Attachment
  get_attachment s email_id filename =
      attachment_of_first (first_row (engine.select_named s.conn email_id filename))

  unfoldable pub get_attachment_by_cid : SqliteStore D → Text → Text → Option Attachment
  get_attachment_by_cid s email_id cid =
      attachment_of_first (first_row (engine.select_cid s.conn email_id cid))

  unfoldable pub clear : SqliteStore D → SqliteStore D
  clear s = notify (record s { conn = or_same s.conn (engine.delete_emails s.conn) })

  -- Whether the statement removed a row, and a notification if it did.
  abbrev pub removed : SqliteStore D → Option (ℕ × D) → SqliteStore D × Bool
  removed s none = (s, false)
  removed s (some (n, d)) =
      let t = record s { conn = d } in if ltb 0 n then (notify t, true) else (t, false)

  unfoldable pub remove : SqliteStore D → Text → SqliteStore D × Bool
  remove s id = removed s (engine.delete_email s.conn id)

  unfoldable pub close : SqliteStore D → SqliteStore D
  close s = record s { conn = or_same s.conn (engine.checkpoint s.conn) }

  abbrev pub sqlite_storage : Json → EmailStorage (SqliteStore D)
  sqlite_storage json = record {
    push = push json;
    get_all = get_all json;
    get_by_id = get_by_id json;
    query = query json;
    get_attachment = get_attachment;
    get_attachment_by_cid = get_attachment_by_cid;
    clear = clear;
    remove = remove;
  }
