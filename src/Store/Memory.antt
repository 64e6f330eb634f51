-- ===== src/Store/Memory.antt =====
-- `MemoryStore` of src/store.rs. Each method takes the lock once, and reads or changes the list under it;
-- no step panics under the lock, so the lock is never poisoned. A method that changes the list sends its
-- notification when the lock is free again: the functions below are these two parts in sequence,
-- the change of `emails` and `notify`, which counts the message that is owed, and Http/Watch has
-- what comes between them.
pub mod Capacity
pub mod Lookup
pub mod Interface
pub mod Queries
use smtp_sink.Prelude.{
  ℕ, zero, suc, ◌+◌, Bool, true, false, List, [], ◌∷◌, ◌++◌, Option, none, some, length, find,
  filter, ltb, if◌then◌else◌,
}
use smtp_sink.Text.{Text, text_eq, opt_text_eq}
use smtp_sink.Text.Case.{CaseTables}
use smtp_sink.Email.{MailRecord, Attachment, has_id}
use smtp_sink.Store.Defs.{EmailQuery}
use smtp_sink.Store.Query.{matches_query}

pub record MemoryStore : Type 0 where
  pub max : ℕ
  pub emails : List MailRecord
  pub notified : ℕ

unfoldable pub new : ℕ → MemoryStore
new max = record { max = max; emails = []; notified = 0 }

abbrev pub notify : MemoryStore → MemoryStore
notify s = record s { notified = s.notified + 1 }

-- `while emails.len() > self.max { emails.remove(0); }`
unfoldable pub drop_oldest : ℕ → List MailRecord → List MailRecord
drop_oldest max [] = []
drop_oldest max (e ∷ es) =
    let rest = drop_oldest max es in if ltb max (length (e ∷ es)) then rest else e ∷ es

unfoldable pub push : MemoryStore → MailRecord → MemoryStore
unfolding drop_oldest
push s email = notify (record s { emails = drop_oldest s.max (s.emails ++ email ∷ []) })

unfoldable pub get_all : MemoryStore → List MailRecord
get_all s = s.emails

unfoldable pub get_by_id : MemoryStore → Text → Option MailRecord
get_by_id s id = find (has_id id) s.emails

unfoldable pub query : CaseTables → MemoryStore → EmailQuery → List MailRecord
query u s q = filter (λ e. matches_query u e q) s.emails

unfoldable pub get_attachment : MemoryStore → Text → Text → Option Attachment
get_attachment s email_id filename = elim (find (has_id email_id) s.emails) [
  | none ↦ none
  | some email ↦ find (λ a. text_eq a.filename filename) email.attachments
]

unfoldable pub get_attachment_by_cid : MemoryStore → Text → Text → Option Attachment
get_attachment_by_cid s email_id cid = elim (find (has_id email_id) s.emails) [
  | none ↦ none
  | some email ↦ find (λ a. opt_text_eq a.content_id (some cid)) email.attachments
]

unfoldable pub clear : MemoryStore → MemoryStore
clear s = notify (record s { emails = [] })

-- `emails.iter().position(|e| e.id == id)`
unfoldable pub position : Text → List MailRecord → Option ℕ
position id [] = none
position id (e ∷ es) =
    let later = position id es in
    if has_id id e then some 0 else elim later [ none ↦ none | some i ↦ some (suc i) ]

-- `Vec::remove`, at a position in range.
unfoldable pub remove_at : ℕ → List MailRecord → List MailRecord
remove_at i [] = []
remove_at zero (e ∷ es) = es
remove_at (suc i) (e ∷ es) = e ∷ remove_at i es

unfoldable pub remove : MemoryStore → Text → MemoryStore × Bool
unfolding position remove_at
remove s id = elim (position id s.emails) [
  | none ↦ (s, false)
  | some pos ↦ (notify (record s { emails = remove_at pos s.emails }), true)
]
