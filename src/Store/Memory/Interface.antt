-- ===== src/Store/Memory/Interface.antt =====
-- `impl EmailStorage for MemoryStore` of src/store.rs.
use smtp_sink.Prelude.{
  Bool-cases, inl, inr, ◌≢◌, Option, ◌≡◌, refl, false, List, [], ◌∷◌, none, some, is_some, find,
  arith,
}
use smtp_sink.Text.{Text, text_eq, text_eq_iff}
use smtp_sink.Text.Case.{CaseTables}
use smtp_sink.Email.{Attachment, MailRecord, has_id}
use smtp_sink.Store.Defs.{Offers, EmailStorage, IsLawful}
use smtp_sink.Store.Memory
use smtp_sink.Store.Memory.{
  MemoryStore, get_by_id, get_all, get_attachment, clear, remove, position,
}

abbrev pub memory_storage : CaseTables → EmailStorage MemoryStore
memory_storage u = record {
  push = Memory.push;
  get_all = Memory.get_all;
  get_by_id = Memory.get_by_id;
  query = Memory.query u;
  get_attachment = Memory.get_attachment;
  get_attachment_by_cid = Memory.get_attachment_by_cid;
  clear = Memory.clear;
  remove = Memory.remove;
}

position-find :
    (id : Text) (es : List MailRecord) → is_some (position id es) ≡ is_some (find (has_id id) es)
unfolding position
position-find id [] = refl
position-find id (e ∷ es) = ground (arith, position-find id es)

pub remove-is_some : (s : MemoryStore) (id : Text) → (remove s id).1 ≡ is_some (get_by_id s id)
unfolding remove get_by_id
remove-is_some s id = ground (arith, position-find id s.emails)

remove_absent :
    (s : MemoryStore) (id : Text) → (remove s id).1 ≡ false → get_all (remove s id).0 ≡ get_all s
unfolding remove get_all
remove_absent s id h = ground arith

find-Offers :
    (filename : Text) (as' : List Attachment)
    → Offers filename as' (find (λ a. text_eq a.filename filename) as')
find-Offers filename [] = tt
find-Offers filename (a ∷ as') = elim (Bool-cases (text_eq a.filename filename)) [
  | inl e ↦ rw e (inl refl, (text_eq_iff a.filename filename).0 e)
  | inr e ↦ rw e (
      more (find (λ b. text_eq b.filename filename) as')
        (λ k. absurd (cc ((text_eq_iff a.filename filename).1 k, e))) (find-Offers filename as'))
]
  where
    more :
        (o : Option Attachment)
        → (a.filename ≢ filename)
        → Offers filename as' o
        → Offers filename (a ∷ as') o
    more none ne h = (ne, h)
    more (some b) ne h = (inr h.0, h.1)

get_attachment-Offers :
    (s : MemoryStore) (id filename : Text) (e : MailRecord)
    → get_by_id s id ≡ some e
    → Offers filename e.attachments (get_attachment s id filename)
unfolding get_by_id get_attachment
get_attachment-Offers s id filename e h =
    rw (h, get_attachment) (find-Offers filename e.attachments)

get_attachment_lacking :
    (s : MemoryStore) (id filename : Text)
    → get_by_id s id ≡ none
    → get_attachment s id filename ≡ none
unfolding get_by_id get_attachment
get_attachment_lacking s id filename h = rw (h, get_attachment)

-- The store in memory has the laws that the clients of a backend rely on: an email is found by the
-- first place of its id in the list; nothing is left behind `clear`; `remove` answers whether the
-- id was there, and changes no list where it was not; what is served under a name is an attachment of
-- the email that has the name, and nothing only if none has.
pub memory_storage-IsLawful : (u : CaseTables) → IsLawful (memory_storage u)
unfolding get_by_id get_all clear get_attachment
memory_storage-IsLawful u = record {
  get_by_id-find = λ s id. refl;
  get_all-clear = λ s. refl;
  remove-is_some = remove-is_some;
  get_all-remove_absent = remove_absent;
  get_attachment-Offers = get_attachment-Offers;
  get_attachment_lacking = get_attachment_lacking;
}
