-- ===== src/Store/Defs.antt =====
-- The query and the trait of the storage backends, `EmailStorage` of src/store.rs, with the laws
-- that its clients rely on.
use smtp_sink.Prelude.{◌≢◌, All, Has, Bool, false, is_some, List, Option, none, some, find, ◌≡◌, []}
use smtp_sink.Text.{Text}
use smtp_sink.Email.{MailRecord, Attachment, has_id}

pub record EmailQuery : Type 0 where
  pub from : Option Text
  pub to : Option Text
  pub subject : Option Text
  pub since : Option Text
  pub until : Option Text

-- The methods of a backend whose state is `S`; those that write return the new state.
pub record EmailStorage (S : Type 0) : Type 0 where
  pub push : S → MailRecord → S
  pub get_all : S → List MailRecord
  pub get_by_id : S → Text → Option MailRecord
  pub query : S → EmailQuery → List MailRecord
  pub get_attachment : S → Text → Text → Option Attachment
  pub get_attachment_by_cid : S → Text → Text → Option Attachment
  pub clear : S → S
  pub remove : S → Text → S × Bool

-- One of the attachments that have the name, or none if none has it.
abbrev pub Offers : Text → List Attachment → Option Attachment → Type 0
Offers filename as' none = All (λ a. a.filename ≢ filename) as'
Offers filename as' (some a) = Has a as' × (a.filename ≡ filename)

-- What the HTTP handlers rely on.
pub record IsLawful {S : Type 0} (o : EmailStorage S) : Type 0 where
  pub get_by_id-find : (s : S) (id : Text) → o.get_by_id s id ≡ find (has_id id) (o.get_all s)
  pub get_all-clear : (s : S) → o.get_all (o.clear s) ≡ []
  pub remove-is_some : (s : S) (id : Text) → (o.remove s id).1 ≡ is_some (o.get_by_id s id)
  pub get_all-remove_absent :
      (s : S) (id : Text) → (o.remove s id).1 ≡ false → o.get_all (o.remove s id).0 ≡ o.get_all s
  pub get_attachment-Offers :
      (s : S) (id filename : Text) (e : MailRecord)
      → o.get_by_id s id ≡ some e
      → Offers filename e.attachments (o.get_attachment s id filename)
  pub get_attachment_lacking :
      (s : S) (id filename : Text) → o.get_by_id s id ≡ none → o.get_attachment s id filename ≡ none
