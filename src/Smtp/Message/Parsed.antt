-- ===== src/Smtp/Message/Parsed.antt =====
-- What every email has that `parse_email` reads.
use smtp_sink.Prelude.{
  ◌≡◌, refl, ℕ, suc, false, inl, inr, List, [], ◌∷◌, Option, none, some, All, length, Bool-cases,
  Option-cases,
}
use smtp_sink.Text.{Text, Bytes, is_empty}
use smtp_sink.Email.{Attachment, MailRecord}
use smtp_sink.Smtp.Session.{Session}
use smtp_sink.Smtp.Message.{
  External, Stamp, Addr, Part, addresses, to_of, attachments_of, attachment_of, parse_email,
}

-- The size of an attachment is that of its content.
abbrev pub IsSized : Attachment → Type 0
IsSized a = a.size ≡ length a.content

-- The bytes of the message are kept, there is a recipient, and the sizes are right.
pub record IsWhole (content : Bytes) (email : MailRecord) : Type 0 where
  pub raw : email.raw ≡ content
  pub addressed : is_empty email.to ≡ false
  pub sized : All IsSized email.attachments

to_of-cons :
    (list : Option (List Addr)) (session : Session)
    → is_empty session.rcpt_to ≡ false
    → is_empty (to_of list session) ≡ false
unfolding to_of
to_of-cons none session h = h
to_of-cons (some list) session h = elim (Bool-cases (is_empty (addresses list))) [
  | inl e ↦ rw e h
  | inr e ↦ rw e e
]

attachments_of-IsSized :
    (uuid : ℕ → Text) (i : ℕ) (ps : List Part) → All IsSized (attachments_of uuid i ps)
unfolding attachments_of attachment_of
attachments_of-IsSized uuid i [] = tt
attachments_of-IsSized uuid i (p ∷ ps) = (refl, attachments_of-IsSized uuid (suc i) ps)

-- The email that is read from a message of a session with a recipient has the bytes of the message, at
-- least one recipient, and attachments whose sizes are those of their contents, whether or not the
-- message can be parsed and whatever it says.
pub parse_email-IsWhole :
    (ext : External) (st : Stamp) (content : Bytes) (session : Session)
    → is_empty session.rcpt_to ≡ false
    → IsWhole content (parse_email ext st content session)
unfolding parse_email
parse_email-IsWhole ext st content session h = elim (Option-cases (ext.parse_message content)) [
  | inl e ↦ rw (e, parse_email) (record { raw = refl; addressed = h; sized = tt })
  | inr (msg, e) ↦
      rw (e, parse_email)
        (record {
          raw = refl;
          addressed = to_of-cons msg.to session h;
          sized = attachments_of-IsSized st.attachment_uuid 0 msg.attachments;
        })
]
