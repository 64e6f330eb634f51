-- ===== src/Http/Laws.antt =====
-- What a client of the HTTP interface sees of a sequence of requests, for every lawful backend.
use smtp_sink.Prelude.{
  Has, All, Option, none, ◌≢◌, ◌+◌, ◌≡◌, ◌∙◌, ◌↔◌, refl, sym, ap, List, [], ◌∷◌, ◌++◌, some,
  is_some, length, find, Any, inl, inr, arith, length-append, Option-cases, Bool-cases,
}
use smtp_sink.Text.{Text}
use smtp_sink.Text.Case.{CaseTables}
use smtp_sink.Email.{Attachment, MailRecord, has_id}
use smtp_sink.Store.{EmailStorage, IsLawful, Offers}
use smtp_sink.Store.Memory.{MemoryStore, remove, get_all}
use smtp_sink.Store.Memory.Interface.{memory_storage}
use smtp_sink.Store.Memory.Lookup.{remove_true}
use smtp_sink.Http.{
  get_email, delete_email, delete_all_emails, list_attachments, get_attachment, health_check, serve,
  email_response, delete_response, infos_response, attachment_response, infos_of, plain, health,
  email_not_found, attachment_not_found, infos,
}

module _ {S : Type 0} (storage : EmailStorage S) (l : IsLawful storage) where
  -- Where a request for an email is answered by 404, so is a request to delete it, and the emails
  -- are as they were.
  pub delete_email-absent :
      (s : S) (id : Text)
      → (serve storage (get_email id) s).0.status ≡ 404
      → ((serve storage (delete_email id) s).0 ≡ email_not_found)
        × (storage.get_all (serve storage (delete_email id) s).1 ≡ storage.get_all s)
  unfolding serve email_response delete_response
  delete_email-absent s id h = elim (Option-cases (storage.get_by_id s id)) [
    | inl e ↦
        let gone = l.remove-is_some s id ∙ ap is_some e in
        (ap delete_response gone, l.get_all-remove_absent s id gone)
    | inr (m, e) ↦ absurd (omega (arith, sym h ∙ ap (λ o. (email_response o).status) e))
  ]

  -- An email that is not found has no attachments to list or to serve.
  pub get_email-absent :
      (s : S) (id filename : Text)
      → (serve storage (get_email id) s).0.status ≡ 404
      → ((serve storage (list_attachments id) s).0 ≡ email_not_found)
        × ((serve storage (get_attachment id filename) s).0 ≡ attachment_not_found)
  unfolding serve email_response infos_response attachment_response
  get_email-absent s id filename h = elim (Option-cases (storage.get_by_id s id)) [
    | inl e ↦
        (ap infos_response e, ap attachment_response (l.get_attachment_lacking s id filename e))
    | inr (m, e) ↦ absurd (omega (arith, sym h ∙ ap (λ o. (email_response o).status) e))
  ]

  -- After a request to delete all, the list is empty, the count is 0 and no email is found.
  pub delete_all-empty :
      (s : S) (id : Text)
      → let t = (serve storage delete_all_emails s).1 in
        ((serve storage health_check t).0 ≡ plain 200 (health 0))
        × ((serve storage (get_email id) t).0 ≡ email_not_found)
        × ((serve storage (delete_email id) t).0 ≡ email_not_found)
  unfolding serve email_response delete_response
  delete_all-empty s id =
      let gone =
        l.get_by_id-find (storage.clear s) id ∙ ap (find (has_id id)) (l.get_all-clear s) in
      (
        ap (λ es. plain 200 (health (length es))) (l.get_all-clear s),
        ap email_response gone,
        ap delete_response (l.remove-is_some (storage.clear s) id ∙ ap is_some gone),
      )

  listed :
      (as' : List Attachment) (filename : Text) (a : Attachment)
      → Has a as'
      → a.filename ≡ filename
      → Any (λ i. i.filename ≡ filename) (infos_of as')
  unfolding infos_of
  listed [] filename a h e = absurd h
  listed (b ∷ as') filename a (inl k) e = inl (ap (λ (c : Attachment). c.filename) k ∙ e)
  listed (b ∷ as') filename a (inr k) e = inr (listed as' filename a k e)

  not_listed :
      (as' : List Attachment) (filename : Text)
      → All (λ a. a.filename ≢ filename) as'
      → ¬ Any (λ i. i.filename ≡ filename) (infos_of as')
  unfolding infos_of
  not_listed [] filename h k = absurd k
  not_listed (b ∷ as') filename h (inl k) = h.0 k
  not_listed (b ∷ as') filename h (inr k) = not_listed as' filename h.1 k

  Offers-listed :
      (o : Option Attachment) (as' : List Attachment) (filename : Text)
      → Offers filename as' o
      → ((attachment_response o).status ≡ 200) ↔ Any (λ i. i.filename ≡ filename) (infos_of as')
  unfolding attachment_response
  Offers-listed none as' filename h =
      (λ k. absurd (omega arith), λ k. absurd (not_listed as' filename h k))
  Offers-listed (some a) as' filename h = (λ k. listed as' filename a h.0 h.1, λ k. refl)

  -- Of an email that is found, an attachment is served under a name exactly when the list of its
  -- attachments has the name.
  pub get_attachment-listed :
      (s : S) (id filename : Text) (m : MailRecord)
      → storage.get_by_id s id ≡ some m
      → ((serve storage (list_attachments id) s).0 ≡ plain 200 (infos (infos_of m.attachments)))
        × (((serve storage (get_attachment id filename) s).0.status ≡ 200)
            ↔ Any (λ i. i.filename ≡ filename) (infos_of m.attachments))
  unfolding serve infos_response
  get_attachment-listed s id filename m e = (
    ap infos_response e,
    Offers-listed (storage.get_attachment s id filename) m.attachments filename
        (l.get_attachment-Offers s id filename m e),
  )

length-removed :
    (l r : List MailRecord) (e : MailRecord) → length (l ++ e ∷ r) ≡ length (l ++ r) + 1
length-removed l r e = omega (arith, length-append l (e ∷ r), length-append l r)

-- On the store in memory, where a request to delete is answered by 204, the count of the health
-- route was one more than the emails that are left.
pub delete_email-count :
    (u : CaseTables) (s : MemoryStore) (id : Text)
    → (serve (memory_storage u) (delete_email id) s).0.status ≡ 204
    → (serve (memory_storage u) health_check s).0
      ≡ plain 200 (health (length (serve (memory_storage u) (delete_email id) s).1.emails + 1))
unfolding serve get_all delete_response
delete_email-count u s id h = elim (Bool-cases (remove s id).1) [
  | inl e ↦
      let (l, m, r, split, lacks, found, left) = remove_true s id e in
      ap (λ n. plain 200 (health n))
        (ap length split
          ∙ length-removed l r m
          ∙ ap (λ (t : MemoryStore). length t.emails + 1) (sym left))
  | inr e ↦ absurd (omega (arith, sym h ∙ ap (λ b. (delete_response b).status) e))
]
