-- ===== src/Tests/Http.antt =====
-- The theorems on the HTTP handlers, at concrete inputs.
use smtp_sink.Prelude.{some, ◌≢◌, ◌↔◌, none, ◌≡◌, refl, [], ◌∷◌}
use smtp_sink.Text.{codes}
use smtp_sink.Store.Memory.{MemoryStore}
use smtp_sink.Store.Memory.Interface.{memory_storage-IsLawful}
use smtp_sink.Http.{
  delete_email, delete_all_emails, get_email, get_attachment, list_attachments, health_check, serve,
  email_not_found, attachment_not_found, plain, health, infos, infos_of,
}
use smtp_sink.Http.Laws.{
  delete_email-absent, get_email-absent, delete_all-empty, delete_email-count,
}
use smtp_sink.Http.Socket.{
  Event, notified, received, close, handle_websocket, handle_websocket-leave,
}
use smtp_sink.Http.{not_found}
use smtp_sink.Http.Routes.{IsRouter, first_match, routed, handled, get, EmailQueryParams}
use smtp_sink.Http.Routes.Reached.{Asks}
use smtp_sink.Http.Routes.Answered.{routed_iff}
use smtp_sink.Tests.Setup.{tables, storage, two_emails, empty_store}

delete_email-absent_example :
    ((serve storage (delete_email (codes "3")) two_emails).0 ≡ email_not_found)
    × (storage.get_all (serve storage (delete_email (codes "3")) two_emails).1
        ≡ storage.get_all two_emails)
unfolding serve smtp_sink.Http.email_response smtp_sink.Store.Memory.get_by_id
    smtp_sink.Text.text_eq
delete_email-absent_example =
    delete_email-absent storage (memory_storage-IsLawful tables) two_emails (codes "3") refl

get_email-absent_example :
    ((serve storage (list_attachments (codes "3")) two_emails).0 ≡ email_not_found)
    × ((serve storage (get_attachment (codes "3") (codes "report.txt")) two_emails).0
        ≡ attachment_not_found)
unfolding serve smtp_sink.Http.email_response smtp_sink.Store.Memory.get_by_id
    smtp_sink.Text.text_eq
get_email-absent_example =
    get_email-absent storage (memory_storage-IsLawful tables) two_emails (codes "3")
      (codes "report.txt") refl

delete_all-empty_example :
    let t = (serve storage delete_all_emails two_emails).1 in
    ((serve storage health_check t).0 ≡ plain 200 (health 0))
    × ((serve storage (get_email (codes "1")) t).0 ≡ email_not_found)
    × ((serve storage (delete_email (codes "1")) t).0 ≡ email_not_found)
delete_all-empty_example =
    delete_all-empty storage (memory_storage-IsLawful tables) two_emails (codes "1")

delete_email-count_example : (serve storage health_check two_emails).0 ≡ plain 200 (health 2)
unfolding serve smtp_sink.Http.delete_response smtp_sink.Store.Memory.remove smtp_sink.Text.text_eq
delete_email-count_example = delete_email-count tables two_emails (codes "2") refl

handle_websocket-leave_example :
    handle_websocket storage empty_store
      (notified two_emails ∷ received close ∷ notified empty_store ∷ [])
      9
    ≡ handle_websocket storage empty_store (notified two_emails ∷ []) 9
unfolding smtp_sink.Http.Socket.action_of
handle_websocket-leave_example =
    handle_websocket-leave storage empty_store (notified two_emails ∷ [])
      (notified empty_store ∷ []) (received close) 9 refl

first_match-IsRouter : IsRouter first_match
first_match-IsRouter table path h = refl

abbrev no_query : EmailQueryParams
no_query = record { from = none; to = none; subject = none; since = none; until = none }

one_email_asked : get_email (codes "1") ≢ not_found
one_email_asked e = cc e

routed_iff_example :
    (routed first_match some get (codes "emails" ∷ codes "1" ∷ []) no_query
      ≡ handled (get_email (codes "1")))
    ↔ Asks some (get_email (codes "1")) get (codes "emails" ∷ codes "1" ∷ []) no_query
routed_iff_example =
    routed_iff first_match first_match-IsRouter some (get_email (codes "1")) get
      (codes "emails" ∷ codes "1" ∷ []) no_query one_email_asked
