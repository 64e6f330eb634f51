-- ===== src/Store/Query.antt =====
-- `matches_query` of src/store.rs: one test for each field of the query, in order.
pub mod Meaning
use smtp_sink.Prelude.{
  Bool, true, false, not, List, Option, none, some, any, unwrap_or, if◌then◌else◌, [],
}
use smtp_sink.Text.{Text, contains, text_lt}
use smtp_sink.Text.Case.{CaseTables, to_lowercase}
use smtp_sink.Email.{MailRecord}
use smtp_sink.Store.Defs.{EmailQuery}

module _ (u : CaseTables) where
  unfoldable pub from_ok : MailRecord → Option Text → Bool
  from_ok e none = true
  from_ok e (some from) = contains (to_lowercase u e.from) (to_lowercase u from)

  unfoldable pub to_ok : MailRecord → Option Text → Bool
  to_ok e none = true
  to_ok e (some to) =
      let to_lower = to_lowercase u to in any (λ t. contains (to_lowercase u t) to_lower) e.to

  unfoldable pub subject_ok : MailRecord → Option Text → Bool
  subject_ok e none = true
  subject_ok e (some subject) =
      contains (to_lowercase u (unwrap_or e.subject [])) (to_lowercase u subject)

  unfoldable pub since_ok : MailRecord → Option Text → Bool
  since_ok e none = true
  since_ok e (some since) = not (text_lt e.date since)

  unfoldable pub until_ok : MailRecord → Option Text → Bool
  until_ok e none = true
  until_ok e (some until) = not (text_lt until e.date)

  unfoldable pub matches_query : MailRecord → EmailQuery → Bool
  matches_query e q =
      if not (from_ok e q.from)
      then false
      else if not (to_ok e q.to)
      then false
      else if not (subject_ok e q.subject)
      then false
      else if not (since_ok e q.since)
      then false
      else if not (until_ok e q.until)
      then false
      else true
