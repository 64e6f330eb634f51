-- ===== src/Tests/Database.antt =====
-- The theorems on the SQLite store, with the engine of the tests.
use smtp_sink.Prelude.{
  All, ◌≡◌, ◌≢◌, ◌≤◌, ◌↔◌, refl, inl, inr, arith, none, some, List, [], ◌∷◌, length, Has,
  Rearranges,
}
use smtp_sink.Text.{Text, codes}
use smtp_sink.Email.{Attachment}
use smtp_sink.Store.{EmailQuery, IsLawful}
use smtp_sink.Store.Query.Meaning.{Satisfies}
use smtp_sink.Store.Rows.{EmailRow, AttachmentRow, conditions_of}
use smtp_sink.Store.Sqlite.{
  SqliteStore, remove, push, get_all, get_by_id, query, notify, sqlite_storage,
}
use smtp_sink.Store.Sqlite.Interface.{sqlite_storage-IsLawful}
use smtp_sink.Store.Sqlite.Push.{push_rejected, push-get_by_id}
use smtp_sink.Store.Sqlite.Conditions.{IsSimple, HasAscii}
use smtp_sink.Store.Sqlite.Queries.{query_iff_simple}
use smtp_sink.Tests.Setup.{tables, email_of}
use smtp_sink.Tests.Engine.{Tables, engine}
use smtp_sink.Tests.Engine.Like.{like-IsLike}
use smtp_sink.Tests.Engine.Encoding.{json, json-IsJson}
use smtp_sink.Tests.Engine.Laws.{engine-IsSqlite}

abbrev pub row : EmailRow
row = record {
  id = codes "1";
  from_addr = codes "Ann@x";
  to_addrs = [];
  subject = none;
  text_body = none;
  html_body = none;
  date = codes "2024-01-01";
  headers = [];
  raw = [];
}

abbrev pub attachment_row : AttachmentRow
attachment_row = record {
  email_id = codes "1";
  filename = codes "report.txt";
  content_type = codes "text/plain";
  content_id = none;
  content = codes "ok";
  size = 2;
}

abbrev pub one_row : Tables
one_row = record {
  emails = row ∷ [];
  attachments = attachment_row ∷ [];
  created_at = λ id. 0;
  clock = 1;
  keys = (tt, tt);
  owners = (inl refl, tt);
  newest = (tt, tt);
  past = (omega arith, tt);
}

-- One email in a store for one.
abbrev pub full : SqliteStore Tables
full = record { conn = one_row; max = 1; notified = 1 }

pub one_email : length (get_all engine json full) ≤ 1
unfolding get_all
one_email = omega arith

absent : get_by_id engine json full (codes "2") ≡ none
unfolding get_by_id smtp_sink.Text.text_eq
absent = refl

present : get_by_id engine json full (codes "1") ≢ none
unfolding get_by_id smtp_sink.Text.text_eq
present e = cc

sqlite_storage-IsLawful_example : IsLawful (sqlite_storage engine json)
sqlite_storage-IsLawful_example = sqlite_storage-IsLawful engine-IsSqlite json

push_rejected_example : push engine json full (email_of "1") ≡ notify full
push_rejected_example = push_rejected engine-IsSqlite json full (email_of "1") present

push-get_by_id_example :
    (l : List Attachment) × (get_by_id engine json
        (push engine json full (email_of "2"))
        (codes "2")
      ≡ some (record (email_of "2") { attachments = l }))
    × Rearranges (email_of "2").attachments l
unfolding engine-IsSqlite
push-get_by_id_example =
    push-get_by_id engine-IsSqlite json json-IsJson full (email_of "2") absent
      (inr (omega arith, (omega arith, tt)))

abbrev from_ann : EmailQuery
from_ann = record {
  from = some (codes "ANN");
  to = none;
  subject = none;
  since = none;
  until = none;
}

from_ann-IsSimple : IsSimple from_ann
unfolding smtp_sink.Text.Case.is_ascii conditions_of smtp_sink.Text.Slice.len
from_ann-IsSimple = record {
  from = (refl, ground arith);
  to = refl;
  subject = tt;
  short = ground arith;
}

full-HasAscii : All HasAscii (get_all engine json full)
unfolding get_all smtp_sink.Text.Case.is_ascii smtp_sink.Store.Sqlite.load_record
full-HasAscii = (((refl, omega arith), tt), tt)

query_iff_simple_example :
    let e = email_of "1" in
    Has e (query engine json full from_ann)
    ↔ (Has e (get_all engine json full) × Satisfies tables e from_ann)
unfolding engine-IsSqlite
query_iff_simple_example =
    query_iff_simple engine-IsSqlite json tables like-IsLike full from_ann (email_of "1")
      from_ann-IsSimple full-HasAscii
