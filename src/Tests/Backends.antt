-- ===== src/Tests/Backends.antt =====
-- The theorem on the two backends, with the engine of the tests.
use smtp_sink.Prelude.{reverse, ◌≡◌, refl, arith, none, some, []}
use smtp_sink.Text.{Text, codes}
use smtp_sink.Store.Memory
use smtp_sink.Store.Memory.{MemoryStore}
use smtp_sink.Store.Sqlite.{SqliteStore, push, remove, get_all, get_by_id, open_store}
use smtp_sink.Store.Agree.Run.{Together, opened, pushed}
use smtp_sink.Store.Agree.Answers.{AlikeList, AlikeOption, Together-alike}
use smtp_sink.Tests.Setup.{email_of}
use smtp_sink.Tests.Engine.{Tables, engine}
use smtp_sink.Tests.Engine.Encoding.{json, json-IsJson}
use smtp_sink.Tests.Engine.Laws.{engine-IsSqlite}

abbrev no_rows : Tables
no_rows = record {
  emails = [];
  attachments = [];
  created_at = λ id. 0;
  clock = 1;
  keys = tt;
  owners = tt;
  newest = tt;
  past = tt;
}

abbrev sqlite_first : SqliteStore Tables
sqlite_first = record { conn = no_rows; max = 1; notified = 0 }

abbrev sqlite_two : SqliteStore Tables
sqlite_two = push engine json (push engine json sqlite_first (email_of "1")) (email_of "2")

abbrev memory_two : MemoryStore
memory_two = Memory.push (Memory.push (Memory.new 1) (email_of "1")) (email_of "2")

opens : open_store (λ p. some no_rows) (λ d. some d) (codes "db") 1 ≡ some sqlite_first
unfolding open_store
opens = refl

second_absent :
    Memory.get_by_id (Memory.push (Memory.new 1) (email_of "1")) (email_of "2").id ≡ none
unfolding Memory.get_by_id Memory.push Memory.new smtp_sink.Text.text_eq
second_absent = refl

first_absent : Memory.get_by_id (Memory.new 1) (email_of "1").id ≡ none
unfolding Memory.get_by_id Memory.new
first_absent = refl

two_together : Together engine-IsSqlite json 1 memory_two sqlite_two
unfolding engine-IsSqlite
two_together =
    pushed (email_of "2")
      (pushed (email_of "1") (opened (λ p. some no_rows) (λ d. some d) (codes "db") opens refl)
        first_absent tt)
      second_absent (push engine json sqlite_first (email_of "1")).conn.past

Together-alike_example :
    AlikeList (reverse (Memory.get_all memory_two)) (get_all engine json sqlite_two)
    × ((id : Text)
        → AlikeOption (Memory.get_by_id memory_two id) (get_by_id engine json sqlite_two id)
          × ((Memory.remove memory_two id).1 ≡ (remove engine sqlite_two id).1))
    × (sqlite_two.notified ≡ memory_two.notified)
Together-alike_example = Together-alike engine-IsSqlite json json-IsJson (omega arith) two_together
