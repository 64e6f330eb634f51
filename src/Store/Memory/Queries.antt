-- ===== src/Store/Memory/Queries.antt =====
-- The results of `MemoryStore::query` of src/store.rs.
use smtp_sink.Prelude.{Has, of_filter, in_filter, ◌↔◌}
use smtp_sink.Text.Case.{CaseTables}
use smtp_sink.Email.{MailRecord}
use smtp_sink.Store.Defs.{EmailQuery}
use smtp_sink.Store.Query.{matches_query}
use smtp_sink.Store.Query.Meaning.{Satisfies, matches_query_iff}
use smtp_sink.Store.Memory.{MemoryStore, query}

-- An email is among the results of a query exactly when it is in the store and satisfies the query: each
-- text that is asked for stands in its field, whatever the case, and the text of its date is, character by
-- character, not below `since` and not above `until`; the times that these texts denote are not compared.
pub query_iff :
    (u : CaseTables) (s : MemoryStore) (q : EmailQuery) (e : MailRecord)
    → Has e (query u s q) ↔ (Has e s.emails × Satisfies u e q)
unfolding query
query_iff u s q e = (
  λ h.
      let r = of_filter (λ x. matches_query u x q) s.emails h in
      (r.0, (matches_query_iff u e q).0 r.1),
  λ h. in_filter (λ x. matches_query u x q) s.emails ((matches_query_iff u e q).1 h.1) h.0,
)
