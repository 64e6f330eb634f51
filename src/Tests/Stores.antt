-- ===== src/Tests/Stores.antt =====
-- The theorems on the stores, at concrete inputs.
use smtp_sink.Prelude.{
  Has, ◌≡◌, ◌≢◌, ◌≤◌, ◌↔◌, refl, arith, ap, some, none, [], ◌∷◌, true, length, ℕ,
}
use smtp_sink.Text.{Text, codes}
use smtp_sink.Store.{EmailQuery}
use smtp_sink.Store.Query.{matches_query}
use smtp_sink.Store.Query.Meaning.{Satisfies, matches_query_iff}
use smtp_sink.Store.Memory.{new, push, remove, get_by_id, query}
use smtp_sink.Store.Memory.Capacity.{
  here, next, pushed, removed, push_all, Reach-IsBounded, push_all-newest,
}
use smtp_sink.Store.Memory.Lookup.{Lacks, remove_false, get_by_id-remove_ne}
use smtp_sink.Store.Memory.Queries.{query_iff}
use smtp_sink.Tests.Setup.{tables, email_of, two_emails}

abbrev from_ann : EmailQuery
from_ann = record {
  from = some (codes "ANN");
  to = none;
  subject = none;
  since = none;
  until = none;
}

Reach-IsBounded_example :
    let t = (remove (push (new 1) (email_of "1")) (codes "2")).0 in
    (length t.emails ≤ 1) × (t.max ≡ 1)
Reach-IsBounded_example = Reach-IsBounded 1 (
    next (next here (pushed (new 1) (email_of "1")))
      (removed (push (new 1) (email_of "1")) (codes "2")))

push_all-newest_example :
    (push_all two_emails (email_of "3" ∷ [])).emails ≡ email_of "2" ∷ email_of "3" ∷ []
push_all-newest_example = push_all-newest two_emails (email_of "3" ∷ []) (omega arith)

query_iff_example :
    Has (email_of "1") (query tables two_emails from_ann)
    ↔ (Has (email_of "1") two_emails.emails × Satisfies tables (email_of "1") from_ann)
query_iff_example = query_iff tables two_emails from_ann (email_of "1")

matches_query_iff_example :
    (matches_query tables (email_of "1") from_ann ≡ true) ↔ Satisfies tables (email_of "1") from_ann
matches_query_iff_example = matches_query_iff tables (email_of "1") from_ann

remove_false_example :
    Lacks (codes "3") two_emails.emails × ((remove two_emails (codes "3")).0 ≡ two_emails)
unfolding remove smtp_sink.Text.text_eq
remove_false_example = remove_false two_emails (codes "3") refl

other_id : codes "2" ≢ codes "1"
other_id e = absurd (omega (arith, ap (λ t. first t) e))
  where
    first : Text → ℕ
    first [] = 0
    first (c ∷ t) = c

get_by_id-remove_ne_example :
    get_by_id (remove two_emails (codes "1")).0 (codes "2") ≡ get_by_id two_emails (codes "2")
get_by_id-remove_ne_example = get_by_id-remove_ne two_emails (codes "1") (codes "2") other_id
