-- ===== src/Store/Query/Meaning.antt =====
-- What a query asks for, said without the tests of the code.
use smtp_sink.Prelude.{
  ◌≡◌, ◌↔◌, refl, Bool, true, false, not, List, [], ◌∷◌, ◌++◌, Option, none, some, any, Any,
  unwrap_or, arith, Bool-cases, inl, inr, if◌then◌else◌,
}
use smtp_sink.Text.{Text, contains, text_lt}
use smtp_sink.Text.Search.{contains-split, contains-append}
use smtp_sink.Text.Case.{CaseTables, to_lowercase}
use smtp_sink.Email.{MailRecord}
use smtp_sink.Store.Defs.{EmailQuery}
use smtp_sink.Store.Query.{matches_query, from_ok, to_ok, subject_ok, since_ok, until_ok}

-- The second text stands somewhere in the first.
abbrev pub Holds : Text → Text → Type 0
Holds hay needle = (l : Text) × (r : Text) × (hay ≡ l ++ (needle ++ r))

-- No demand, or one that is met.
abbrev pub When {ℓ} : {A : Type ℓ} → (A → Type 0) → Option A → Type 0
When P none = Unit
When P (some a) = P a

-- Partial matches that ignore case for the sender, some recipient and the subject (an email without
-- one counts as having an empty one), and inclusive bounds on the text of
-- the date.
pub record Satisfies (u : CaseTables) (e : MailRecord) (q : EmailQuery) : Type 0 where
  pub from : When (λ f. Holds (to_lowercase u e.from) (to_lowercase u f)) q.from
  pub to : When (λ t. Any (λ r. Holds (to_lowercase u r) (to_lowercase u t)) e.to) q.to
  pub subject :
      When (λ s. Holds (to_lowercase u (unwrap_or e.subject [])) (to_lowercase u s)) q.subject
  pub since : When (λ d. text_lt e.date d ≡ false) q.since
  pub until : When (λ d. text_lt d e.date ≡ false) q.until

Holds-contains : (hay needle : Text) → contains hay needle ≡ true → Holds hay needle
Holds-contains = contains-split

contains-Holds : (hay needle : Text) → Holds hay needle → contains hay needle ≡ true
contains-Holds hay needle (l, r, e) = rw e (contains-append l needle r)

five_tests :
    (a b c d e : Bool)
    → (if not a
        then false
        else if not b
        then false
        else if not c
        then false
        else if not d
        then false
        else if not e
        then false
        else true)
      ≡ true
    → (a ≡ true) × (b ≡ true) × (c ≡ true) × (d ≡ true) × (e ≡ true)
five_tests a b c d e h = ground arith

module _ (u : CaseTables) where
  Any-any :
      (ts : List Text) (n : Text)
      → any (λ t. contains (to_lowercase u t) n) ts ≡ true
      → Any (λ t. Holds (to_lowercase u t) n) ts
  Any-any [] n h = cc
  Any-any (t ∷ ts) n h = elim (Bool-cases (contains (to_lowercase u t) n)) [
    | inl e ↦ inl (Holds-contains _ n e)
    | inr e ↦ inr (Any-any ts n (ground arith))
  ]

  any-Any :
      (ts : List Text) (n : Text)
      → Any (λ t. Holds (to_lowercase u t) n) ts
      → any (λ t. contains (to_lowercase u t) n) ts ≡ true
  any-Any [] n h = absurd h
  any-Any (t ∷ ts) n (inl h) = ground (arith, contains-Holds (to_lowercase u t) n h)
  any-Any (t ∷ ts) n (inr h) = ground (arith, any-Any ts n h)

  from_iff :
      (e : MailRecord) (o : Option Text)
      → (from_ok u e o ≡ true) ↔ When (λ f. Holds (to_lowercase u e.from) (to_lowercase u f)) o
  unfolding from_ok
  from_iff e none = (λ _. tt, λ _. refl)
  from_iff e (some f) = (Holds-contains _ _, contains-Holds _ _)

  to_iff :
      (e : MailRecord) (o : Option Text)
      → (to_ok u e o ≡ true)
        ↔ When (λ t. Any (λ r. Holds (to_lowercase u r) (to_lowercase u t)) e.to) o
  unfolding to_ok
  to_iff e none = (λ _. tt, λ _. refl)
  to_iff e (some t) = (Any-any e.to _, any-Any e.to _)

  subject_iff :
      (e : MailRecord) (o : Option Text)
      → (subject_ok u e o ≡ true)
        ↔ When (λ s. Holds (to_lowercase u (unwrap_or e.subject [])) (to_lowercase u s)) o
  unfolding subject_ok
  subject_iff e none = (λ _. tt, λ _. refl)
  subject_iff e (some f) = (Holds-contains _ _, contains-Holds _ _)

  since_iff :
      (e : MailRecord) (o : Option Text)
      → (since_ok u e o ≡ true) ↔ When (λ d. text_lt e.date d ≡ false) o
  unfolding since_ok
  since_iff e none = (λ _. tt, λ _. refl)
  since_iff e (some d) = ground arith

  until_iff :
      (e : MailRecord) (o : Option Text)
      → (until_ok u e o ≡ true) ↔ When (λ d. text_lt d e.date ≡ false) o
  unfolding until_ok
  until_iff e none = (λ _. tt, λ _. refl)
  until_iff e (some d) = ground arith

  -- The filter lets an email through exactly when it satisfies the query.
  pub matches_query_iff :
      (e : MailRecord) (q : EmailQuery) → (matches_query u e q ≡ true) ↔ Satisfies u e q
  unfolding matches_query
  matches_query_iff e q = (
    λ h.
        let t = five_tests _ _ _ _ _ h in
        record {
          from = (from_iff e q.from).0 t.0;
          to = (to_iff e q.to).0 t.1;
          subject = (subject_iff e q.subject).0 t.2;
          since = (since_iff e q.since).0 t.3;
          until = (until_iff e q.until).0 t.4;
        },
    λ s. rw (
      (from_iff e q.from).1 s.from,
      (to_iff e q.to).1 s.to,
      (subject_iff e q.subject).1 s.subject,
      (since_iff e q.since).1 s.since,
      (until_iff e q.until).1 s.until,
    ),
  )
