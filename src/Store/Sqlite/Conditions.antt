-- ===== src/Store/Sqlite/Conditions.antt =====
-- The conditions of `SqliteStore::query` of src/sqlite_store.rs beside the tests of `matches_query` of
-- src/store.rs, on one email.
use smtp_sink.Prelude.{
  ◌≡◌, ◌≢◌, ◌∙◌, refl, sym, Bool, true, false, ◌&&◌, not, List, [], ◌∷◌, ◌++◌, Option, none, some,
  unwrap_or, All, arith, if◌then◌else◌,
}
use smtp_sink.Text.{Text, contains}
use smtp_sink.Text.Case.{CaseTables, to_lowercase, is_ascii, map_chars, ascii_lower}
use smtp_sink.Email.{MailRecord}
use smtp_sink.Store.Defs.{EmailQuery}
use smtp_sink.Store.Query.{matches_query, from_ok, to_ok, subject_ok, since_ok, until_ok}
use smtp_sink.Store.Query.Meaning.{When}
use smtp_sink.Store.Rows.{
  EmailRow, Condition, from_like, subject_like, date_ge, date_le, anywhere, asked, conditions_of,
}
use smtp_sink.Store.Sqlite.Laws.{IsShort, meets, like_column}

-- ASCII, and free of the wildcards of LIKE and of NUL, where SQLite ends a text.
abbrev pub IsPlain : Text → Type 0
IsPlain v = (is_ascii v ≡ true) × All (λ c. (c ≢ b'%') × (c ≢ b'_') × (c ≢ 0)) v

-- ASCII without NUL.
abbrev pub IsAscii : Text → Type 0
IsAscii t = (is_ascii t ≡ true) × All (λ c. c ≢ 0) t

-- What SQLite says of LIKE: `%` stands for any text, a character that is no wildcard for itself, and
-- letters of ASCII match in both cases; of texts without NUL.
pub record IsLike (like : Text → Text → Bool) : Type 0 where
  pub anywhere_plain :
      (v t : Text)
      → IsPlain v
      → IsAscii t
      → like (anywhere v) t ≡ contains (map_chars ascii_lower t) (map_chars ascii_lower v)

-- Where the two filters agree: no demand on the recipients, and plain texts, the one for the subject not
-- empty, that are short enough.
pub record IsSimple (q : EmailQuery) : Type 0 where
  pub from : When IsPlain q.from
  pub to : q.to ≡ none
  pub subject : When (λ v. IsPlain v × (v ≢ [])) q.subject
  pub short : All IsShort (conditions_of q)

-- ASCII without NUL in the fields that are compared.
abbrev pub HasAscii : MailRecord → Type 0
HasAscii e = IsAscii e.from × When IsAscii e.subject

and_chain :
    (a b c d e : Bool)
    → b ≡ true
    → (if not a
        then false
        else if not b
        then false
        else if not c
        then false
        else if not d
        then false
        else if not e
        then false
        else true)
      ≡ (a && (c && (d && e)))
and_chain a b c d e h = ground arith

contains_nil : (v : Text) → v ≢ [] → contains [] (map_chars ascii_lower v) ≡ false
unfolding contains map_chars
contains_nil [] h = absurd (h refl)
contains_nil (c ∷ v) h = refl

module _ {like : Text → Text → Bool} (law : IsLike like) (u : CaseTables) where
  meets-append :
      (cs ds : List Condition) (r : EmailRow)
      → meets like (cs ++ ds) r ≡ (meets like cs r && meets like ds r)
  meets-append [] ds r = refl
  meets-append (c ∷ cs) ds r = ground (arith, meets-append cs ds r)

  like-contains :
      (v t : Text)
      → IsPlain v
      → IsAscii t
      → (like (anywhere v) t && true) ≡ contains (to_lowercase u t) (to_lowercase u v)
  unfolding to_lowercase
  like-contains v t h k = rw (law.anywhere_plain v t h k, h.0, k.0) (ground arith)

  from_meets :
      (r : EmailRow) (e : MailRecord) (o : Option Text)
      → e.from ≡ r.from_addr
      → When IsPlain o
      → HasAscii e
      → meets like (asked (λ v. from_like (anywhere v)) o) r ≡ from_ok u e o
  unfolding from_ok
  from_meets r e none h p a = refl
  from_meets r e (some v) h p a = rw (sym h) (like-contains v e.from p a.0)

  subject_column :
      (t : Option Text) (v : Text)
      → IsPlain v × (v ≢ [])
      → When IsAscii t
      → (like_column like (anywhere v) t && true)
        ≡ contains (to_lowercase u (unwrap_or t [])) (to_lowercase u v)
  unfolding to_lowercase is_ascii map_chars
  subject_column none v p a = rw p.0.0 (sym (contains_nil v p.1))
  subject_column (some t) v p a = like-contains v t p.0 a

  subject_meets :
      (r : EmailRow) (e : MailRecord) (o : Option Text)
      → e.subject ≡ r.subject
      → When (λ v. IsPlain v × (v ≢ [])) o
      → HasAscii e
      → meets like (asked (λ v. subject_like (anywhere v)) o) r ≡ subject_ok u e o
  unfolding subject_ok
  subject_meets r e none h p a = refl
  subject_meets r e (some v) h p a = rw (sym h) (subject_column e.subject v p a.1)

  since_meets :
      (r : EmailRow) (e : MailRecord) (o : Option Text)
      → e.date ≡ r.date
      → meets like (asked date_ge o) r ≡ since_ok u e o
  unfolding since_ok
  since_meets r e none h = refl
  since_meets r e (some v) h = rw h (ground arith)

  until_meets :
      (r : EmailRow) (e : MailRecord) (o : Option Text)
      → e.date ≡ r.date
      → meets like (asked date_le o) r ≡ until_ok u e o
  unfolding until_ok
  until_meets r e none h = refl
  until_meets r e (some v) h = rw h (ground arith)

  -- The row of an email, as far as queries look at it.
  pub record Shows (r : EmailRow) (e : MailRecord) : Type 0 where
    pub from : e.from ≡ r.from_addr
    pub subject : e.subject ≡ r.subject
    pub date : e.date ≡ r.date

  meets-conditions_of :
      (q : EmailQuery) (r : EmailRow)
      → q.to ≡ none
      → meets like (conditions_of q) r ≡ (
          meets like (asked (λ v. from_like (anywhere v)) q.from) r
          && (meets like (asked (λ v. subject_like (anywhere v)) q.subject) r
              && (meets like (asked date_ge q.since) r && meets like (asked date_le q.until) r)))
  unfolding conditions_of
  meets-conditions_of q r h = rw (h, meets-append, meets-append, meets-append, meets-append)

  to_anyone : (e : MailRecord) → to_ok u e none ≡ true
  unfolding to_ok
  to_anyone e = refl

  pub meets-matches_query :
      (r : EmailRow) (e : MailRecord) (q : EmailQuery)
      → Shows r e
      → IsSimple q
      → HasAscii e
      → meets like (conditions_of q) r ≡ matches_query u e q
  unfolding conditions_of matches_query
  meets-matches_query r e q h p a =
      let anyone : to_ok u e q.to ≡ true = rw p.to (to_anyone e) in
      meets-conditions_of q r p.to
      ∙ rw
          (
            from_meets r e q.from h.from p.from a,
            subject_meets r e q.subject h.subject p.subject a,
            since_meets r e q.since h.date,
            until_meets r e q.until h.date,
          )
          (sym (
            and_chain (from_ok u e q.from) (to_ok u e q.to) (subject_ok u e q.subject)
              (since_ok u e q.since) (until_ok u e q.until) anyone))
