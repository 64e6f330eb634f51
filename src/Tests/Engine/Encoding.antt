-- ===== src/Tests/Engine/Encoding.antt =====
-- An encoding of lists of texts, in place of the JSON of serde: each character by its successor, and a
-- zero at the end of a text.
use smtp_sink.Prelude.{ℕ, zero, suc, ◌≡◌, refl, ap, ◌∙◌, List, [], ◌∷◌, some}
use smtp_sink.Text.{Text}
use smtp_sink.Store.Rows.{Json}
use smtp_sink.Store.Sqlite.Laws.{IsJson}

abbrev write_text : Text → Text → Text
write_text [] rest = 0 ∷ rest
write_text (c ∷ t) rest = suc c ∷ write_text t rest

abbrev write : List Text → Text
write [] = []
write (t ∷ ts) = write_text t (write ts)

abbrev put_char : ℕ → List Text → List Text
put_char c [] = (c ∷ []) ∷ []
put_char c (t ∷ ts) = (c ∷ t) ∷ ts

abbrev read : Text → List Text
read [] = []
read (zero ∷ s) = [] ∷ read s
read (suc c ∷ s) = put_char c (read s)

read-write_text : (t rest : Text) → read (write_text t rest) ≡ t ∷ read rest
read-write_text [] rest = refl
read-write_text (c ∷ t) rest = ap (put_char c) (read-write_text t rest)

read-write : (ts : List Text) → read (write ts) ≡ ts
read-write [] = refl
read-write (t ∷ ts) = read-write_text t (write ts) ∙ ap (◌∷◌ t) (read-write ts)

abbrev flatten : List (Text × Text) → List Text
flatten [] = []
flatten ((n, v) ∷ hs) = n ∷ v ∷ flatten hs

abbrev unflatten : List Text → List (Text × Text)
unflatten [] = []
unflatten (n ∷ []) = []
unflatten (n ∷ v ∷ ts) = (n, v) ∷ unflatten ts

unflatten-flatten : (hs : List (Text × Text)) → unflatten (flatten hs) ≡ hs
unflatten-flatten [] = refl
unflatten-flatten ((n, v) ∷ hs) = ap (◌∷◌ (n, v)) (unflatten-flatten hs)

abbrev pub json : Json
json = record {
  write_texts = λ ts. some (write ts);
  read_texts = λ t. some (read t);
  write_headers = λ hs. some (write (flatten hs));
  read_headers = λ t. some (unflatten (read t));
}

pub json-IsJson : IsJson json
json-IsJson = record {
  texts = λ ts. (write ts, refl, ap some (read-write ts));
  headers = λ hs. (
    write (flatten hs),
    refl,
    ap some (ap unflatten (read-write (flatten hs)) ∙ unflatten-flatten hs),
  );
}
