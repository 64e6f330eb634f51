-- ===== src/Smtp/Data/Stuffing.antt =====
-- `read_data` against the transparency rule of RFC 5321, section 4.5.2: the sender puts a dot in
-- front of a line that begins with one, and ends the message by a line that is a dot alone.
use smtp_sink.Prelude.{
  ◌≡◌, refl, ◌∙◌, true, false, List, [], ◌∷◌, ◌++◌, append_assoc, append-nil, some, All, arith,
  if◌then◌else◌, ◌==◌, ◌⊎◌, inl, inr, Bool-cases,
}
use smtp_sink.Text.{Text, Bytes, codes, is_empty, is_whitespace, trim, text_eq, starts_with}
use smtp_sink.Text.Trim.{IsBlank, trim-cons, trim-pad, trim_end-cons}
use smtp_sink.Utf8.{as_bytes, from_utf8}
use smtp_sink.Utf8.RoundTrip.{IsScalar, from_utf8-as_bytes}
use smtp_sink.Exec.{ok}
use smtp_sink.Smtp.Data.{unstuff, read_lines}

-- The sender's side.
abbrev pub stuff : Text → Text
stuff [] = []
stuff (c ∷ cs) = if c == b'.' then b'.' ∷ c ∷ cs else c ∷ cs

abbrev pub final_dot : Text
final_dot = codes ".\r\n"

-- A line of text, its end included: characters, at least one, and not a dot between blanks unless
-- the dot comes first.
pub record IsLine (t : Text) : Type 0 where
  pub scalars : All IsScalar t
  pub ne_nil : is_empty t ≡ false
  pub no_dot : (text_eq (trim t) (codes ".") ≡ false) ⊎ (starts_with t (codes ".") ≡ true)

abbrev pub stuffed : List Text → List Bytes
stuffed [] = []
stuffed (t ∷ ts) = as_bytes (stuff t) ∷ stuffed ts

abbrev pub message : List Text → Bytes
message [] = []
message (t ∷ ts) = as_bytes t ++ message ts

unstuff-stuff : (t : Text) → unstuff (stuff t) ≡ t
unfolding unstuff starts_with
unstuff-stuff [] = refl
unstuff-stuff (c ∷ []) = ground arith
unstuff-stuff (c ∷ d ∷ cs) = ground arith

-- Two dots in front are not a dot alone.
trim-dots : (cs : Text) → text_eq (trim (b'.' ∷ b'.' ∷ cs)) (codes ".") ≡ false
unfolding text_eq is_whitespace
trim-dots cs = rw (trim-cons b'.' (b'.' ∷ cs) refl, trim_end-cons b'.' cs refl)

stuff-scalars : (t : Text) → All IsScalar t → All IsScalar (stuff t)
stuff-scalars [] h = tt
stuff-scalars (c ∷ cs) h = elim (Bool-cases (c == b'.')) [
  | inl e ↦ rw e (inl (omega arith), h)
  | inr e ↦ rw e h
]

stuff-ne-nil : (t : Text) → is_empty t ≡ false → is_empty (stuff t) ≡ false
stuff-ne-nil [] h = h
stuff-ne-nil (c ∷ cs) h = ground arith

stuff_no_dot :
    (t : Text)
    → (text_eq (trim t) (codes ".") ≡ false) ⊎ (starts_with t (codes ".") ≡ true)
    → is_empty t ≡ false
    → text_eq (trim (stuff t)) (codes ".") ≡ false
unfolding starts_with
stuff_no_dot [] h e = cc
stuff_no_dot (c ∷ cs) h ne = elim (Bool-cases (c == b'.')) [
  | inl e ↦ rw e (let d : c ≡ b'.' = ground arith in rw d (trim-dots cs))
  | inr e ↦ rw e (elim h [ inl k ↦ k | inr k ↦ cc (rw e at k) ])
]

read_lines-step :
    (content : Bytes) (l : Bytes) (line : Text) (ls : List Bytes)
    → from_utf8 l ≡ some line
    → is_empty line ≡ false
    → text_eq (trim line) (codes ".") ≡ false
    → read_lines content (l ∷ ls) ≡ read_lines (content ++ as_bytes (unstuff line)) ls
unfolding read_lines
read_lines-step content l line ls h k e = rw (h, read_lines) (rw k (rw e))

-- A line that is a dot between blanks ends the message, wherever the dot stands in it.
pub read_lines-end :
    (content : Bytes) (l : Bytes) (line : Text) (ls : List Bytes)
    → from_utf8 l ≡ some line
    → text_eq (trim line) (codes ".") ≡ true
    → read_lines content (l ∷ ls) ≡ (ok content, ls)
unfolding read_lines
read_lines-end content l line ls h e = rw (h, read_lines) (rw e (ground arith))

read_lines-stuff :
    (content : Bytes) (t : Text) (ls : List Bytes)
    → IsLine t
    → read_lines content (as_bytes (stuff t) ∷ ls) ≡ read_lines (content ++ as_bytes t) ls
read_lines-stuff content t ls h =
    read_lines-step content (as_bytes (stuff t)) (stuff t) ls
      (from_utf8-as_bytes (stuff t) (stuff-scalars t h.scalars)) (stuff-ne-nil t h.ne_nil)
      (stuff_no_dot t h.no_dot h.ne_nil)
    ∙ rw (unstuff-stuff t)

pub blank_dot :
    (v w : Text) → IsBlank v → IsBlank w → text_eq (trim (v ++ (codes "." ++ w))) (codes ".") ≡ true
unfolding text_eq trim is_whitespace
blank_dot v w hv hw = rw (trim-pad v (codes ".") w hv hw)

-- The final dot ends it.
pub read_lines_dot :
    (content : Bytes) (ls : List Bytes)
    → read_lines content (as_bytes final_dot ∷ ls) ≡ (ok content, ls)
read_lines_dot content ls =
    read_lines-end content (as_bytes final_dot) final_dot ls
      (from_utf8-as_bytes final_dot (omega arith)) (unfold trim is_whitespace text_eq in refl)

-- Dot-stuffed lines are taken in as they were.
pub read_lines-stuffed :
    (ts : List Text) (content : Bytes) (rest : List Bytes)
    → All IsLine ts
    → read_lines content (stuffed ts ++ rest) ≡ read_lines (content ++ message ts) rest
read_lines-stuffed [] content rest h = rw append-nil
read_lines-stuffed (t ∷ ts) content rest h =
    read_lines-stuff content t (stuffed ts ++ rest) h.0
    ∙ read_lines-stuffed ts (content ++ as_bytes t) rest h.1
    ∙ rw append_assoc
