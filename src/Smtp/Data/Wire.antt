-- ===== src/Smtp/Data/Wire.antt =====
-- `read_data` on the bytes of a connection.
use smtp_sink.Prelude.{
  ◌≡◌, ◌≢◌, refl, sym, ◌∙◌, ap, ◌⊎◌, inl, inr, List, [], ◌∷◌, ◌++◌, append_assoc, All, arith, ◌==◌,
  true, false, Bool-cases,
}
use smtp_sink.Text.{Text, Bytes, codes, is_empty, is_whitespace, trim, text_eq, starts_with}
use smtp_sink.Text.Trim.{IsBlank, trim-pad}
use smtp_sink.Utf8.{as_bytes}
use smtp_sink.Utf8.RoundTrip.{IsScalar, from_utf8-as_bytes}
use smtp_sink.Exec.{ok, Result}
use smtp_sink.Smtp.Conn.{Conn, split_lines}
use smtp_sink.Smtp.Conn.Lines.{split_lines-line, as_bytes-NoFeed, as_bytes-append, NoFeed-append}
use smtp_sink.Smtp.Data.{read_data, read_lines}
use smtp_sink.Smtp.Data.Stuffing.{
  stuff, final_dot, IsLine, stuffed, message, read_lines-stuffed, read_lines_dot, read_lines-end,
  blank_dot,
}

abbrev pub crlf : Text
crlf = codes "\r\n"

-- A line without its end: characters, no line feed, and not a dot between blanks unless the dot
-- comes first.
pub record IsBody (t : Text) : Type 0 where
  pub scalars : All IsScalar t
  pub no_feed : All (λ c. c ≢ b'\n') t
  pub no_dot : (text_eq (trim t) (codes ".") ≡ false) ⊎ (starts_with t (codes ".") ≡ true)

abbrev pub lines_of : List Text → List Text
lines_of [] = []
lines_of (t ∷ ts) = (t ++ crlf) ∷ lines_of ts

-- What the sender puts on the wire, the final dot included.
abbrev pub wire : List Text → Bytes
wire [] = as_bytes final_dot
wire (t ∷ ts) = as_bytes (stuff (t ++ crlf)) ++ wire ts

stuff-append : (t : Text) → stuff (t ++ crlf) ≡ stuff t ++ crlf
stuff-append [] = refl
stuff-append (c ∷ t) = ground arith

stuff-no_feed : (t : Text) → All (λ c. c ≢ b'\n') t → All (λ c. c ≢ b'\n') (stuff t)
stuff-no_feed [] h = tt
stuff-no_feed (c ∷ t) h = elim (Bool-cases (c == b'.')) [
  | inl e ↦ rw e (omega arith, h)
  | inr e ↦ rw e h
]

scalars-append : (s t : Text) → All IsScalar s → All IsScalar t → All IsScalar (s ++ t)
scalars-append [] t hs ht = ht
scalars-append (c ∷ s) t hs ht = (hs.0, scalars-append s t hs.1 ht)

crlf-IsBlank : IsBlank crlf
unfolding is_whitespace
crlf-IsBlank = (refl, (refl, tt))

starts_with_dot :
    (t : Text) → starts_with t (codes ".") ≡ true → starts_with (t ++ crlf) (codes ".") ≡ true
unfolding starts_with
starts_with_dot [] h = cc
starts_with_dot (c ∷ t) h = ground arith

ne_nil-crlf : (t : Text) → is_empty (t ++ crlf) ≡ false
ne_nil-crlf [] = refl
ne_nil-crlf (c ∷ t) = refl

IsBody-IsLine : (t : Text) → IsBody t → IsLine (t ++ crlf)
IsBody-IsLine t b = record {
  scalars = scalars-append t crlf b.scalars (omega arith);
  ne_nil = ne_nil-crlf t;
  no_dot = elim b.no_dot [
    | inl h ↦ inl (rw (trim-pad [] t crlf tt crlf-IsBlank) h)
    | inr h ↦ inr (starts_with_dot t h)
  ];
}

as_bytes-crlf : (t : Text) → as_bytes (t ++ crlf) ≡ (as_bytes t ++ b'\r' ∷ []) ++ b'\n' ∷ []
unfolding as_bytes
as_bytes-crlf t = as_bytes-append t crlf ∙ sym (append_assoc (as_bytes t) (b'\r' ∷ []) (b'\n' ∷ []))

-- A line and its end are split off.
split_lines-crlf :
    (t : Text) (rest : Bytes)
    → All (λ c. c ≢ b'\n') t
    → split_lines (as_bytes (t ++ crlf) ++ rest) ≡ as_bytes (t ++ crlf) ∷ split_lines rest
split_lines-crlf t rest h =
    let free = NoFeed-append (as_bytes t) (b'\r' ∷ []) (as_bytes-NoFeed t h) (omega arith) in
    rw (as_bytes-crlf t) (
      ap split_lines (append_assoc (as_bytes t ++ b'\r' ∷ []) (b'\n' ∷ []) rest)
      ∙ split_lines-line (as_bytes t ++ b'\r' ∷ []) rest free)

split_lines-wire :
    (ts : List Text) (rest : Bytes)
    → All IsBody ts
    → split_lines (wire ts ++ rest)
      ≡ stuffed (lines_of ts) ++ (as_bytes final_dot ∷ split_lines rest)
split_lines-wire [] rest h = split_lines-crlf (codes ".") rest (omega arith)
split_lines-wire (t ∷ ts) rest h =
    ap split_lines (append_assoc (as_bytes (stuff (t ++ crlf))) (wire ts) rest)
    ∙ rw (stuff-append t) (
        split_lines-crlf (stuff t) (wire ts ++ rest) (stuff-no_feed t h.0.no_feed)
        ∙ ap (◌∷◌ (as_bytes (stuff t ++ crlf))) (split_lines-wire ts rest h.1))

All-lines : (ts : List Text) → All IsBody ts → All IsLine (lines_of ts)
All-lines [] h = tt
All-lines (t ∷ ts) h = (IsBody-IsLine t h.0, All-lines ts h.1)

module _ {S : Type 0} where
  read_data_of :
      (c : Conn S) {r : Result Bytes} {rest : List Bytes}
      → read_lines [] c.input ≡ (r, rest)
      → read_data c ≡ (r, record c { input = rest })
  unfolding read_data
  read_data_of c e = ap (λ (p : Result Bytes × List Bytes). (p.0, record c { input = p.1 })) e

  -- A message of text lines that the peer dot-stuffs and ends by a dot alone is read back byte for
  -- byte, and what follows on the wire is left for the next command. No line may be a dot between
  -- blanks, but for one that begins with its dot.
  pub read_data-wire :
      (ts : List Text) (rest : Bytes) (c : Conn S)
      → All IsBody ts
      → c.input ≡ split_lines (wire ts ++ rest)
      → read_data c ≡ (ok (message (lines_of ts)), record c { input = split_lines rest })
  read_data-wire ts rest c h e = read_data_of c (
      ap (read_lines []) (e ∙ split_lines-wire ts rest h)
      ∙ read_lines-stuffed (lines_of ts) [] _ (All-lines ts h)
      ∙ read_lines_dot (message (lines_of ts)) (split_lines rest))

  -- A line that is a single dot with blanks on either side, or on both, ends the loop: it returns
  -- the lines in front, and the lines behind are left to be read as commands.
  pub read_data_blank_dot :
      (ts : List Text) (v w : Text) (ls : List Bytes) (c : Conn S)
      → All IsLine ts
      → IsBlank v
      → IsBlank w
      → All IsScalar (v ++ (codes "." ++ w))
      → c.input ≡ stuffed ts ++ (as_bytes (v ++ (codes "." ++ w)) ∷ ls)
      → read_data c ≡ (ok (message ts), record c { input = ls })
  read_data_blank_dot ts v w ls c h hv hw scalars e = read_data_of c (
      ap (read_lines []) e
      ∙ read_lines-stuffed ts [] _ h
      ∙ read_lines-end (message ts) _ (v ++ (codes "." ++ w)) ls (from_utf8-as_bytes _ scalars)
          (blank_dot v w hv hw))
