-- ===== src/Smtp/Conn/Lines.antt =====
-- The lines of a byte stream.
use smtp_sink.Prelude.{
  ℕ, suc, ◌≡◌, ◌≢◌, ◌≤◌, refl, List, [], ◌∷◌, ◌++◌, All, arith, ◌==◌, append_assoc, Bool-cases, inl,
  inr, ap, length,
}
use smtp_sink.Text.{Text, Bytes}
use smtp_sink.Utf8.{as_bytes, encode_char}
use smtp_sink.Smtp.Conn.{split_lines, join_line}

-- No line feed.
abbrev pub NoFeed : Bytes → Type 0
NoFeed = All (λ b. b ≢ b'\n')

pub NoFeed-append : (s t : Bytes) → NoFeed s → NoFeed t → NoFeed (s ++ t)
NoFeed-append [] t hs ht = ht
NoFeed-append (d ∷ s) t hs ht = (hs.0, NoFeed-append s t hs.1 ht)

-- A line is split off at its line feed.
pub split_lines-line :
    (l rest : Bytes)
    → NoFeed l
    → split_lines (l ++ b'\n' ∷ rest) ≡ (l ++ b'\n' ∷ []) ∷ split_lines rest
unfolding split_lines
split_lines-line [] rest h = refl
split_lines-line (b ∷ l) rest h = ground (arith, h.0, split_lines-line l rest h.1)

encode_char-NoFeed : (c : ℕ) → c ≢ b'\n' → NoFeed (encode_char c)
unfolding encode_char
encode_char-NoFeed c h = ground arith

-- The line feed is one byte, which no other character has in its encoding.
pub as_bytes-NoFeed : (t : Text) → All (λ c. c ≢ b'\n') t → NoFeed (as_bytes t)
unfolding as_bytes
as_bytes-NoFeed [] h = tt
as_bytes-NoFeed (c ∷ t) h =
    NoFeed-append (encode_char c) (as_bytes t) (encode_char-NoFeed c h.0) (as_bytes-NoFeed t h.1)

pub as_bytes-append : (s t : Text) → as_bytes (s ++ t) ≡ as_bytes s ++ as_bytes t
unfolding as_bytes
as_bytes-append [] t = refl
as_bytes-append (c ∷ s) t = rw (as_bytes-append s t, append_assoc)

abbrev pub concat : List Bytes → Bytes
concat [] = []
concat (l ∷ ls) = l ++ concat ls

concat-join_line : (b : ℕ) (ls : List Bytes) → concat (join_line b ls) ≡ b ∷ concat ls
concat-join_line b [] = refl
concat-join_line b (l ∷ ls) = refl

-- The lines of a stream are its bytes, and none of them is empty: an empty read is the end.
pub concat-split_lines : (bs : Bytes) → concat (split_lines bs) ≡ bs
unfolding split_lines
concat-split_lines [] = refl
concat-split_lines (b ∷ bs) = elim (Bool-cases (b == b'\n')) [
  | inl e ↦ rw e (ap (◌∷◌ b) (concat-split_lines bs))
  | inr e ↦ rw e (rw concat-join_line (ap (◌∷◌ b) (concat-split_lines bs)))
]

length-join_line : (b : ℕ) (ls : List Bytes) → length (join_line b ls) ≤ suc (length ls)
length-join_line b [] = omega arith
length-join_line b (l ∷ ls) = omega arith

-- There are no more lines than bytes.
pub length-split_lines : (bs : Bytes) → length (split_lines bs) ≤ length bs
unfolding split_lines
length-split_lines [] = omega arith
length-split_lines (b ∷ bs) =
    ground (arith, length-split_lines bs, length-join_line b (split_lines bs))
