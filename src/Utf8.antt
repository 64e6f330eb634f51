-- ===== src/Utf8.antt =====
-- UTF-8, as Rust's standard library reads and writes it: `str::as_bytes`, the check of
-- `read_line` (`String::from_utf8`), and `String::from_utf8_lossy` (src/smtp.rs).
pub mod RoundTrip
use smtp_sink.Prelude.{
  ℕ, zero, suc, ◌+◌, ◌-◌, ◌*◌, ◌/◌, ◌%◌, Bool, true, false, ◌&&◌, List, [], ◌∷◌, ◌++◌, Option, none,
  some, leb, ltb, if◌then◌else◌,
}
use smtp_sink.Text.{Text, Bytes}

-- `char::encode_utf8`
unfoldable pub encode_char : ℕ → Bytes
encode_char c =
    if ltb c 0x80
    then c ∷ []
    else if ltb c 0x800
    then (0xc0 + c / 64) ∷ (0x80 + c % 64) ∷ []
    else if ltb c 0x10000
    then (0xe0 + c / 4096) ∷ (0x80 + c / 64 % 64) ∷ (0x80 + c % 64) ∷ []
    else (0xf0 + c / 262144) ∷ (0x80 + c / 4096 % 64) ∷ (0x80 + c / 64 % 64) ∷ (0x80 + c % 64) ∷ []

-- `str::as_bytes`
unfoldable pub as_bytes : Text → Bytes
unfolding encode_char
as_bytes [] = []
as_bytes (c ∷ cs) = encode_char c ++ as_bytes cs

-- Between characters, or in one: its bits so far, the continuation bytes still to come (one more
-- than the first field), and the range that the next of them must lie in.
pub data Decoder : Type 0 where
  start : Decoder
  partial : ℕ → ℕ → ℕ → ℕ → Decoder

abbrev within : ℕ → ℕ → ℕ → Bool
within lo hi b = leb lo b && leb b hi

-- The state behind a byte that begins a character, and what it yields: `some (some c)` is a
-- character, `some none` a mistake.
unfoldable pub begin : ℕ → Decoder × Option (Option ℕ)
begin b =
    if ltb b 0x80
    then (start, some (some b))
    else if within 0xc2 0xdf b
    then (partial (b - 0xc0) 0 0x80 0xbf, none)
    else if within 0xe0 0xef b
    then (
      partial (b - 0xe0) 1 (if within 0xe0 0xe0 b then 0xa0 else 0x80)
          (if within 0xed 0xed b then 0x9f else 0xbf),
      none,
    )
    else if within 0xf0 0xf4 b
    then (
      partial (b - 0xf0) 2 (if within 0xf0 0xf0 b then 0x90 else 0x80)
          (if within 0xf4 0xf4 b then 0x8f else 0xbf),
      none,
    )
    else (start, some none)

abbrev pub yield : Option (Option ℕ) → List (Option ℕ) → List (Option ℕ)
yield none rest = rest
yield (some r) rest = r ∷ rest

-- The characters of the bytes; `none` stands for a longest piece that begins a character wrongly.
-- A byte that breaks off a character is read again as the beginning of the next.
unfoldable pub scan : Decoder → Bytes → List (Option ℕ)
scan start [] = []
scan (partial _ _ _ _) [] = none ∷ []
scan start (b ∷ bs) = let (next, out) = begin b in yield out (scan next bs)
scan (partial bits zero lo hi) (b ∷ bs) =
    let done = some (bits * 64 + (b - 0x80)) ∷ scan start bs in
    let again = let (next, out) = begin b in none ∷ yield out (scan next bs) in
    if within lo hi b then done else again
scan (partial bits (suc n) lo hi) (b ∷ bs) =
    let more = scan (partial (bits * 64 + (b - 0x80)) n 0x80 0xbf) bs in
    let again = let (next, out) = begin b in none ∷ yield out (scan next bs) in
    if within lo hi b then more else again

abbrev pub all_some : List (Option ℕ) → Option Text
all_some [] = some []
all_some (none ∷ rs) = none
all_some (some c ∷ rs) = elim (all_some rs) [ none ↦ none | some cs ↦ some (c ∷ cs) ]

-- `String::from_utf8`
unfoldable pub from_utf8 : Bytes → Option Text
unfolding scan begin
from_utf8 bs = all_some (scan start bs)

abbrev pub replaced : List (Option ℕ) → Text
replaced [] = []
replaced (none ∷ rs) = 0xfffd ∷ replaced rs
replaced (some c ∷ rs) = c ∷ replaced rs

-- `String::from_utf8_lossy`
unfoldable pub from_utf8_lossy : Bytes → Text
unfolding scan begin
from_utf8_lossy bs = replaced (scan start bs)
