-- ===== src/Utf8/RoundTrip.antt =====
-- What is written as UTF-8 is read back.
use smtp_sink.Prelude.{
  ℕ, ◌+◌, ◌<◌, ◌≤◌, ◌≡◌, refl, ◌∙◌, ap, ◌⊎◌, [], ◌∷◌, ◌++◌, none, some, arith, All, ◌==◌, ◌/◌, ◌%◌,
  ◌*◌, suc, if◌then◌else◌,
}
use smtp_sink.Text.{Text, Bytes}
use smtp_sink.Utf8.{
  encode_char, as_bytes, start, partial, scan, all_some, from_utf8, replaced, from_utf8_lossy,
  begin,
}

-- A Unicode scalar value: no surrogate, and in range.
abbrev pub IsScalar : ℕ → Type 0
IsScalar c = (c < 0xd800) ⊎ ((0xe000 ≤ c) × (c < 0x110000))

begin-one : (c : ℕ) → c < 0x80 → begin c ≡ (start, some (some c))
unfolding begin
begin-one c h = ground arith

begin-two : (x : ℕ) → 2 ≤ x → x < 32 → begin (0xc0 + x) ≡ (partial x 0 0x80 0xbf, none)
unfolding begin
begin-two x h k = ground arith

begin-three :
    (x : ℕ)
    → x < 16
    → begin (0xe0 + x)
      ≡ (partial x 1 (if x == 0 then 0xa0 else 0x80) (if x == 13 then 0x9f else 0xbf), none)
unfolding begin
begin-three x h = ground arith

begin-four :
    (x : ℕ)
    → x < 5
    → begin (0xf0 + x)
      ≡ (partial x 2 (if x == 0 then 0x90 else 0x80) (if x == 4 then 0x8f else 0xbf), none)
unfolding begin
begin-four x h = ground arith

-- A continuation byte in its range.
scan_last :
    (bits lo hi y : ℕ) (rest : Bytes)
    → lo ≤ 0x80 + y
    → 0x80 + y ≤ hi
    → scan (partial bits 0 lo hi) ((0x80 + y) ∷ rest) ≡ some (bits * 64 + y) ∷ scan start rest
unfolding scan
scan_last bits lo hi y rest h k = ground arith

scan_more :
    (bits n lo hi y : ℕ) (rest : Bytes)
    → lo ≤ 0x80 + y
    → 0x80 + y ≤ hi
    → scan (partial bits (suc n) lo hi) ((0x80 + y) ∷ rest)
      ≡ scan (partial (bits * 64 + y) n 0x80 0xbf) rest
unfolding scan
scan_more bits n lo hi y rest h k = ground arith

scan_one : (c : ℕ) (rest : Bytes) → c < 0x80 → scan start (c ∷ rest) ≡ some c ∷ scan start rest
unfolding scan
scan_one c rest h = rw (begin-one c h) refl

scan_two :
    (c : ℕ) (rest : Bytes)
    → 0x80 ≤ c
    → c < 0x800
    → scan start ((0xc0 + c / 64) ∷ (0x80 + c % 64) ∷ rest) ≡ some c ∷ scan start rest
unfolding scan
scan_two c rest h k =
    rw (begin-two (c / 64) (omega arith) (omega arith), scan)
      (scan_last (c / 64) 0x80 0xbf (c % 64) rest (omega arith) (omega arith)
        ∙ ap (λ n. some n ∷ scan start rest) (omega arith))

scan_three :
    (c : ℕ) (rest : Bytes)
    → 0x800 ≤ c
    → c < 0x10000
    → IsScalar c
    → scan start ((0xe0 + c / 4096) ∷ (0x80 + c / 64 % 64) ∷ (0x80 + c % 64) ∷ rest)
      ≡ some c ∷ scan start rest
unfolding scan
scan_three c rest h k s =
    rw (begin-three (c / 4096) (omega arith), scan)
      (scan_more (c / 4096) 0 _ _ (c / 64 % 64) ((0x80 + c % 64) ∷ rest) (ground arith)
          (ground arith)
        ∙ scan_last (c / 4096 * 64 + c / 64 % 64) 0x80 0xbf (c % 64) rest (omega arith)
            (omega arith)
        ∙ ap (λ n. some n ∷ scan start rest) (omega arith))

scan_four :
    (c : ℕ) (rest : Bytes)
    → 0x10000 ≤ c
    → c < 0x110000
    → scan start (
        (0xf0 + c / 262144)
        ∷ (0x80 + c / 4096 % 64)
        ∷ (0x80 + c / 64 % 64)
        ∷ (0x80 + c % 64)
        ∷ rest)
      ≡ some c ∷ scan start rest
unfolding scan
scan_four c rest h k =
    rw (begin-four (c / 262144) (omega arith), scan)
      (scan_more (c / 262144) 1 _ _ (c / 4096 % 64) ((0x80 + c / 64 % 64) ∷ (0x80 + c % 64) ∷ rest)
          (ground arith) (ground arith)
        ∙ scan_more (c / 262144 * 64 + c / 4096 % 64) 0 0x80 0xbf (c / 64 % 64)
            ((0x80 + c % 64) ∷ rest) (omega arith) (omega arith)
        ∙ scan_last ((c / 262144 * 64 + c / 4096 % 64) * 64 + c / 64 % 64) 0x80 0xbf (c % 64) rest
            (omega arith) (omega arith)
        ∙ ap (λ n. some n ∷ scan start rest) (omega arith))

scan-encode_char :
    (c : ℕ) (rest : Bytes)
    → IsScalar c
    → scan start (encode_char c ++ rest) ≡ some c ∷ scan start rest
unfolding encode_char
scan-encode_char c rest s =
    ground (arith, scan_one c rest, scan_two c rest, scan_three c rest, scan_four c rest)

all_some-scan : (t : Text) → All IsScalar t → all_some (scan start (as_bytes t)) ≡ some t
unfolding as_bytes
all_some-scan [] h = unfold scan in refl
all_some-scan (c ∷ t) h = ground (arith, scan-encode_char c (as_bytes t) h.0, all_some-scan t h.1)

replaced-scan : (t : Text) → All IsScalar t → replaced (scan start (as_bytes t)) ≡ t
unfolding as_bytes
replaced-scan [] h = unfold scan in refl
replaced-scan (c ∷ t) h = rw (scan-encode_char c (as_bytes t) h.0, replaced-scan t h.1)

-- Text written as UTF-8 is accepted and read back as it was.
pub from_utf8-as_bytes : (t : Text) → All IsScalar t → from_utf8 (as_bytes t) ≡ some t
unfolding from_utf8
from_utf8-as_bytes t h = all_some-scan t h

pub from_utf8_lossy-as_bytes : (t : Text) → All IsScalar t → from_utf8_lossy (as_bytes t) ≡ t
unfolding from_utf8_lossy
from_utf8_lossy-as_bytes t h = replaced-scan t h
