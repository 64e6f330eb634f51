-- ===== src/Text/Slice.antt =====
-- `str::find` of a character and slicing, which count the bytes of UTF-8. A slice that is out of
-- bounds, reversed, or off a character boundary panics: `none`.
use smtp_sink.Prelude.{
  ℕ, ◌-◌, ◌+◌, ◌≤◌, ◌<◌, ◌≡◌, ◌≢◌, refl, [], ◌∷◌, ◌++◌, Option, none, some, arith, ltb, leb, ◌==◌,
  if◌then◌else◌, All,
}
use smtp_sink.Text.{Text}

-- `char::len_utf8`
unfoldable pub len_utf8 : ℕ → ℕ
len_utf8 c = if ltb c 0x80 then 1 else if ltb c 0x800 then 2 else if ltb c 0x10000 then 3 else 4

-- `str::len`, in bytes.
unfoldable pub len : Text → ℕ
unfolding len_utf8
len [] = 0
len (c ∷ cs) = len_utf8 c + len cs

-- `str::find(char)`: the byte offset of the first occurrence.
unfoldable pub find_char : ℕ → Text → Option ℕ
unfolding len_utf8
find_char c [] = none
find_char c (d ∷ cs) =
    let later = find_char c cs in
    if d == c then some 0 else elim later [ none ↦ none | some i ↦ some (len_utf8 d + i) ]

-- `&s[n..]`
unfoldable pub slice_from : Text → ℕ → Option Text
unfolding len_utf8
slice_from [] n = if n == 0 then some [] else none
slice_from (c ∷ cs) n =
    let rest = slice_from cs (n - len_utf8 c) in
    if n == 0 then some (c ∷ cs) else if leb (len_utf8 c) n then rest else none

-- `&s[..n]`
unfoldable pub slice_to : Text → ℕ → Option Text
unfolding len_utf8
slice_to [] n = if n == 0 then some [] else none
slice_to (c ∷ cs) n =
    let rest = slice_to cs (n - len_utf8 c) in
    if n == 0
    then some []
    else if leb (len_utf8 c) n
    then elim rest [ none ↦ none | some t ↦ some (c ∷ t) ]
    else none

-- `&s[m..n]`
unfoldable pub slice : Text → ℕ → ℕ → Option Text
unfolding slice_from slice_to
slice s m n =
    if leb m n then elim (slice_from s m) [ none ↦ none | some t ↦ slice_to t (n - m) ] else none

len_utf8-pos : (c : ℕ) → 1 ≤ len_utf8 c
unfolding len_utf8
len_utf8-pos c = ground arith

pub len-append : (s t : Text) → len (s ++ t) ≡ len s + len t
unfolding len
len-append [] t = omega arith
len-append (c ∷ s) t = omega (arith, len-append s t)

-- The search stops at the first occurrence.
pub find_char-split :
    (c : ℕ) (s t : Text) → All (λ d. d ≢ c) s → find_char c (s ++ c ∷ t) ≡ some (len s)
unfolding find_char len
find_char-split c [] t h = ground arith
find_char-split c (d ∷ s) t h = ground (arith, h.0, find_char-split c s t h.1)

pub find_char-none : (c : ℕ) (s : Text) → All (λ d. d ≢ c) s → find_char c s ≡ none
unfolding find_char
find_char-none c [] h = refl
find_char-none c (d ∷ s) h = ground (arith, h.0, find_char-none c s h.1)

pub slice_from-append : (s t : Text) → slice_from (s ++ t) (len s) ≡ some t
unfolding slice_from len
slice_from-append [] [] = ground arith
slice_from-append [] (c ∷ t) = ground arith
slice_from-append (c ∷ s) t =
    let e : len_utf8 c + len s - len_utf8 c ≡ len s = omega arith in
    rw e (rw (slice_from-append s t) (ground (arith, len_utf8-pos c)))

pub slice_to-append : (s t : Text) → slice_to (s ++ t) (len s) ≡ some s
unfolding slice_to len
slice_to-append [] [] = ground arith
slice_to-append [] (c ∷ t) = ground arith
slice_to-append (c ∷ s) t =
    let e : len_utf8 c + len s - len_utf8 c ≡ len s = omega arith in
    rw e (rw (slice_to-append s t) (ground (arith, len_utf8-pos c)))

-- A slice between two splits of the text.
pub slice-append : (r s t : Text) → slice (r ++ (s ++ t)) (len r) (len r + len s) ≡ some s
unfolding slice
slice-append r s t = ground (arith, slice_from-append r (s ++ t), slice_to-append s t)

-- A slice that ends in front of its beginning panics.
pub slice_reversed : (s : Text) (m n : ℕ) → n < m → slice s m n ≡ none
unfolding slice
slice_reversed s m n h = ground arith
