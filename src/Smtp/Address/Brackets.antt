-- ===== src/Smtp/Address/Brackets.antt =====
-- What `extract_address` makes of each shape of argument.
use smtp_sink.Prelude.{ℕ, ◌+◌, ◌≡◌, ◌≢◌, ◌∙◌, [], ◌∷◌, ◌++◌, append_assoc, none, some, All, arith}
use smtp_sink.Text.{Text, trim}
use smtp_sink.Text.Slice.{
  find_char, find_char-split, find_char-none, slice, slice-append, slice_reversed, len, len-append,
}
use smtp_sink.Smtp.Address.{extract_address, between_brackets}

-- The character does not occur in the text.
abbrev pub Free : ℕ → Text → Type 0
Free c = All (λ d. d ≢ c)

Free-append : (c : ℕ) (s t : Text) → Free c s → Free c t → Free c (s ++ t)
Free-append c [] t hs ht = ht
Free-append c (d ∷ s) t hs ht = (hs.0, Free-append c s t hs.1 ht)

between-found :
    (s : Text) (start end : ℕ)
    → find_char b'<' s ≡ some start
    → find_char b'>' s ≡ some end
    → between_brackets s ≡ slice s (start + 1) end
unfolding between_brackets
between-found s start end h k = ground arith

-- An opening bracket that comes first ends one byte further.
len-open : (pre : Text) → len (pre ++ b'<' ∷ []) ≡ len pre + 1
unfolding len
len-open pre = len-append pre (b'<' ∷ [])

find_close :
    (pre addr post : Text)
    → Free b'>' pre
    → Free b'>' addr
    → find_char b'>' (pre ++ b'<' ∷ (addr ++ b'>' ∷ post))
      ≡ some (len (pre ++ b'<' ∷ []) + len addr)
find_close pre addr post gt inside =
    let free = Free-append b'>' pre (b'<' ∷ addr) gt (omega arith, inside) in
    let place : (pre ++ b'<' ∷ []) ++ addr ≡ pre ++ b'<' ∷ addr = rw append_assoc in
    rw (← len-append (pre ++ b'<' ∷ []) addr, place)
      (rw append_assoc at (find_char-split b'>' (pre ++ b'<' ∷ addr) post free))

between-split :
    (pre addr post : Text)
    → Free b'<' pre
    → Free b'>' pre
    → Free b'>' addr
    → between_brackets (pre ++ b'<' ∷ (addr ++ b'>' ∷ post)) ≡ some addr
between-split pre addr post lt gt inside =
    between-found _ (len pre) _ (find_char-split b'<' pre (addr ++ b'>' ∷ post) lt)
      (find_close pre addr post gt inside)
    ∙ rw (← len-open pre) (rw append_assoc at (slice-append (pre ++ b'<' ∷ []) addr (b'>' ∷ post)))

between-reversed :
    (pre mid post : Text)
    → Free b'>' pre
    → Free b'<' pre
    → Free b'<' mid
    → between_brackets (pre ++ b'>' ∷ (mid ++ b'<' ∷ post)) ≡ none
between-reversed pre mid post gt lt inside =
    let free = Free-append b'<' pre (b'>' ∷ mid) lt (omega arith, inside) in
    between-found _ (len (pre ++ b'>' ∷ mid)) (len pre)
      (rw append_assoc at (find_char-split b'<' (pre ++ b'>' ∷ mid) post free))
      (find_char-split b'>' pre (mid ++ b'<' ∷ post) gt)
    ∙ slice_reversed _ _ _ (omega (arith, len-append pre (b'>' ∷ mid)))

-- The address between the first `<` and the first `>`, where that stands behind it, whatever else
-- is outside of them.
pub extract_address-brackets :
    (s pre addr post : Text)
    → trim s ≡ pre ++ b'<' ∷ (addr ++ b'>' ∷ post)
    → Free b'<' pre
    → Free b'>' pre
    → Free b'>' addr
    → extract_address s ≡ some addr
unfolding extract_address
extract_address-brackets s pre addr post e lt gt inside =
    rw e (between-split pre addr post lt gt inside)

-- With no `<`, the address is the whole argument without the blanks around it.
pub extract_address_bare : (s : Text) → Free b'<' (trim s) → extract_address s ≡ some (trim s)
unfolding extract_address
extract_address_bare s h = rw (find_char-none b'<' (trim s) h, between_brackets)

-- Where the first `>` stands in front of the first `<`, the slice panics.
pub extract_address_panics :
    (s pre mid post : Text)
    → trim s ≡ pre ++ b'>' ∷ (mid ++ b'<' ∷ post)
    → Free b'>' pre
    → Free b'<' pre
    → Free b'<' mid
    → extract_address s ≡ none
unfolding extract_address
extract_address_panics s pre mid post e gt lt inside =
    rw e (between-reversed pre mid post gt lt inside)
