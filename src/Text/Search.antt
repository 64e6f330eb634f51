-- ===== src/Text/Search.antt =====
-- What `starts_with`, `contains` and `split_whitespace` find.
use smtp_sink.Prelude.{
  ℕ, ◌≡◌, refl, ◌∙◌, append-nil, Bool-cases, inl, inr, true, false, [], ◌∷◌, ◌++◌, arith, ap, All,
  append_assoc,
}
use smtp_sink.Text.{Text, starts_with, contains, words_from, split_whitespace, is_whitespace}

-- `s` is `p` and more.
pub starts_with-split : (s p : Text) → starts_with s p ≡ true → (t : Text) × (s ≡ p ++ t)
unfolding starts_with
starts_with-split s [] h = (s, refl)
starts_with-split [] (p ∷ ps) h = cc
starts_with-split (c ∷ cs) (p ∷ ps) h =
    let (t, e) = starts_with-split cs ps (ground arith) in (t, ground (arith, e))

pub starts_with-append : (p t : Text) → starts_with (p ++ t) p ≡ true
unfolding starts_with
starts_with-append [] t = ground arith
starts_with-append (c ∷ p) t = ground (arith, starts_with-append p t)

-- A haystack that contains the needle is some text, the needle and some text.
pub contains-split :
    (hay needle : Text)
    → contains hay needle ≡ true
    → (l : Text) × (r : Text) × (hay ≡ l ++ (needle ++ r))
unfolding contains
contains-split [] needle h = let (t, e) = starts_with-split [] needle h in ([], t, e)
contains-split (c ∷ cs) needle h = elim (Bool-cases (starts_with (c ∷ cs) needle)) [
  | inl e ↦ let (t, e') = starts_with-split (c ∷ cs) needle e in ([], t, e')
  | inr e ↦ let (l, r, e') = contains-split cs needle (ground arith) in (c ∷ l, r, ap (◌∷◌ c) e')
]

pub contains-append : (l needle r : Text) → contains (l ++ (needle ++ r)) needle ≡ true
unfolding contains
contains-append [] [] [] = refl
contains-append [] [] (c ∷ r) = ground (arith, starts_with-append [] (c ∷ r))
contains-append [] (c ∷ n) r = ground (arith, starts_with-append (c ∷ n) r)
contains-append (c ∷ l) needle r = ground (arith, contains-append l needle r)

abbrev pub IsWord : Text → Type 0
IsWord = All (λ c. is_whitespace c ≡ false)

words_from-word :
    (acc w rest : Text) → IsWord w → words_from acc (w ++ rest) ≡ words_from (acc ++ w) rest
unfolding words_from
words_from-word acc [] rest h = rw append-nil
words_from-word acc (c ∷ w) rest h =
    rw (h.0, words_from) (words_from-word (acc ++ c ∷ []) w rest h.1 ∙ rw append_assoc)

-- A word in front, then one blank, is the first word.
pub split_whitespace-cons :
    (c : ℕ) (w : Text) (b : ℕ) (rest : Text)
    → IsWord (c ∷ w)
    → is_whitespace b ≡ true
    → split_whitespace (c ∷ (w ++ b ∷ rest)) ≡ (c ∷ w) ∷ split_whitespace rest
unfolding split_whitespace
split_whitespace-cons c w b rest h hb =
    words_from-word [] (c ∷ w) (b ∷ rest) h ∙ rw (hb, words_from)

pub split_whitespace-word :
    (c : ℕ) (w : Text) → IsWord (c ∷ w) → split_whitespace (c ∷ w) ≡ (c ∷ w) ∷ []
unfolding split_whitespace
split_whitespace-word c w h = rw append-nil at (words_from-word [] (c ∷ w) [] h)
