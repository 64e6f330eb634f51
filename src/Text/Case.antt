-- ===== src/Text/Case.antt =====
-- `str::to_uppercase` and `str::to_lowercase`. On ASCII they are written out; what they make of
-- other characters is read from the tables of Unicode, which are an argument. A lower-case text
-- with other characters depends on its neighbours (the final sigma), so that table is by the text.
use smtp_sink.Prelude.{
  ℕ, ◌+◌, ◌-◌, ◌<◌, ◌≡◌, refl, Bool, true, ◌&&◌, [], ◌∷◌, ◌++◌, arith, ltb, leb, if◌then◌else◌,
}
use smtp_sink.Text.{Text}

pub record CaseTables : Type 0 where
  pub upper : ℕ → Text
  pub lower : Text → Text

unfoldable pub ascii_upper : ℕ → ℕ
ascii_upper c = if leb b'a' c && leb c b'z' then c - 32 else c

unfoldable pub ascii_lower : ℕ → ℕ
ascii_lower c = if leb b'A' c && leb c b'Z' then c + 32 else c

unfoldable pub map_chars : (ℕ → ℕ) → Text → Text
map_chars f [] = []
map_chars f (c ∷ cs) = f c ∷ map_chars f cs

unfoldable pub is_ascii : Text → Bool
is_ascii [] = true
is_ascii (c ∷ cs) = ltb c 0x80 && is_ascii cs

unfoldable pub to_uppercase : CaseTables → Text → Text
unfolding ascii_upper
to_uppercase u [] = []
to_uppercase u (c ∷ cs) =
    (if ltb c 0x80 then ascii_upper c ∷ [] else u.upper c) ++ to_uppercase u cs

unfoldable pub to_lowercase : CaseTables → Text → Text
unfolding is_ascii map_chars ascii_lower
to_lowercase u s = if is_ascii s then map_chars ascii_lower s else u.lower s

pub ascii_upper_idem : (c : ℕ) → ascii_upper (ascii_upper c) ≡ ascii_upper c
unfolding ascii_upper
ascii_upper_idem c = ground arith

ascii_lower-ascii : (c : ℕ) → c < 0x80 → ascii_lower c < 0x80
unfolding ascii_lower
ascii_lower-ascii c h = ground arith

ascii_lower_idem : (c : ℕ) → ascii_lower (ascii_lower c) ≡ ascii_lower c
unfolding ascii_lower
ascii_lower_idem c = ground arith

-- Case mapping of ASCII text does not depend on the tables.
pub to_uppercase-ascii :
    (u : CaseTables) (p t : Text)
    → is_ascii p ≡ true
    → to_uppercase u (p ++ t) ≡ map_chars ascii_upper p ++ to_uppercase u t
unfolding is_ascii to_uppercase map_chars
to_uppercase-ascii u [] t h = refl
to_uppercase-ascii u (c ∷ p) t h = ground (arith, to_uppercase-ascii u p t)

is_ascii-lower : (s : Text) → is_ascii s ≡ true → is_ascii (map_chars ascii_lower s) ≡ true
unfolding is_ascii map_chars
is_ascii-lower [] h = refl
is_ascii-lower (c ∷ s) h = ground (arith, ascii_lower-ascii c, is_ascii-lower s)

map_lower_idem :
    (s : Text) → map_chars ascii_lower (map_chars ascii_lower s) ≡ map_chars ascii_lower s
unfolding map_chars
map_lower_idem [] = refl
map_lower_idem (c ∷ s) = cc (ascii_lower_idem c, map_lower_idem s)

-- Lower case of lower-case ASCII text is the same text.
pub to_lowercase_idem :
    (u : CaseTables) (s : Text)
    → is_ascii s ≡ true
    → to_lowercase u (to_lowercase u s) ≡ to_lowercase u s
unfolding to_lowercase
to_lowercase_idem u s h = rw (h, is_ascii-lower s h) (map_lower_idem s)
