-- ===== src/Text.antt =====
-- The text operations of Rust's standard library that the program calls (`str` and `String` in
-- src/smtp.rs, src/store.rs, src/lib.rs, src/main.rs). A text is its list of code points; the two
-- operations that count bytes, `find` and slicing, are in Slice. Case mapping is written out on
-- ASCII; the tables for other characters are those of Unicode, and are an argument.
pub mod Slice
pub mod Trim
pub mod Search
pub mod Case
use Prim.Native.Char.{code}
use smtp_sink.Prelude.{
  ℕ, zero, suc, ◌-◌, ◌+◌, String, ◌≡◌, ◌↔◌, refl, Bool, true, false, ◌&&◌, ◌||◌, List, [], ◌∷◌,
  ◌++◌, Option, arith, ltb, leb, ◌==◌, if◌then◌else◌, ap,
}

abbrev pub Text : Type 0
Text = List ℕ

abbrev pub Bytes : Type 0
Bytes = List ℕ

-- The code points of a literal.
abbrev pub codes : String → Text
codes String.[] = []
codes (String.◌∷◌ c s) = code c ∷ codes s

unfoldable pub text_eq : Text → Text → Bool
text_eq [] [] = true
text_eq (a ∷ as') (b ∷ bs) = a == b && text_eq as' bs
text_eq _ _ = false

pub text_eq_iff : (s t : Text) → (text_eq s t ≡ true) ↔ (s ≡ t)
unfolding text_eq
text_eq_iff (a ∷ s) (b ∷ t) = ground (arith, text_eq_iff s t)
text_eq_iff _ _ = ground arith

pub text_eq_refl : (s : Text) → text_eq s s ≡ true
text_eq_refl s = (text_eq_iff s s).1 refl

-- `==` on `Option<String>`, and on the borrowed `Option<&str>`.
unfoldable pub opt_text_eq : Option Text → Option Text → Bool
opt_text_eq Option.none Option.none = true
opt_text_eq (Option.some s) (Option.some t) = text_eq s t
opt_text_eq _ _ = false

pub opt_text_eq_iff : (s t : Option Text) → (opt_text_eq s t ≡ true) ↔ (s ≡ t)
unfolding opt_text_eq
opt_text_eq_iff (Option.some s) (Option.some t) = ground (arith, text_eq_iff s t)
opt_text_eq_iff _ _ = ground arith

-- `str::is_empty`, `Vec::is_empty`
abbrev pub is_empty {ℓ} : {A : Type ℓ} → List A → Bool
is_empty [] = true
is_empty (x ∷ xs) = false

-- `str::starts_with`
unfoldable pub starts_with : Text → Text → Bool
starts_with s [] = true
starts_with [] (p ∷ ps) = false
starts_with (c ∷ cs) (p ∷ ps) = c == p && starts_with cs ps

-- `str::contains` with a text: the needle stands at some place of the haystack.
unfoldable pub contains : Text → Text → Bool
unfolding starts_with
contains [] needle = starts_with [] needle
contains (c ∷ cs) needle = starts_with (c ∷ cs) needle || contains cs needle

-- `<` on `String`. The order of UTF-8 bytes is the order of code points.
unfoldable pub text_lt : Text → Text → Bool
text_lt s [] = false
text_lt [] (b ∷ bs) = true
text_lt (a ∷ as') (b ∷ bs) = if a == b then text_lt as' bs else ltb a b

-- `char::is_whitespace`: the White_Space property of Unicode.
unfoldable pub is_whitespace : ℕ → Bool
is_whitespace c =
    (leb 0x9 c && leb c 0xd)
    || c == 0x20
    || c == 0x85
    || c == 0xa0
    || c == 0x1680
    || (leb 0x2000 c && leb c 0x200a)
    || c == 0x2028
    || c == 0x2029
    || c == 0x202f
    || c == 0x205f
    || c == 0x3000

unfoldable pub trim_start : Text → Text
trim_start [] = []
trim_start (c ∷ cs) = let rest = trim_start cs in if is_whitespace c then rest else c ∷ cs

unfoldable pub trim_end : Text → Text
trim_end [] = []
trim_end (c ∷ cs) =
    let rest = trim_end cs in if is_whitespace c && is_empty rest then [] else c ∷ rest

-- `str::trim`
unfoldable pub trim : Text → Text
unfolding trim_start trim_end
trim s = trim_end (trim_start s)

-- A finished word goes in front of the words behind it; an empty one is none.
abbrev pub flush : Text → List Text → List Text
flush [] ws = ws
flush (c ∷ cs) ws = (c ∷ cs) ∷ ws

unfoldable pub words_from : Text → Text → List Text
words_from word [] = flush word []
words_from word (c ∷ cs) = elim (is_whitespace c) [
  | true ↦ flush word (words_from [] cs)
  | false ↦ words_from (word ++ c ∷ []) cs
]

-- `str::split_whitespace().collect()`
unfoldable pub split_whitespace : Text → List Text
unfolding words_from
split_whitespace = words_from []
