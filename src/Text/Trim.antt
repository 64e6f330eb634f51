-- ===== src/Text/Trim.antt =====
-- Laws of `trim`: what it leaves, and on which texts it does nothing.
use smtp_sink.Prelude.{ℕ, ◌≡◌, refl, true, false, [], ◌∷◌, ◌++◌, arith, All, Bool-cases, inl, inr}
use smtp_sink.Text.{Text, is_whitespace, trim_start, trim_end, trim}

-- Every character of the text is white space.
abbrev pub IsBlank : Text → Type 0
IsBlank = All (λ c. is_whitespace c ≡ true)

trim_start-blank : (w s : Text) → IsBlank w → trim_start (w ++ s) ≡ trim_start s
unfolding trim_start
trim_start-blank [] s h = refl
trim_start-blank (c ∷ w) s h = rw h.0 (trim_start-blank w s h.1)

trim_end-blank : (w : Text) → IsBlank w → trim_end w ≡ []
unfolding trim_end
trim_end-blank [] h = refl
trim_end-blank (c ∷ w) h = rw (h.0, trim_end-blank w h.1)

trim_end-append-blank : (s w : Text) → IsBlank w → trim_end (s ++ w) ≡ trim_end s
unfolding trim_end
trim_end-append-blank [] w h = trim_end-blank w h
trim_end-append-blank (c ∷ s) w h = rw (trim_end-append-blank s w h)

trim_start_blank : (w : Text) → IsBlank w → trim_start w ≡ []
unfolding trim_start
trim_start_blank [] h = refl
trim_start_blank (c ∷ w) h = rw h.0 (trim_start_blank w h.1)

-- White space on either side makes no difference.
pub trim-pad : (v s w : Text) → IsBlank v → IsBlank w → trim (v ++ (s ++ w)) ≡ trim s
unfolding trim
trim-pad v s w hv hw = rw (trim_start-blank v (s ++ w) hv) (pad_end s)
  where
    pad_end : (s : Text) → trim_end (trim_start (s ++ w)) ≡ trim_end (trim_start s)
    pad_end [] = rw (trim_start_blank w hw)
    pad_end (c ∷ s) = elim (Bool-cases (is_whitespace c)) [
      | inl e ↦ rw e (pad_end s)
      | inr e ↦ rw e (trim_end-append-blank (c ∷ s) w hw)
    ]

-- A text that begins with a visible character keeps it.
pub trim-cons : (c : ℕ) (s : Text) → is_whitespace c ≡ false → trim (c ∷ s) ≡ c ∷ trim_end s
unfolding trim trim_start trim_end
trim-cons c s h = rw h (rw h)

pub trim_end-cons : (c : ℕ) (s : Text) → is_whitespace c ≡ false → trim_end (c ∷ s) ≡ c ∷ trim_end s
unfolding trim_end
trim_end-cons c s h = rw h

-- A text with a visible character at either end is left alone.
pub trim_end-concat :
    (s : Text) (c : ℕ) → is_whitespace c ≡ false → trim_end (s ++ c ∷ []) ≡ s ++ c ∷ []
unfolding trim_end
trim_end-concat [] c h = rw h
trim_end-concat (d ∷ []) c h = rw h (ground arith)
trim_end-concat (d ∷ e ∷ s) c h = rw (trim_end-concat (e ∷ s) c h) (ground arith)
