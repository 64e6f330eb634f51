-- ===== src/Tests/Engine/Like.antt =====
-- The operator LIKE of SQLite, on the texts that the tests use.
use smtp_sink.Prelude.{
  ◌≡◌, ◌≢◌, refl, Bool, true, false, ◌&&◌, ◌||◌, [], ◌∷◌, ◌++◌, All, arith, ◌==◌, if◌then◌else◌,
}
use smtp_sink.Text.{Text, is_empty, contains, starts_with, codes}
use smtp_sink.Text.Case.{map_chars, ascii_lower}
use smtp_sink.Store.Sqlite.Conditions.{IsLike}

-- What is behind some text.
abbrev after_any : (Text → Bool) → Text → Bool
after_any m [] = m []
after_any m (c ∷ t) = m (c ∷ t) || after_any m t

-- Pattern first; `%` stands for any text and `_` for one character.
abbrev pub like : Text → Text → Bool
like [] t = is_empty t
like (c ∷ p) t =
    if c == b'%'
    then after_any (like p) t
    else elim t [ [] ↦ false | d ∷ t' ↦ (c == b'_' || ascii_lower c == ascii_lower d) && like p t' ]

after_any-true : (m : Text → Bool) (t : Text) → ((s : Text) → m s ≡ true) → after_any m t ≡ true
after_any-true m [] h = h []
after_any-true m (c ∷ t) h = rw (h (c ∷ t)) refl

anything : (t : Text) → like (codes "%") t ≡ true
anything t = after_any_end t
  where
    after_any_end : (t : Text) → after_any is_empty t ≡ true
    after_any_end [] = refl
    after_any_end (c ∷ t) = after_any_end t

like-starts_with :
    (v t : Text)
    → All (λ c. (c ≢ b'%') × (c ≢ b'_') × (c ≢ 0)) v
    → like (v ++ codes "%") t ≡ starts_with (map_chars ascii_lower t) (map_chars ascii_lower v)
unfolding starts_with map_chars
like-starts_with [] t h = anything t
like-starts_with (c ∷ v) [] h = ground (arith, h.0.0)
like-starts_with (c ∷ v) (d ∷ t) h = ground (arith, h.0.0, h.0.1, like-starts_with v t h.1)

like-contains :
    (v t : Text)
    → All (λ c. (c ≢ b'%') × (c ≢ b'_') × (c ≢ 0)) v
    → after_any (like (v ++ codes "%")) t
      ≡ contains (map_chars ascii_lower t) (map_chars ascii_lower v)
unfolding contains map_chars
like-contains v [] h = like-starts_with v [] h
like-contains v (c ∷ t) h = rw (like-starts_with v (c ∷ t) h, like-contains v t h) refl

pub like-IsLike : IsLike like
like-IsLike = record { anywhere_plain = λ v t h a. like-contains v t h.1 }
