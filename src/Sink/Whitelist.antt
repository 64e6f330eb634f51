-- ===== src/Sink/Whitelist.antt =====
-- Whom the whitelist of the options lets in.
use smtp_sink.Prelude.{
  ◌≡◌, ◌≢◌, ◌↔◌, ◌⊎◌, refl, ap, inl, inr, Bool, true, false, ◌||◌, List, [], ◌∷◌, any, All, Any,
  arith, Bool-cases, some, ◌++◌, ◌∙◌,
}
use smtp_sink.Text.{Text, is_empty, trim, text_eq, text_eq_iff}
use smtp_sink.Text.Case.{CaseTables, to_lowercase}
use smtp_sink.Smtp.Message.{External}
use smtp_sink.Smtp.Command.{sender_allowed}
use smtp_sink.Sink.{
  split_commas, trim_all, whitelist_argument, SinkOptions, lower_all, whitelist_of, smtp_config,
}

-- An entry as it is compared: in lower case, without the blanks around it.
abbrev pub entry : CaseTables → Text → Text
entry u w = trim (to_lowercase u w)

-- There is no entry, but for blank ones.
abbrev pub NoEntry : CaseTables → List Text → Type 0
NoEntry u = All (λ w. entry u w ≡ [])

-- Some entry is the address, whatever the case of the letters.
abbrev pub Lists : CaseTables → List Text → Text → Type 0
Lists u ws addr = Any (λ w. (entry u w ≢ []) × (entry u w ≡ to_lowercase u addr)) ws

is_empty-nil : (t : Text) → is_empty t ≡ true → t ≡ []
is_empty-nil [] h = refl
is_empty-nil (c ∷ t) h = cc

is_empty-cons : (t : Text) → is_empty t ≡ false → t ≢ []
is_empty-cons [] h e = cc
is_empty-cons (c ∷ t) h e = cc

or_true : (a b : Bool) → b ≡ true → (a || b) ≡ true
or_true true b h = refl
or_true false b h = h

module _ (u : CaseTables) where
  whitelist_of-NoEntry : (ws : List Text) → (is_empty (whitelist_of u ws) ≡ true) ↔ NoEntry u ws
  unfolding whitelist_of lower_all
  whitelist_of-NoEntry [] = (λ h. tt, λ h. refl)
  whitelist_of-NoEntry (w ∷ ws) = elim (Bool-cases (is_empty (entry u w))) [
    | inl e ↦ rw e (
      λ h. (is_empty-nil _ e, (whitelist_of-NoEntry ws).0 h),
      λ h. (whitelist_of-NoEntry ws).1 h.1,
    )
    | inr e ↦ rw e (λ h. absurd (cc h), λ h. absurd (is_empty-cons _ e h.0))
  ]

  whitelist_of-Lists :
      (addr : Text) (ws : List Text)
      → (any (λ w. text_eq w (to_lowercase u addr)) (whitelist_of u ws) ≡ true) ↔ Lists u ws addr
  unfolding whitelist_of lower_all
  whitelist_of-Lists addr [] = (λ h. cc, λ h. absurd h)
  whitelist_of-Lists addr (w ∷ ws) = elim (Bool-cases (is_empty (entry u w))) [
    | inl e ↦ rw e (
      λ h. inr ((whitelist_of-Lists addr ws).0 h),
      λ h. elim h [
        | inl k ↦ absurd (k.0 (is_empty-nil _ e))
        | inr k ↦ (whitelist_of-Lists addr ws).1 k
      ],
    )
    | inr e ↦ elim (Bool-cases (text_eq (entry u w) (to_lowercase u addr))) [
      | inl s ↦
          rw (e, s)
            (
              λ h. inl (is_empty-cons _ e, (text_eq_iff (entry u w) (to_lowercase u addr)).0 s),
              λ h. refl,
            )
      | inr d ↦
          rw (e, d)
            (
              λ h. inr ((whitelist_of-Lists addr ws).0 h),
              λ h. elim h [
                | inl k ↦ absurd (cc ((text_eq_iff (entry u w) (to_lowercase u addr)).1 k.1, d))
                | inr k ↦ (whitelist_of-Lists addr ws).1 k
              ],
            )
    ]
  ]

-- The server that the options start lets a sender in exactly when its whitelist has no entry but blank
-- ones, or has one that is the address; case and blanks around an entry do not matter.
pub sender_allowed_iff :
    (ext : External) (opts : SinkOptions) (addr : Text)
    → (sender_allowed ext (smtp_config ext.tables opts) addr ≡ true)
      ↔ (NoEntry ext.tables opts.whitelist ⊎ Lists ext.tables opts.whitelist addr)
unfolding sender_allowed smtp_config
sender_allowed_iff ext opts addr = (
  λ h. elim (Bool-cases (is_empty (whitelist_of ext.tables opts.whitelist))) [
    | inl e ↦ inl ((whitelist_of-NoEntry ext.tables opts.whitelist).0 e)
    | inr e ↦ inr ((whitelist_of-Lists ext.tables addr opts.whitelist).0 (rw e at h))
  ],
  λ h. elim h [
    | inl k ↦ rw ((whitelist_of-NoEntry ext.tables opts.whitelist).1 k) refl
    | inr k ↦ or_true _ _ ((whitelist_of-Lists ext.tables addr opts.whitelist).1 k)
  ],
)

split_commas_free : (w : Text) → All (λ c. c ≢ b',') w → split_commas w ≡ w ∷ []
unfolding split_commas
split_commas_free [] h = refl
split_commas_free (c ∷ w) h = ground (arith, split_commas_free w h.1, h.0)

split_commas-cons :
    (w rest : Text)
    → All (λ c. c ≢ b',') w
    → split_commas (w ++ b',' ∷ rest) ≡ w ∷ split_commas rest
unfolding split_commas
split_commas-cons [] rest h = refl
split_commas-cons (c ∷ w) rest h = ground (arith, split_commas-cons w rest h.1, h.0)

-- Entries written behind each other with commas between.
abbrev pub with_commas : Text → List Text → Text
with_commas w [] = w
with_commas w (v ∷ vs) = w ++ b',' ∷ with_commas v vs

split_commas-with_commas :
    (w : Text) (ws : List Text)
    → All (All (λ c. c ≢ b',')) (w ∷ ws)
    → split_commas (with_commas w ws) ≡ w ∷ ws
split_commas-with_commas w [] h = split_commas_free w h.0
split_commas-with_commas w (v ∷ vs) h =
    split_commas-cons w (with_commas v vs) h.0 ∙ ap (◌∷◌ w) (split_commas-with_commas v vs h.1)

-- The argument of the command line is read back as the entries that were written with commas between,
-- each without the blanks around it. No entry may hold a comma.
pub whitelist_argument-with_commas :
    (w : Text) (ws : List Text)
    → All (All (λ c. c ≢ b',')) (w ∷ ws)
    → whitelist_argument (some (with_commas w ws)) ≡ trim_all (w ∷ ws)
unfolding whitelist_argument
whitelist_argument-with_commas w ws h = ap trim_all (split_commas-with_commas w ws h)
