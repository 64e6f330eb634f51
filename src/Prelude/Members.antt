-- ===== src/Prelude/Members.antt =====
-- What a list holds, whatever its order.
use Prim.Native.Nat.{◌≤◌}
use mathlib.Core.Path.{◌≡◌, refl, sym, ap, ◌∙◌, subst}
use mathlib.Core.Logic.{◌⊎◌, inl, inr}
use mathlib.Core.Bool.{Bool, true, false}
use mathlib.Core.Option.{some}
use mathlib.Core.List.{List, [], ◌∷◌, ◌++◌}
use native.Mathlib.Omega.{arith}
use smtp_sink.Prelude.Tests.{if◌then◌else◌, Bool-cases, of_some}
use smtp_sink.Prelude.Lists.{find, length, filter, All, Any}

module _ {A : Type 0} where
  -- The list holds the value.
  abbrev pub Has : A → List A → Type 0
  Has a = Any (λ x. x ≡ a)

  pub All-Has : (P : A → Type 0) (a : A) (xs : List A) → All P xs → Has a xs → P a
  All-Has P a [] h k = absurd k
  All-Has P a (x ∷ xs) h (inl e) = subst P e h.0
  All-Has P a (x ∷ xs) h (inr k) = All-Has P a xs h.1 k

  pub All-of_Has : (P : A → Type 0) (xs : List A) → ((a : A) → Has a xs → P a) → All P xs
  All-of_Has P [] f = tt
  All-of_Has P (x ∷ xs) f = (f x (inl refl), All-of_Has P xs (λ a h. f a (inr h)))

  -- Some value of the list, with its property.
  pub Any-Has : (P : A → Type 0) (xs : List A) → Any P xs → (a : A) × Has a xs × P a
  Any-Has P [] h = absurd h
  Any-Has P (x ∷ xs) (inl p) = (x, inl refl, p)
  Any-Has P (x ∷ xs) (inr h) = let (a, k, p) = Any-Has P xs h in (a, inr k, p)

  pub Any-of_Has : (P : A → Type 0) (a : A) (xs : List A) → Has a xs → P a → Any P xs
  Any-of_Has P a [] h p = absurd h
  Any-of_Has P a (x ∷ xs) (inl e) p = inl (subst P (sym e) p)
  Any-of_Has P a (x ∷ xs) (inr h) p = inr (Any-of_Has P a xs h p)

  pub Has-append_left : (a : A) (xs ys : List A) → Has a xs → Has a (xs ++ ys)
  Has-append_left a [] ys h = absurd h
  Has-append_left a (x ∷ xs) ys (inl e) = inl e
  Has-append_left a (x ∷ xs) ys (inr h) = inr (Has-append_left a xs ys h)

  pub Has-append_right : (a : A) (xs ys : List A) → Has a ys → Has a (xs ++ ys)
  Has-append_right a [] ys h = h
  Has-append_right a (x ∷ xs) ys h = inr (Has-append_right a xs ys h)

  pub of_Has-append : (a : A) (xs ys : List A) → Has a (xs ++ ys) → Has a xs ⊎ Has a ys
  of_Has-append a [] ys h = inr h
  of_Has-append a (x ∷ xs) ys (inl e) = inl (inl e)
  of_Has-append a (x ∷ xs) ys (inr h) = elim (of_Has-append a xs ys h) [
    | inl k ↦ inl (inr k)
    | inr k ↦ inr k
  ]

  pub All-middle :
      (P : A → Type 0) (xs : List A) (y : A) (zs : List A)
      → All P (xs ++ y ∷ zs)
      → All P xs × P y × All P zs
  All-middle P [] y zs h = (tt, h.0, h.1)
  All-middle P (x ∷ xs) y zs h = let (a, b, c) = All-middle P xs y zs h.1 in ((h.0, a), b, c)

  pub All-append : (P : A → Type 0) (xs ys : List A) → All P xs → All P ys → All P (xs ++ ys)
  All-append P [] ys h k = k
  All-append P (x ∷ xs) ys h k = (h.0, All-append P xs ys h.1 k)

  module _ (p : A → Bool) where
    pub find-Has : (a : A) (xs : List A) → find p xs ≡ some a → Has a xs
    find-Has a [] h = cc h
    find-Has a (x ∷ xs) h = elim (Bool-cases (p x)) [
      | inl e ↦ inl (of_some (rw e at h))
      | inr e ↦ inr (find-Has a xs (rw e at h))
    ]

    pub length-filter : (xs : List A) → length (filter p xs) ≤ length xs
    length-filter [] = omega arith
    length-filter (x ∷ xs) = ground (arith, length-filter xs)

    from_filtered :
        {a : A} (b : Bool) (x : A) (rest xs : List A)
        → (Has a rest → Has a xs × (p a ≡ true))
        → p x ≡ b
        → Has a (if b then x ∷ rest else rest)
        → Has a (x ∷ xs) × (p a ≡ true)
    from_filtered true x rest xs ih t (inl k) = (inl k, sym (ap p k) ∙ t)
    from_filtered true x rest xs ih t (inr h) = (inr (ih h).0, (ih h).1)
    from_filtered false x rest xs ih t h = (inr (ih h).0, (ih h).1)

    to_filtered :
        {a : A} (b : Bool) (x : A) (rest xs : List A)
        → (Has a xs → Has a rest)
        → p x ≡ b
        → p a ≡ true
        → Has a (x ∷ xs)
        → Has a (if b then x ∷ rest else rest)
    to_filtered true x rest xs ih t pa (inl k) = inl k
    to_filtered true x rest xs ih t pa (inr h) = inr (ih h)
    to_filtered false x rest xs ih t pa (inl k) = absurd (cc (ap p k, t, pa))
    to_filtered false x rest xs ih t pa (inr h) = ih h

    pub of_filter : {a : A} (xs : List A) → Has a (filter p xs) → Has a xs × (p a ≡ true)
    of_filter [] h = absurd h
    of_filter (x ∷ xs) h = from_filtered (p x) x (filter p xs) xs (of_filter xs) refl h

    pub in_filter : {a : A} (xs : List A) → p a ≡ true → Has a xs → Has a (filter p xs)
    in_filter [] pa h = absurd h
    in_filter (x ∷ xs) pa h = to_filtered (p x) x (filter p xs) xs (in_filter xs pa) refl pa h

  -- The two lists hold the same values, each as often.
  pub data Rearranges : List A → List A → Type 0 where
    done : Rearranges [] []
    skip : (x : A) {xs ys : List A} → Rearranges xs ys → Rearranges (x ∷ xs) (x ∷ ys)
    swap : (x y : A) (xs : List A) → Rearranges (x ∷ y ∷ xs) (y ∷ x ∷ xs)
    chain : {xs ys zs : List A} → Rearranges xs ys → Rearranges ys zs → Rearranges xs zs

  pub Rearranges_refl : (xs : List A) → Rearranges xs xs
  Rearranges_refl [] = done
  Rearranges_refl (x ∷ xs) = skip x (Rearranges_refl xs)

  pub Rearranges-sym : {xs ys : List A} → Rearranges xs ys → Rearranges ys xs
  Rearranges-sym done = done
  Rearranges-sym (skip x r) = skip x (Rearranges-sym r)
  Rearranges-sym (swap x y xs) = swap y x xs
  Rearranges-sym (chain r t) = chain (Rearranges-sym t) (Rearranges-sym r)

  pub Rearranges-length : {xs ys : List A} → Rearranges xs ys → length xs ≡ length ys
  Rearranges-length done = refl
  Rearranges-length (skip x r) = omega (arith, Rearranges-length r)
  Rearranges-length (swap x y xs) = refl
  Rearranges-length (chain r t) = Rearranges-length r ∙ Rearranges-length t

  pub Rearranges-Has : (a : A) {xs ys : List A} → Rearranges xs ys → Has a xs → Has a ys
  Rearranges-Has a done h = absurd h
  Rearranges-Has a (skip x r) (inl e) = inl e
  Rearranges-Has a (skip x r) (inr h) = inr (Rearranges-Has a r h)
  Rearranges-Has a (swap x y xs) (inl e) = inr (inl e)
  Rearranges-Has a (swap x y xs) (inr (inl e)) = inl e
  Rearranges-Has a (swap x y xs) (inr (inr h)) = inr (inr h)
  Rearranges-Has a (chain r t) h = Rearranges-Has a t (Rearranges-Has a r h)

  pub Rearranges-All : (P : A → Type 0) {xs ys : List A} → Rearranges xs ys → All P xs → All P ys
  Rearranges-All P {xs} {ys} r h =
      All-of_Has P ys λ a k. All-Has P a xs h (Rearranges-Has a (Rearranges-sym r) k)

  pub Rearranges-nil : {ys : List A} → Rearranges [] ys → ys ≡ []
  Rearranges-nil {ys} r = nil_of ys (Rearranges-length r)
    where
      nil_of : (zs : List A) → length {A = A} [] ≡ length zs → zs ≡ []
      nil_of [] h = refl
      nil_of (z ∷ zs) h = absurd (omega (arith, h))

  -- Each two values of the list, at different places, are related.
  abbrev pub Pairwise : (A → A → Type 0) → List A → Type 0
  Pairwise R [] = Unit
  Pairwise R (x ∷ xs) = All (R x) xs × Pairwise R xs

  pub Rearranges-Pairwise :
      (R : A → A → Type 0)
      → ((x y : A) → R x y → R y x)
      → {xs ys : List A} → Rearranges xs ys
      → Pairwise R xs
      → Pairwise R ys
  Rearranges-Pairwise R flip done h = tt
  Rearranges-Pairwise R flip (skip x r) h =
      (Rearranges-All (R x) r h.0, Rearranges-Pairwise R flip r h.1)
  Rearranges-Pairwise R flip (swap x y xs) h = ((flip x y h.0.0, h.1.0), (h.0.1, h.1.1))
  Rearranges-Pairwise R flip (chain r t) h =
      Rearranges-Pairwise R flip t (Rearranges-Pairwise R flip r h)

  pub Rearranges_under :
      (zs : List A) {xs ys : List A} → Rearranges xs ys → Rearranges (zs ++ xs) (zs ++ ys)
  Rearranges_under [] r = r
  Rearranges_under (z ∷ zs) r = skip z (Rearranges_under zs r)

  pub Rearranges_middle : (x : A) (xs ys : List A) → Rearranges (x ∷ xs ++ ys) (xs ++ x ∷ ys)
  Rearranges_middle x [] ys = Rearranges_refl (x ∷ ys)
  Rearranges_middle x (y ∷ xs) ys = chain (swap x y (xs ++ ys)) (skip y (Rearranges_middle x xs ys))

  pub Rearranges-filter :
      (p : A → Bool) {xs ys : List A} → Rearranges xs ys → Rearranges (filter p xs) (filter p ys)
  Rearranges-filter p done = done
  Rearranges-filter p (skip x {xs} {ys} r) = elim (Bool-cases (p x)) [
    | inl e ↦ rw e (skip x (Rearranges-filter p r))
    | inr e ↦ rw e (Rearranges-filter p r)
  ]
  Rearranges-filter p (swap x y xs) = swapped (p x) (p y) (filter p xs)
    where
      swapped :
          (b c : Bool) (l : List A)
          → Rearranges
              (if b then x ∷ (if c then y ∷ l else l) else if c then y ∷ l else l)
              (if c then y ∷ (if b then x ∷ l else l) else if b then x ∷ l else l)
      swapped true true l = swap x y l
      swapped true false l = Rearranges_refl (x ∷ l)
      swapped false true l = Rearranges_refl (y ∷ l)
      swapped false false l = Rearranges_refl l
  Rearranges-filter p (chain r t) = chain (Rearranges-filter p r) (Rearranges-filter p t)
