-- ===== src/Exec/Keeps.antt =====
-- Properties of the state that an action keeps, whether it returns or fails: one rule for each way
-- to build an action. The relation compares the state before with the state after.
use smtp_sink.Prelude.{◌≡◌, refl, Bool, true, false, if◌then◌else◌, Option, none, some}
use smtp_sink.Exec.{
  Failure, Result, ok, err, Exec, pure, raise, gets, modify, or_panic, and_then, ◌>>=◌,
}

-- A transitive and reflexive relation between states.
pub record Preorder {S : Type 0} (R : S → S → Type 0) : Type 0 where
  pub reflexive : (s : S) → R s s
  pub transitive : (s t u : S) → R s t → R t u → R s u

-- `m` ends, in whatever way, in a state that is related to the first one.
pub record Relates {S A : Type 0} (R : S → S → Type 0) (m : Exec S A) : Type 0 where
  pub at : (s : S) → R s (m s).1

module _ {S : Type 0} {R : S → S → Type 0} (p : Preorder R) where
  pub Relates-pure : {A : Type 0} (a : A) → Relates R (pure a)
  unfolding pure
  Relates-pure a = record { at = p.reflexive }

  pub Relates-raise : {A : Type 0} (e : Failure) → Relates R (raise {A = A} e)
  unfolding raise
  Relates-raise e = record { at = p.reflexive }

  pub Relates-gets : {A : Type 0} (f : S → A) → Relates R (gets f)
  unfolding gets
  Relates-gets f = record { at = p.reflexive }

  pub Relates-or_panic : {A : Type 0} (o : Option A) → Relates R (or_panic o)
  unfolding or_panic
  Relates-or_panic none = record { at = p.reflexive }
  Relates-or_panic (some a) = record { at = p.reflexive }

  pub Relates-bind :
      {A B : Type 0} (m : Exec S A) (f : A → Exec S B)
      → Relates R m
      → ((a : A) → Relates R (f a))
      → Relates R (m >>= f)
  unfolding ◌>>=◌
  Relates-bind {A} {B} m f rm rf = record { at = λ s. go s (m s) (rm.at s) }
    where
      go : (s : S) (r : Result A × S) → R s r.1 → R s (and_then f r).1
      go s (ok a, t) h = p.transitive s t _ h ((rf a).at t)
      go s (err e, t) h = h

  pub Relates-modify : (f : S → S) → ((s : S) → R s (f s)) → Relates R (modify f)
  unfolding modify
  Relates-modify f h = record { at = h }

pub Relates-if :
    {S A : Type 0} {R : S → S → Type 0} (b : Bool) (m n : Exec S A)
    → (b ≡ true → Relates R m)
    → (b ≡ false → Relates R n)
    → Relates R (if b then m else n)
Relates-if true m n rm rn = rm refl
Relates-if false m n rm rn = rn refl

-- What holds behind the first part of a sequence, and then behind the rest, holds behind both.
pub after_bind :
    {S A B : Type 0} (m : Exec S A) (f : A → Exec S B) (s : S) (P Q : S → Type 0)
    → P (m s).1
    → ((a : A) (t : S) → P t → Q (f a t).1)
    → ((t : S) → P t → Q t)
    → Q ((m >>= f) s).1
unfolding ◌>>=◌
after_bind {S} {A} {B} m f s P Q p q stop = go (m s) p
  where
    go : (r : Result A × S) → P r.1 → Q (and_then f r).1
    go (ok a, t) h = q a t h
    go (err e, t) h = stop t h
