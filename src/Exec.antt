-- ===== src/Exec.antt =====
-- Methods that change a state and may end early: by an I/O error that `?` passes on, or by a panic,
-- which ends the task of the connection. What was done before the end stays done.
pub mod Keeps
use smtp_sink.Prelude.{◌≡◌, ap, Option, none, some}

pub data Failure : Type 0 where
  io_error panic : Failure

pub data Result {ℓ} (A : Type ℓ) : Type ℓ where
  ok : A → Result A
  err : Failure → Result A

abbrev pub Exec {ℓ} : Type ℓ → Type ℓ → Type ℓ
Exec S A = S → Result A × S

unfoldable pub pure {ℓ} : {S A : Type ℓ} → A → Exec S A
pure a s = (ok a, s)

unfoldable pub raise {ℓ} : {S A : Type ℓ} → Failure → Exec S A
raise e s = (err e, s)

unfoldable pub gets {ℓ} : {S A : Type ℓ} → (S → A) → Exec S A
gets f s = (ok (f s), s)

unfoldable pub modify : {S : Type 0} → (S → S) → Exec S (Unit {0})
modify f s = (ok tt, f s)

-- A value of the standard library that panics: `none`.
unfoldable pub or_panic {ℓ} : {S A : Type ℓ} → Option A → Exec S A
unfolding pure raise
or_panic none = raise panic
or_panic (some a) = pure a

abbrev pub and_then {ℓ} : {S A B : Type ℓ} → (A → Exec S B) → Result A × S → Result B × S
and_then f (ok a, s) = f a s
and_then f (err e, s) = (err e, s)

infixl 10 ◌>>=◌ ◌>>◌
-- To open it is to open all the ways to build an action.
unfoldable pub ◌>>=◌ {ℓ} : {S A B : Type ℓ} → Exec S A → (A → Exec S B) → Exec S B
unfolding pure raise gets modify or_panic
◌>>=◌ m f s = and_then f (m s)

abbrev pub ◌>>◌ : {S B : Type 0} → Exec S (Unit {0}) → Exec S B → Exec S B
m >> n = m >>= λ _. n

-- Behind an action that returns, the rest runs on what it left.
pub bind-ok {ℓ} :
    {S A B : Type ℓ} (m : Exec S A) (f : A → Exec S B) {s : S} {a : A} {t : S}
    → m s ≡ (ok a, t)
    → (m >>= f) s ≡ f a t
unfolding ◌>>=◌
bind-ok m f e = ap (and_then f) e

pub bind-err {ℓ} :
    {S A B : Type ℓ} (m : Exec S A) (f : A → Exec S B) {s : S} {e : Failure} {t : S}
    → m s ≡ (err e, t)
    → (m >>= f) s ≡ (err e, t)
unfolding ◌>>=◌
bind-err m f h = ap (and_then f) h
