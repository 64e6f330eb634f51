-- ===== src/Store/Memory/Capacity.antt =====
-- The bound on the store in memory, and which emails it keeps.
use smtp_sink.Prelude.{
  ℕ, zero, suc, ◌-◌, ◌≤◌, ◌≡◌, refl, sym, ◌∙◌, ap, List, [], ◌∷◌, ◌++◌, append_assoc, append-nil,
  length, drop, arith, ltb, length-append, drop-nil, length-drop, Bool-cases, Option-cases, inl,
  inr,
}
use smtp_sink.Text.{Text}
use smtp_sink.Email.{MailRecord}
use smtp_sink.Store.Memory.{MemoryStore, new, push, clear, remove, drop_oldest, position, remove_at}

pub drop_oldest-drop :
    (max : ℕ) (es : List MailRecord) → drop_oldest max es ≡ drop (length es - max) es
unfolding drop_oldest
drop_oldest-drop max [] = sym (drop-nil (0 - max))
drop_oldest-drop max (e ∷ es) = elim (Bool-cases (ltb max (suc (length es)))) [
  | inl over ↦
      let e' : suc (length es) - max ≡ suc (length es - max) = ground arith in
      rw (over, drop_oldest-drop max es, e')
  | inr fits ↦ let e' : suc (length es) - max ≡ 0 = ground arith in rw (fits, e')
]

pub length-drop_oldest : (max : ℕ) (es : List MailRecord) → length (drop_oldest max es) ≤ max
length-drop_oldest max es = rw drop_oldest-drop (omega (arith, length-drop (length es - max) es))

length-remove_at : (i : ℕ) (es : List MailRecord) → length (remove_at i es) ≤ length es
unfolding remove_at
length-remove_at i [] = omega arith
length-remove_at zero (e ∷ es) = omega arith
length-remove_at (suc i) (e ∷ es) = omega (arith, length-remove_at i es)

-- The emails of a store are never more than its maximum.
abbrev pub IsBounded : MemoryStore → Type 0
IsBounded s = length s.emails ≤ s.max

-- What the tasks of the program do to the store, one at a time, in an order that is not known.
pub data Step : MemoryStore → MemoryStore → Type 0 where
  pushed : (s : MemoryStore) (e : MailRecord) → Step s (push s e)
  cleared : (s : MemoryStore) → Step s (clear s)
  removed : (s : MemoryStore) (id : Text) → Step s (remove s id).0

pub data Reach (s : MemoryStore) : MemoryStore → Type 0 where
  here : Reach s s
  next : {t v : MemoryStore} → Reach s t → Step t v → Reach s v

-- One step keeps the maximum, stays within it, and never takes a notification back.
abbrev pub Good : MemoryStore → MemoryStore → Type 0
Good s t = (t.max ≡ s.max) × (length t.emails ≤ t.max) × (s.notified ≤ t.notified)

pub Step-Good : {s t : MemoryStore} → Step s t → IsBounded s → Good s t
unfolding push clear remove
Step-Good (pushed s e) h = (refl, length-drop_oldest s.max (s.emails ++ e ∷ []), omega arith)
Step-Good (cleared s) h = (refl, omega arith, omega arith)
Step-Good (removed s id) h = elim (Option-cases (position id s.emails)) [
  | inl e ↦ rw (e, remove) (refl, h, omega arith)
  | inr (i, e) ↦ rw (e, remove) (refl, omega (arith, length-remove_at i s.emails), omega arith)
]

Reach-Good : {s t : MemoryStore} → Reach s t → IsBounded s → Good s t
Reach-Good here h = (refl, h, omega arith)
Reach-Good (next r st) h =
    let (m, b, n) = Reach-Good r h in let (m', b', n') = Step-Good st b in (m' ∙ m, b', omega arith)

-- Whatever the tasks do to a new store, in whatever order, it never holds more emails than its
-- maximum, and the maximum stays as it was configured.
pub Reach-IsBounded :
    (max : ℕ) {t : MemoryStore} → Reach (new max) t → (length t.emails ≤ max) × (t.max ≡ max)
unfolding new
Reach-IsBounded max r = let (m, b, n) = Reach-Good r (omega arith) in (omega arith, m)

pub push_all : MemoryStore → List MailRecord → MemoryStore
push_all s [] = s
push_all s (e ∷ es) = push_all (push s e) es

-- What was cut before may be cut again, together with what came since.
drop_oldest-append :
    (max : ℕ) (es ds : List MailRecord)
    → drop_oldest max (drop_oldest max es ++ ds) ≡ drop_oldest max (es ++ ds)
unfolding drop_oldest
drop_oldest-append max [] ds = refl
drop_oldest-append max (e ∷ es) ds =
    ground (arith, drop_oldest-append max es ds, length-append es ds)

pub drop_oldest_fits : (max : ℕ) (es : List MailRecord) → length es ≤ max → drop_oldest max es ≡ es
unfolding drop_oldest
drop_oldest_fits max [] h = refl
drop_oldest_fits max (e ∷ es) h = ground arith

push_all-drop_oldest :
    (es : List MailRecord) (s : MemoryStore)
    → IsBounded s
    → (push_all s es).emails ≡ drop_oldest s.max (s.emails ++ es)
unfolding push_all push
push_all-drop_oldest [] s h = rw append-nil (sym (drop_oldest_fits s.max s.emails h))
push_all-drop_oldest (e ∷ es) s h =
    push_all-drop_oldest es (push s e) (length-drop_oldest s.max (s.emails ++ e ∷ []))
    ∙ drop_oldest-append s.max (s.emails ++ e ∷ []) es
    ∙ ap (drop_oldest s.max) (append_assoc s.emails (e ∷ []) es)

-- A store within its bound that takes in a sequence of emails holds the newest of all of them, as
-- many as its maximum allows and in the order of arrival.
pub push_all-newest :
    (s : MemoryStore) (es : List MailRecord)
    → IsBounded s
    → (push_all s es).emails ≡ drop (length (s.emails ++ es) - s.max) (s.emails ++ es)
push_all-newest s es h = push_all-drop_oldest es s h ∙ drop_oldest-drop s.max (s.emails ++ es)
