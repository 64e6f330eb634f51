-- ===== src/Store/Memory/Lookup.antt =====
-- Lookups by id after a removal, and the results of a query.
use smtp_sink.Prelude.{
  ℕ, suc, ◌≡◌, ◌≢◌, refl, sym, ap, true, false, List, [], ◌∷◌, ◌++◌, none, some, find, All, arith,
  subst, ◌+◌, Bool-cases, Option-cases, inl, inr,
}
use smtp_sink.Text.{Text, text_eq_iff}
use smtp_sink.Email.{MailRecord, has_id}
use smtp_sink.Store.Memory.{MemoryStore, get_by_id, remove, position, remove_at}

-- No email of the list has the id.
abbrev pub Lacks : Text → List MailRecord → Type 0
Lacks id = All (λ e. e.id ≢ id)

-- The place of an id splits the list, and the removal takes out what stands there.
record Found (id : Text) (es : List MailRecord) (i : ℕ) : Type 0 where
  before : List MailRecord
  email : MailRecord
  after : List MailRecord
  splits : es ≡ before ++ email ∷ after
  lacks : Lacks id before
  matches : email.id ≡ id
  found : find (has_id id) es ≡ some email
  left : remove_at i es ≡ before ++ after

Found-here :
    (id : Text) (e : MailRecord) (es : List MailRecord) → has_id id e ≡ true → Found id (e ∷ es) 0
unfolding remove_at
Found-here id e es same = record {
  before = [];
  email = e;
  after = es;
  splits = refl;
  lacks = tt;
  matches = (text_eq_iff e.id id).0 same;
  found = ground arith;
  left = refl;
}

Found-there :
    (id : Text) (e : MailRecord) (es : List MailRecord) (i : ℕ)
    → has_id id e ≡ false
    → Found id es i
    → Found id (e ∷ es) (suc i)
unfolding remove_at
Found-there id e es i other f = record {
  before = e ∷ f.before;
  email = f.email;
  after = f.after;
  splits = ap (◌∷◌ e) f.splits;
  lacks = (ground (arith, text_eq_iff e.id id), f.lacks);
  matches = f.matches;
  found = ground (arith, f.found);
  left = ap (◌∷◌ e) f.left;
}

position-Found :
    (id : Text) (es : List MailRecord) (i : ℕ) → position id es ≡ some i → Found id es i
unfolding position
position-Found id [] i h = cc
position-Found id (e ∷ es) i h = elim (Bool-cases (has_id id e)) [
  | inl same ↦
      let e0 : 0 ≡ i = ground arith in subst (Found id (e ∷ es)) e0 (Found-here id e es same)
  | inr other ↦ elim (Option-cases (position id es)) [
    | inl gone ↦ cc (rw (other, gone) at h)
    | inr (j, p) ↦
        let ej : suc j ≡ i = ground arith in
        subst (Found id (e ∷ es)) ej (Found-there id e es j other (position-Found id es j p))
  ]
]

position-none : (id : Text) (es : List MailRecord) → position id es ≡ none → Lacks id es
unfolding position
position-none id [] h = tt
position-none id (e ∷ es) h =
    (ground (arith, text_eq_iff e.id id), position-none id es (ground (arith, text_eq_iff e.id id)))

find-Lacks_append :
    (j id : Text) (l r : List MailRecord)
    → j ≢ id
    → (e : MailRecord) → e.id ≡ id
    → find (has_id j) (l ++ e ∷ r) ≡ find (has_id j) (l ++ r)
find-Lacks_append j id [] r ne e m = ground (arith, text_eq_iff e.id j)
find-Lacks_append j id (d ∷ l) r ne e m = ground (arith, find-Lacks_append j id l r ne e m)

-- When `remove` answers true, it has taken out the first email with the id, which is the one that
-- `get_by_id` gave, and nothing else; the order is kept and one notification is sent.
pub remove_true :
    (s : MemoryStore) (id : Text)
    → (remove s id).1 ≡ true
    → (l : List MailRecord) × (e : MailRecord) × (r : List MailRecord) × (s.emails ≡ l ++ e ∷ r)
      × Lacks id l
      × (get_by_id s id ≡ some e)
      × (remove s id).0 ≡ record s { emails = l ++ r; notified = s.notified + 1 }
unfolding remove get_by_id
remove_true s id h = elim (Option-cases (position id s.emails)) [
  | inl gone ↦ cc (rw (gone, remove) at h)
  | inr (i, p) ↦
      let f = position-Found id s.emails i p in
      (f.before, f.email, f.after, f.splits, f.lacks, f.found, rw (p, remove, f.left))
]

-- When `remove` answers false, no email has the id, and the store is as it was.
pub remove_false :
    (s : MemoryStore) (id : Text)
    → (remove s id).1 ≡ false
    → Lacks id s.emails × ((remove s id).0 ≡ s)
unfolding remove
remove_false s id h = elim (Option-cases (position id s.emails)) [
  | inl gone ↦ (position-none id s.emails gone, rw (gone, remove))
  | inr (i, p) ↦ cc (rw (p, remove) at h)
]

-- A removal does not change what is found under another id.
pub get_by_id-remove_ne :
    (s : MemoryStore) (id j : Text) → j ≢ id → get_by_id (remove s id).0 j ≡ get_by_id s j
unfolding get_by_id remove
get_by_id-remove_ne s id j ne = elim (Option-cases (position id s.emails)) [
  | inl gone ↦ rw (gone, remove)
  | inr (i, p) ↦
      let f = position-Found id s.emails i p in
      rw (p, remove, f.left)
        (rw f.splits (sym (find-Lacks_append j id f.before f.after ne f.email f.matches)))
]
