-- ===== src/Store/Agree/Remove.antt =====
-- `remove` and `clear` keep the store in memory and the SQLite store alike: src/store.rs and
-- src/sqlite_store.rs.
use smtp_sink.Prelude.{
  suc, ◌+◌, ◌≡◌, ◌≢◌, ◌∙◌, refl, sym, ap, subst, inl, inr, List, [], ◌∷◌, ◌++◌, length, All, Any,
  Has, Pairwise, arith, All-Has, All-of_Has, Any-Has, Any-of_Has, false, of_Has-append,
  Has-append_left, Has-append_right, length-append, not, filter, of_filter, Bool-cases, some, chain,
  some-ne-none, All-append, All-middle, unwrap_or, find, of_some,
}
use smtp_sink.Text.{Text, text_eq, text_eq_iff}
use smtp_sink.Email.{MailRecord, has_id}
use smtp_sink.Store.Rows.{Engine, Json, EmailRow}
use smtp_sink.Store.Memory
use smtp_sink.Store.Memory.{MemoryStore}
use smtp_sink.Store.Memory.Lookup.{remove_true, remove_false}
use smtp_sink.Store.Sqlite.{SqliteStore, remove, removed, clear}
use smtp_sink.Store.Sqlite.Laws.{IsSqlite, row_has_id}
use smtp_sink.Store.Sqlite.Others.{StillHas, remove-others}
use smtp_sink.Store.Sqlite.Push.{present_key}
use smtp_sink.Store.Agree.Push.{Pairwise_under}
use smtp_sink.Store.Agree.{Agrees, Earlier, row_present, row_absent}

pub find_id :
    (id : Text) (es : List MailRecord) (e : MailRecord) → find (has_id id) es ≡ some e → e.id ≡ id
find_id id [] e h = absurd (some-ne-none (sym h))
find_id id (x ∷ es) e h = elim (Bool-cases (has_id id x)) [
  | inl k ↦ sym (ap (λ (y : MailRecord). y.id) (of_some (rw k at h))) ∙ (text_eq_iff x.id id).0 k
  | inr k ↦ find_id id es e (rw k at h)
]

-- One value taken out of a list whose values differ.
Pairwise-without :
    {A : Type 0} (R : A → A → Type 0) (xs : List A) (y : A) (zs : List A)
    → Pairwise R (xs ++ y ∷ zs)
    → Pairwise R (xs ++ zs) × All (λ x. R x y) xs × All (R y) zs
Pairwise-without R [] y zs h = (h.1, tt, h.0)
Pairwise-without R (x ∷ xs) y zs h =
    let (p, before, after) = Pairwise-without R xs y zs h.1 in
    let (l, m, r) = All-middle (R x) xs y zs h.0 in
    ((All-append (R x) xs zs l r, p), (m, before), after)

-- Taking out the one row with a key leaves one row less.
length-others :
    (id : Text) (rs : List EmailRow)
    → Pairwise (λ x y. x.id ≢ y.id) rs
    → Any (λ r. r.id ≡ id) rs
    → suc (length (filter (λ r. not (row_has_id id r)) rs)) ≡ length rs
length-others id [] u h = absurd h
length-others id (r ∷ rs) u h = elim (Bool-cases (text_eq r.id id)) [
  | inl e ↦
      let others : All (λ x. x.id ≢ id) rs =
        All-of_Has (λ x. x.id ≢ id) rs
          λ x m k. All-Has (λ y. r.id ≢ y.id) x rs u.0 m ((text_eq_iff r.id id).0 e ∙ sym k) in
      rw e (ap suc (all_left rs others))
  | inr e ↦ rw e (ap suc (length-others id rs u.1 (later h e)))
]
  where
    all_left :
        (l : List EmailRow)
        → All (λ x. x.id ≢ id) l
        → length (filter (λ r. not (row_has_id id r)) l) ≡ length l
    all_left [] h = refl
    all_left (x ∷ l) h = elim (Bool-cases (text_eq x.id id)) [
      | inl e ↦ absurd (h.0 ((text_eq_iff x.id id).0 e))
      | inr e ↦ rw e (ap suc (all_left l h.1))
    ]

    later : Any (λ r. r.id ≡ id) (r ∷ rs) → text_eq r.id id ≡ false → Any (λ r. r.id ≡ id) rs
    later (inl k) e = absurd (cc ((text_eq_iff r.id id).1 k, e))
    later (inr m) e = m

module _ {D : Type 0} {engine : Engine D} (law : IsSqlite engine) (json : Json) where
  module _ {s : MemoryStore} {t : SqliteStore D} (a : Agrees law json s t) where
    -- Stores that agree still do when both are cleared.
    pub clear-Agrees : Agrees law json (Memory.clear s) (clear engine t)
    unfolding Memory.clear clear
    clear-Agrees =
        let (d, runs, gone) = law.deletes_all t.conn in
        let e = ap (λ o. unwrap_or o t.conn) runs in
        record {
          max = a.max;
          told = ap (λ n. n + 1) a.told;
          within = omega arith;
          order = tt;
          shown = λ x m. absurd m;
          known = λ r m. absurd (subst (Has r) (ap law.emails e ∙ gone) m);
          count = ap (λ c. length (law.emails c)) e ∙ ap length gone;
        }

    module _ (id : Text) (l : List MailRecord) (e : MailRecord) (r : List MailRecord)
        (split : s.emails ≡ l ++ e ∷ r) (same_id : e.id ≡ id) where
      parts :
          Pairwise (Earlier law json t.conn) (l ++ r)
          × All (λ x. Earlier law json t.conn x e) l
          × All (Earlier law json t.conn e) r
      parts =
          Pairwise-without (Earlier law json t.conn) l e r
            (subst (Pairwise (Earlier law json t.conn)) split a.order)

      was_there : (x : MailRecord) → Has x (l ++ r) → Has x s.emails
      was_there x m = elim (of_Has-append x l r m) [
        | inl k ↦ subst (Has x) (sym split) (Has-append_left x l (e ∷ r) k)
        | inr k ↦ subst (Has x) (sym split) (Has-append_right x l (e ∷ r) (inr k))
      ]

      -- The others have another id, as another time.
      other_id : (x : MailRecord) → Has x (l ++ r) → x.id ≢ id
      other_id x m k =
          let (p, before, after) = parts in
          let q = ap (law.created_at t.conn) (k ∙ sym same_id) in
          elim (of_Has-append x l r m) [
            | inl n ↦
                let b = All-Has (λ x. Earlier law json t.conn x e) x l before n in
                omega (arith, b, q)
            | inr n ↦ let b = All-Has (Earlier law json t.conn e) x r after n in omega (arith, b, q)
          ]

      shown_still :
          (x : MailRecord) → Has x (l ++ r) → StillHas law json (remove engine t id).0 x.id x
      shown_still x m =
          let (as', found, same) = a.shown x (was_there x m) in
          let (as2, found', same') =
            remove-others law json t id x.id (record x { attachments = as' }) (other_id x m)
              found in
          (as2, found', chain same same')

      still_known :
          (x : MailRecord) (k : Text)
          → Has x s.emails
          → x.id ≡ k
          → k ≢ id
          → Any (λ y. y.id ≡ k) (l ++ r)
      still_known x k m q ne = elim (of_Has-append x l (e ∷ r) (subst (Has x) split m)) [
        | inl n ↦ Any-of_Has (λ y. y.id ≡ k) x (l ++ r) (Has-append_left x l r n) q
        | inr (inl n) ↦ absurd (ne (sym q ∙ sym (ap (λ (y : MailRecord). y.id) n) ∙ same_id))
        | inr (inr n) ↦ Any-of_Has (λ y. y.id ≡ k) x (l ++ r) (Has-append_right x l r n) q
      ]

      remove_present :
          Agrees law json
            (record s { emails = l ++ r; notified = s.notified + 1 })
            (remove engine t id).0
      unfolding remove
      remove_present =
          let key =
            subst (λ i. Any (λ r. r.id ≡ i) (law.emails t.conn)) same_id
              (row_present law json a e
                (subst (Has e) (sym split) (Has-append_right e l (e ∷ r) (inl refl)))) in
          let (d, runs, left, kept, times) = law.deletes t.conn id key in
          let to_d = ap (λ o. (removed engine t o).0.conn) runs in
          let (p, before, after) = parts in
          let rows : (x : MailRecord) → Has x (l ++ r) → Any (λ r. r.id ≡ x.id) (law.emails d) =
            λ x m.
              let (as', found, same) = shown_still x m in
              subst (λ c. Any (λ r. r.id ≡ x.id) (law.emails c)) to_d
                (present_key law json (remove engine t id).0 x.id
                  λ n. some-ne-none (sym found ∙ n)) in
          record {
            max = ap (λ o. (removed engine t o).0.max) runs ∙ a.max;
            told = ap (λ o. (removed engine t o).0.notified) runs ∙ ap (λ n. n + 1) a.told;
            within =
                omega
                  (arith, a.within, ap length split, length-append l (e ∷ r), length-append l r);
            order =
                subst (λ c. Pairwise (Earlier law json c) (l ++ r)) (sym to_d)
                  (Pairwise_under (Earlier law json t.conn) (Earlier law json d) (l ++ r)
                    (λ x y m n h. omega (arith, h, times x.id (rows x m), times y.id (rows y n)))
                    p);
            shown = shown_still;
            known = λ q m.
                let (there, other) =
                  of_filter (λ x. not (row_has_id id x)) (law.emails t.conn)
                    (subst (Has q) left (subst (λ c. Has q (law.emails c)) to_d m)) in
                let (x, n, k) = Any-Has (λ x. x.id ≡ q.id) s.emails (a.known q there) in
                still_known x q.id n k λ same. cc (ap not ((text_eq_iff q.id id).1 same), other);
            count = omega (
              arith,
              ap (λ c. length (law.emails c)) to_d,
              ap length left,
              length-others id (law.emails t.conn) (law.keys t.conn) key,
              a.count,
              ap length split,
              length-append l (e ∷ r),
              length-append l r,
            );
          }

    -- Stores that agree still do when the same id is removed from both.
    pub remove-Agrees : (id : Text) → Agrees law json (Memory.remove s id).0 (remove engine t id).0
    unfolding remove Memory.get_by_id
    remove-Agrees id = elim (Bool-cases (Memory.remove s id).1) [
      | inl there ↦
          let (l, e, r, split, lacks, found, left) = remove_true s id there in
          subst (λ m. Agrees law json m (remove engine t id).0) (sym left)
            (remove_present id l e r split (find_id id s.emails e found))
      | inr absent ↦
          let (lacks, same) = remove_false s id absent in
          subst (λ m. Agrees law json m (remove engine t id).0) (sym same)
            (subst (λ o. Agrees law json s (removed engine t o).0)
              (sym (law.deletes_none t.conn id (row_absent law json a id lacks))) a)
    ]
