-- ===== src/Store/Agree/Push.antt =====
-- `push` keeps the store in memory and the SQLite store alike: src/store.rs and src/sqlite_store.rs.
use smtp_sink.Prelude.{
  ◌+◌, ◌-◌, ◌≤◌, ◌<◌, ◌≡◌, ◌≢◌, ◌∙◌, refl, sym, ap, subst, inl, inr, List, [], ◌∷◌, ◌++◌, length,
  All, Any, Has, Pairwise, Rearranges, arith, All-Has, All-of_Has, Any-Has, Any-of_Has,
  of_Has-append, Has-append_left, Has-append_right, Rearranges-length, length-append, length-drop,
  Bool-cases, ltb, chain, some-ne-none,
}
use smtp_sink.Text.{text_eq, text_eq_iff}
use smtp_sink.Email.{MailRecord}
use smtp_sink.Store.Rows.{Engine, Json, EmailRow}
use smtp_sink.Store.Memory
use smtp_sink.Store.Memory.{MemoryStore, drop_oldest}
use smtp_sink.Store.Memory.Capacity.{drop_oldest-drop, length-drop_oldest}
use smtp_sink.Store.Memory.Lookup.{Lacks}
use smtp_sink.Store.Sqlite.{SqliteStore, enforce_max, push}
use smtp_sink.Store.Sqlite.Laws.{IsSqlite, IsJson}
use smtp_sink.Store.Sqlite.Insertion.{Cut, enforce_max-Cut, Cut-length}
use smtp_sink.Store.Sqlite.Others.{StillHas, has_email, push-others}
use smtp_sink.Store.Sqlite.Push.{Inserted, push-Inserted, push-get_by_id, present_key}
use smtp_sink.Store.Sqlite.Lookup.{get_by_id_lacking}
use smtp_sink.Store.Agree.{Agrees, Earlier, row_present, row_absent}
use smtp_sink.Store.Agree.Cut.{Stays, all-Stays, behind-Stays, one_value}

pub Pairwise-snoc :
    {A : Type 0} (R : A → A → Type 0) (xs : List A) (y : A)
    → Pairwise R xs
    → All (λ x. R x y) xs
    → Pairwise R (xs ++ y ∷ [])
Pairwise-snoc R [] y h k = (tt, tt)
Pairwise-snoc R (x ∷ xs) y h k = (
  All-of_Has (R x) (xs ++ y ∷ []) λ z m. elim (of_Has-append z xs (y ∷ []) m) [
    | inl n ↦ All-Has (R x) z xs h.0 n
    | inr (inl e) ↦ subst (R x) e k.0
    | inr (inr n) ↦ absurd n
  ],
  Pairwise-snoc R xs y h.1 k.1,
)

pub Pairwise_under :
    {A : Type 0} (R S : A → A → Type 0) (xs : List A)
    → ((x y : A) → Has x xs → Has y xs → R x y → S x y)
    → Pairwise R xs
    → Pairwise S xs
Pairwise_under R S [] f h = tt
Pairwise_under R S (x ∷ xs) f h = (
  All-of_Has (S x) xs λ y m. f x y (inl refl) (inr m) (All-Has (R x) y xs h.0 m),
  Pairwise_under R S xs (λ a b m n. f a b (inr m) (inr n)) h.1,
)

module _ {D : Type 0} {engine : Engine D} (law : IsSqlite engine) (json : Json) where
  -- The clock shows a later second than each row.
  abbrev pub IsLater : D → Type 0
  IsLater d = All (λ r. law.created_at d r.id < law.now d) (law.emails d)

  module _ {s : MemoryStore} {t : SqliteStore D} (a : Agrees law json s t) (e : MailRecord)
      (lacks : Lacks e.id s.emails) (late : IsLater t.conn) (one : 1 ≤ s.max) where
    absent : All (λ r. r.id ≢ e.id) (law.emails t.conn)
    absent = row_absent law json a e.id lacks

    abbrev behind : Inserted law json t e → D
    behind i = enforce_max engine t.max i.tables

    over-Stays :
        (i : Inserted law json t e) (d : D)
        → Cut law t.max i.tables d
        → length s.emails ≡ s.max
        → (es : List MailRecord) → s.emails ≡ es
        → Stays law json s t e d
    over-Stays i d (gone, n, cut, older, kept, times) full [] split =
        absurd (omega (arith, one, full, ap length split))
    over-Stays i d (gone, n, cut, older, kept, times) full (g ∷ rest) split =
        let single : length gone ≡ 1 =
          omega (arith, n, Rearranges-length i.rows, a.count, a.max, full) in
        let (q, e') = one_value gone single in
        behind-Stays law json a e i d absent late g rest split q full
          (subst (λ l. Rearranges (law.emails i.tables) (law.emails d ++ l)) e' cut)
          (subst
            (All (λ x.
              All (λ y. law.created_at i.tables x.id ≤ law.created_at i.tables y.id)
                (law.emails d)))
            e' older).0

    push-Stays :
        (i : Inserted law json t e) (d : D) → Cut law t.max i.tables d → Stays law json s t e d
    push-Stays i d cut = elim (Bool-cases (ltb (length s.emails) s.max)) [
      | inl room ↦ all-Stays law json a e i d cut (ground arith)
      | inr no_room ↦ let w = a.within in over-Stays i d cut (ground arith) s.emails refl
    ]

    -- What is still there is as it was.
    shown_before :
        IsJson json
        → (x : MailRecord) → Has x s.emails
        → Any (λ r. r.id ≡ x.id) (law.emails (push engine json t e).conn)
        → StillHas law json (push engine json t e) x.id x
    shown_before law' x m k =
        let (l, found, same) = a.shown x m in
        let (l', found', same') =
          push-others law json t e (record x { attachments = l }) x.id
            (All-Has (λ y. y.id ≢ e.id) x s.emails lacks m) found
            (has_email law json (push engine json t e) x.id k) in
        (l', found', chain same same')

    shown_new : IsJson json → StillHas law json (push engine json t e) e.id e
    shown_new law' =
        push-get_by_id law json law' t e (get_by_id_lacking law json t e.id absent)
          (inr (subst (λ n. 1 ≤ n) (sym a.max) one, late))

    -- The times of the rows that stay are those of before.
    same_time :
        (i : Inserted law json t e) (d : D)
        → Cut law t.max i.tables d
        → (x : MailRecord) → Has x s.emails
        → Any (λ r. r.id ≡ x.id) (law.emails d)
        → law.created_at d x.id ≡ law.created_at t.conn x.id
    same_time i d (gone, n, cut, older, kept, times) x m k =
        times x.id k ∙ i.older x.id (All-Has (λ y. y.id ≢ e.id) x s.emails lacks m)

    push-order :
        (i : Inserted law json t e) (d : D)
        → Cut law t.max i.tables d
        → (st : Stays law json s t e d) → Any (λ r. r.id ≡ e.id) (law.emails d)
        → Pairwise (Earlier law json d) (st.rest ++ e ∷ [])
    push-order i d cut st new =
        Pairwise-snoc (Earlier law json d) st.rest e
          (Pairwise_under (Earlier law json t.conn) (Earlier law json d) st.rest
            (λ x y m n h. omega (
              arith,
              h,
              same_time i d cut x (st.part x m) (st.rows x m),
              same_time i d cut y (st.part y n) (st.rows y n),
            ))
            st.order)
          (All-of_Has (λ x. Earlier law json d x e) st.rest
            λ x m.
              let (r, k, same) =
                Any-Has (λ r. r.id ≡ x.id) (law.emails t.conn)
                  (row_present law json a x (st.part x m)) in
              omega (
                arith,
                same_time i d cut x (st.part x m) (st.rows x m),
                new_time cut,
                ap (law.created_at t.conn) same,
                All-Has (λ r. law.created_at t.conn r.id < law.now t.conn) r (law.emails t.conn)
                    late k,
              ))
      where
        new_time : Cut law t.max i.tables d → law.created_at d e.id ≡ law.now t.conn
        new_time (gone, n, cut, older, kept, times) = times e.id new ∙ i.newest

    push-known :
        (d : D) (st : Stays law json s t e d) (r : EmailRow)
        → Has r (law.emails d)
        → Any (λ x. x.id ≡ r.id) (st.rest ++ e ∷ [])
    push-known d st r m = elim (Bool-cases (text_eq r.id e.id)) [
      | inl same ↦
          Any-of_Has (λ x. x.id ≡ r.id) e (st.rest ++ e ∷ [])
            (Has-append_right e st.rest (e ∷ []) (inl refl)) (sym ((text_eq_iff r.id e.id).0 same))
      | inr other ↦
          let (x, k, q) =
            Any-Has (λ x. x.id ≡ r.id) st.rest
              (st.known r m λ h. cc ((text_eq_iff r.id e.id).1 h, other)) in
          Any-of_Has (λ x. x.id ≡ r.id) x (st.rest ++ e ∷ []) (Has-append_left x st.rest (e ∷ []) k)
            q
    ]

    -- Stores that agree still do when the same email is pushed onto both.
    pub push-Agrees : IsJson json → Agrees law json (Memory.push s e) (push engine json t e)
    unfolding Memory.push push
    push-Agrees law' =
        let i = push-Inserted law json t e absent in
        let d = enforce_max engine t.max i.tables in
        let cut = enforce_max-Cut law t.max i.tables in
        let st = push-Stays i d cut in
        let (l, found, same) = shown_new law' in
        let new =
          present_key law json (push engine json t e) e.id λ n. some-ne-none (sym found ∙ n) in
        let es = sym st.left in
        record {
          max = a.max;
          told = ap (λ n. n + 1) a.told;
          within = length-drop_oldest s.max (s.emails ++ e ∷ []);
          order =
              subst (λ c. Pairwise (Earlier law json c) (drop_oldest s.max (s.emails ++ e ∷ [])))
                (sym i.bounded)
                (subst (Pairwise (Earlier law json d)) es (
                  push-order i d cut st
                    (subst (λ c. Any (λ r. r.id ≡ e.id) (law.emails c)) i.bounded new)));
          shown = λ x m. elim (of_Has-append x st.rest (e ∷ []) (subst (Has x) st.left m)) [
            | inl k ↦
                shown_before law' x (st.part x k)
                  (subst (λ c. Any (λ r. r.id ≡ x.id) (law.emails c)) (sym i.bounded) (st.rows x k))
            | inr (inl k) ↦
                subst (λ y. StillHas law json (push engine json t e) y.id y) k (shown_new law')
            | inr (inr k) ↦ absurd k
          ];
          known = λ r m.
              subst (Any (λ x. x.id ≡ r.id)) es
                (push-known d st r (subst (λ c. Has r (law.emails c)) i.bounded m));
          count =
              ap (λ c. length (law.emails c)) i.bounded
              ∙ Cut-length law t.max i.tables d cut
              ∙ omega (
                arith,
                Rearranges-length i.rows,
                a.count,
                a.max,
                ap length (drop_oldest-drop s.max (s.emails ++ e ∷ [])),
                length-drop (length (s.emails ++ e ∷ []) - s.max) (s.emails ++ e ∷ []),
                length-append s.emails (e ∷ []),
              );
        }
