-- ===== src/Store/Agree/Cut.antt =====
-- Which emails the bound of `push` leaves: the same in src/store.rs and in src/sqlite_store.rs.
use smtp_sink.Prelude.{
  ℕ, suc, ◌-◌, ◌≤◌, ◌<◌, ◌≡◌, ◌≢◌, ◌∙◌, refl, sym, ap, subst, inl, inr, List, [], ◌∷◌, ◌++◌, length,
  drop, All, Any, Has, Pairwise, Rearranges, arith, All-Has, Any-Has, Any-of_Has, of_Has-append,
  Rearranges-Has, Rearranges-sym, Has-append_left, Has-append_right, Rearranges-Pairwise,
  Rearranges-length, length-append, ◌⊎◌,
}
use smtp_sink.Email.{MailRecord}
use smtp_sink.Store.Rows.{Engine, Json, EmailRow, row_of}
use smtp_sink.Store.Memory.{MemoryStore, drop_oldest}
use smtp_sink.Store.Memory.Capacity.{drop_oldest-drop, drop_oldest_fits}
use smtp_sink.Store.Sqlite.{SqliteStore}
use smtp_sink.Store.Sqlite.Laws.{IsSqlite}
use smtp_sink.Store.Sqlite.Insertion.{Cut}
use smtp_sink.Store.Sqlite.Push.{Inserted}
use smtp_sink.Store.Agree.{Agrees, Earlier, row_present}

pub one_value : {A : Type 0} (l : List A) → length l ≡ 1 → (q : A) × (l ≡ q ∷ [])
one_value [] h = absurd (omega (arith, h))
one_value (x ∷ []) h = (x, refl)
one_value (x ∷ y ∷ l) h = absurd (omega (arith, h))

-- What differs between any two places differs across an append.
apart :
    {A : Type 0} (R : A → A → Type 0) (xs ys : List A) (a b : A)
    → Pairwise R (xs ++ ys)
    → Has a xs
    → Has b ys
    → R a b
apart R [] ys a b h m k = absurd m
apart R (x ∷ xs) ys a b h (inl e) k =
    subst (λ c. R c b) e (All-Has (R x) b (xs ++ ys) h.0 (Has-append_right b xs ys k))
apart R (x ∷ xs) ys a b h (inr m) k = apart R xs ys a b h.1 m k

drops_first :
    (max : ℕ) (es rest : List MailRecord) (g e : MailRecord)
    → es ≡ g ∷ rest
    → length es ≡ max
    → drop_oldest max (es ++ e ∷ []) ≡ rest ++ e ∷ []
drops_first max es rest g e split full =
    let one : length (es ++ e ∷ []) - max ≡ 1 = omega (arith, length-append es (e ∷ []), full) in
    drop_oldest-drop max (es ++ e ∷ [])
    ∙ ap (λ n. drop n (es ++ e ∷ [])) one
    ∙ ap (λ l. drop 1 (l ++ e ∷ [])) split

module _ {D : Type 0} {engine : Engine D} (law : IsSqlite engine) (json : Json) where
  -- The emails that stay beside the new one.
  pub record Stays (s : MemoryStore) (t : SqliteStore D) (e : MailRecord) (d : D) : Type 0 where
    pub rest : List MailRecord
    pub left : drop_oldest s.max (s.emails ++ e ∷ []) ≡ rest ++ e ∷ []
    pub part : (x : MailRecord) → Has x rest → Has x s.emails
    pub order : Pairwise (Earlier law json t.conn) rest
    pub rows : (x : MailRecord) → Has x rest → Any (λ r. r.id ≡ x.id) (law.emails d)
    pub known : (r : EmailRow) → Has r (law.emails d) → r.id ≢ e.id → Any (λ x. x.id ≡ r.id) rest

  module _ {s : MemoryStore} {t : SqliteStore D} (a : Agrees law json s t) (e : MailRecord)
      (i : Inserted law json t e) (d : D) where
    -- A row that stays was there before or is the new one.
    from_before :
        (gone : List EmailRow)
        → Rearranges (law.emails i.tables) (law.emails d ++ gone)
        → (r : EmailRow) → Has r (law.emails d ++ gone)
        → (row_of json e ≡ r) ⊎ Has r (law.emails t.conn)
    from_before gone cut r m =
        Rearranges-Has r (Rearranges-sym i.rows) (Rearranges-Has r (Rearranges-sym cut) m)

    -- The row of an email that was there stays or goes.
    row_left :
        (gone : List EmailRow)
        → Rearranges (law.emails i.tables) (law.emails d ++ gone)
        → (x : MailRecord) → Has x s.emails
        → Any (λ r. r.id ≡ x.id) (law.emails d) ⊎ Any (λ r. r.id ≡ x.id) gone
    row_left gone cut x m =
        let (r, k, same) =
          Any-Has (λ r. r.id ≡ x.id) (law.emails t.conn) (row_present law json a x m) in
        elim (of_Has-append r (law.emails d) gone
          (Rearranges-Has r cut (Rearranges-Has r i.rows (inr k)))) [
            | inl h ↦ inl (Any-of_Has (λ r. r.id ≡ x.id) r (law.emails d) h same)
            | inr h ↦ inr (Any-of_Has (λ r. r.id ≡ x.id) r gone h same)
          ]

    pub all-Stays : Cut law t.max i.tables d → suc (length s.emails) ≤ s.max → Stays s t e d
    unfolding row_of
    all-Stays (gone, n, cut, older, kept, times) fits =
        let none_gone : length gone ≡ 0 =
          omega (arith, n, Rearranges-length i.rows, a.count, a.max, fits) in
        record {
          rest = s.emails;
          left =
              drop_oldest_fits s.max (s.emails ++ e ∷ [])
                (omega (arith, length-append s.emails (e ∷ []), fits));
          part = λ x m. m;
          order = a.order;
          rows = λ x m. elim (row_left gone cut x m) [
            | inl h ↦ h
            | inr h ↦
                let (r, k, same) = Any-Has (λ r. r.id ≡ x.id) gone h in
                absurd (no_value r gone none_gone k)
          ];
          known = λ r m ne.
              elim (from_before gone cut r (Has-append_left r (law.emails d) gone m)) [
                | inl k ↦ absurd (ne (sym (ap (λ (y : EmailRow). y.id) k)))
                | inr k ↦ a.known r k
              ];
        }
      where
        no_value : {A : Type 0} (b : A) (l : List A) → length l ≡ 0 → Has b l → ⊥
        no_value b [] h m = m
        no_value b (x ∷ l) h m = omega (arith, h)

    module _ (absent : All (λ r. r.id ≢ e.id) (law.emails t.conn))
        (late : All (λ r. law.created_at t.conn r.id < law.now t.conn) (law.emails t.conn))
        (g : MailRecord) (rest : List MailRecord) (split : s.emails ≡ g ∷ rest) where
      same_time :
          (r : EmailRow)
          → Has r (law.emails t.conn)
          → law.created_at i.tables r.id ≡ law.created_at t.conn r.id
      same_time r m = i.older r.id (All-Has (λ r. r.id ≢ e.id) r (law.emails t.conn) absent m)

      -- The first in memory came before each of the others.
      g_first :
          (x : MailRecord) → Has x rest → law.created_at t.conn g.id < law.created_at t.conn x.id
      g_first x m =
          All-Has (Earlier law json t.conn g) x rest
            (subst (Pairwise (Earlier law json t.conn)) split a.order).0 m

      -- A row of before belongs to the first in memory or to one behind it.
      first_or_rest :
          (r : EmailRow) → Has r (law.emails t.conn) → (g.id ≡ r.id) ⊎ Any (λ x. x.id ≡ r.id) rest
      first_or_rest r m = subst (Any (λ x. x.id ≡ r.id)) split (a.known r m)

      -- Where one row must go, it is that of the first in memory.
      gone_first :
          (q : EmailRow)
          → Rearranges (law.emails i.tables) (law.emails d ++ q ∷ [])
          → All (λ y. law.created_at i.tables q.id ≤ law.created_at i.tables y.id) (law.emails d)
          → g.id ≡ q.id
      unfolding row_of
      gone_first q cut older =
          let (r, k, same) =
            Any-Has (λ r. r.id ≡ g.id) (law.emails t.conn)
              (row_present law json a g (subst (Has g) (sym split) (inl refl))) in
          elim (of_Has-append r (law.emails d) (q ∷ [])
            (Rearranges-Has r cut (Rearranges-Has r i.rows (inr k)))) [
              | inr (inl h) ↦ sym (ap (λ (y : EmailRow). y.id) h ∙ same)
              | inr (inr h) ↦ absurd h
              | inl h ↦
                  let o =
                    All-Has (λ y. law.created_at i.tables q.id ≤ law.created_at i.tables y.id) r
                      (law.emails d) older h in
                  elim (from_before (q ∷ []) cut q
                    (Has-append_right q (law.emails d) (q ∷ []) (inl refl))) [
                      | inl new ↦ absurd (
                          omega (
                            arith,
                            o,
                            ap (λ (y : EmailRow). law.created_at i.tables y.id) new,
                            i.newest,
                            same_time r k,
                            All-Has (λ r. law.created_at t.conn r.id < law.now t.conn) r
                                (law.emails t.conn) late k,
                          ))
                      | inr old ↦ elim (first_or_rest q old) [
                        | inl e' ↦ e'
                        | inr later ↦
                            let (x, m, e') = Any-Has (λ x. x.id ≡ q.id) rest later in
                            absurd (
                              omega (
                                arith,
                                o,
                                same_time q old,
                                same_time r k,
                                g_first x m,
                                ap (law.created_at t.conn) e',
                                ap (law.created_at t.conn) same,
                              ))
                      ]
                    ]
            ]

      pub behind-Stays :
          (q : EmailRow)
          → length s.emails ≡ s.max
          → Rearranges (law.emails i.tables) (law.emails d ++ q ∷ [])
          → All (λ y. law.created_at i.tables q.id ≤ law.created_at i.tables y.id) (law.emails d)
          → Stays s t e d
      unfolding row_of
      behind-Stays q full cut older =
          let e' = gone_first q cut older in
          record {
            rest = rest;
            left = drops_first s.max s.emails rest g e split full;
            part = λ x m. subst (Has x) (sym split) (inr m);
            order = (subst (Pairwise (Earlier law json t.conn)) split a.order).1;
            rows = λ x m. elim (row_left (q ∷ []) cut x (subst (Has x) (sym split) (inr m))) [
              | inl h ↦ h
              | inr (inl h) ↦
                  absurd (omega (arith, g_first x m, ap (law.created_at t.conn) (e' ∙ h)))
              | inr (inr h) ↦ absurd h
            ];
            known = λ r m ne.
                elim (from_before (q ∷ []) cut r (Has-append_left r (law.emails d) (q ∷ []) m)) [
                  | inl k ↦ absurd (ne (sym (ap (λ (y : EmailRow). y.id) k)))
                  | inr k ↦ elim (first_or_rest r k) [
                    | inl h ↦ absurd (
                        apart (λ x y. x.id ≢ y.id) (law.emails d) (q ∷ []) r q
                          (Rearranges-Pairwise (λ x y. x.id ≢ y.id) (λ x y n k. n (sym k)) cut
                            (law.keys i.tables))
                          m (inl refl) (sym h ∙ e'))
                    | inr h ↦ h
                  ]
                ];
          }
