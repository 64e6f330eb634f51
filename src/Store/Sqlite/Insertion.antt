-- ===== src/Store/Sqlite/Insertion.antt =====
-- What the statements of `push` in src/sqlite_store.rs leave in the tables.
use smtp_sink.Prelude.{
  suc, ◌<◌, ◌⊎◌, of_Has-append, Rearranges-Has, Rearranges-sym, All-Has, Has-append_left, ℕ, ◌≤◌,
  ◌-◌, ◌≡◌, ◌≢◌, ◌∙◌, refl, sym, ap, inl, inr, List, [], ◌∷◌, ◌++◌, filter, All, Any, Has,
  Rearranges, chain, length, append-nil, Rearranges_refl, Rearranges_under, Rearranges_middle,
  Rearranges-length, Bool-cases, arith, ltb, length-append, subst,
}
use smtp_sink.Text.{Text, text_eq, text_eq_iff}
use smtp_sink.Email.{Attachment}
use smtp_sink.Store.Rows.{
  Engine, EmailRow, AttachmentRow, row_of_attachment, attachment_of_row, attachments_of_rows,
}
use smtp_sink.Store.Sqlite.{insert_attachments, enforce_max}
use smtp_sink.Store.Sqlite.Laws.{IsSqlite, row_of_email}

pub rows_of : Text → List Attachment → List AttachmentRow
rows_of id [] = []
rows_of id (a ∷ as') = row_of_attachment id a ∷ rows_of id as'

pub attachments_of_rows-rows_of :
    (id : Text) (as' : List Attachment) → attachments_of_rows (rows_of id as') ≡ as'
unfolding attachments_of_rows rows_of attachment_of_row row_of_attachment
attachments_of_rows-rows_of id [] = refl
attachments_of_rows-rows_of id (a ∷ as') = ap (◌∷◌ a) (attachments_of_rows-rows_of id as')

-- The rows of an email are those that were added for it, if it had none.
pub filter-rows_of :
    (id : Text) (as' : List Attachment) (rest : List AttachmentRow)
    → All (λ a. a.email_id ≢ id) rest
    → filter (row_of_email id) (rows_of id as' ++ rest) ≡ rows_of id as'
unfolding rows_of row_of_attachment
filter-rows_of id [] [] h = refl
filter-rows_of id [] (a ∷ rest) h = elim (Bool-cases (text_eq a.email_id id)) [
  | inl e ↦ absurd (h.0 ((text_eq_iff a.email_id id).0 e))
  | inr e ↦ rw e (filter-rows_of id [] rest h.1)
]
filter-rows_of id (a ∷ as') rest h =
    rw ((text_eq_iff id id).1 refl)
      (ap (◌∷◌ (row_of_attachment id a)) (filter-rows_of id as' rest h))

-- The rows of another email are those that it had.
pub filter-rows_of_ne :
    (id other : Text) (as' : List Attachment) (rest : List AttachmentRow)
    → other ≢ id
    → filter (row_of_email other) (rows_of id as' ++ rest) ≡ filter (row_of_email other) rest
unfolding rows_of row_of_attachment
filter-rows_of_ne id other [] rest h = refl
filter-rows_of_ne id other (a ∷ as') rest h = elim (Bool-cases (text_eq id other)) [
  | inl e ↦ absurd (h (sym ((text_eq_iff id other).0 e)))
  | inr e ↦ rw e (filter-rows_of_ne id other as' rest h)
]

module _ {D : Type 0} {engine : Engine D} (law : IsSqlite engine) where
  -- The statements leave the emails and their times as they were, and add the attachments.
  abbrev pub Attached : Text → List Attachment → D → D → Type 0
  Attached id as' d d' =
      (law.emails d' ≡ law.emails d)
      × Rearranges (rows_of id as' ++ law.attachments d) (law.attachments d')
      × ((k : Text) → law.created_at d' k ≡ law.created_at d k)

  pub insert_attachments-Attached :
      (id : Text) (as' : List Attachment) (d : D)
      → Any (λ x. x.id ≡ id) (law.emails d)
      → Attached id as' d (insert_attachments engine id as' d)
  unfolding insert_attachments rows_of row_of_attachment
  insert_attachments-Attached id [] d h = (refl, Rearranges_refl _, λ k. refl)
  insert_attachments-Attached id (a ∷ as') d h =
      let (d1, runs, es, attached, times) = law.attaches d (row_of_attachment id a) h in
      let (es', attached', times') =
        insert_attachments-Attached id as' d1 (subst (Any (λ x. x.id ≡ id)) (sym es) h) in
      rw runs (
        es' ∙ es,
        chain (Rearranges_middle (row_of_attachment id a) (rows_of id as') (law.attachments d))
            (chain (Rearranges_under (rows_of id as') attached) attached'),
        λ k. times' k ∙ times k,
      )

  -- The bound removes rows, none of which is newer than one that stays, and with it their attachments.
  abbrev pub Cut : ℕ → D → D → Type 0
  Cut max d d' =
      (gone : List EmailRow) × (length gone ≡ length (law.emails d) - max)
      × Rearranges (law.emails d) (law.emails d' ++ gone)
      × All (λ x. All (λ y. law.created_at d x.id ≤ law.created_at d y.id) (law.emails d')) gone
      × ((id : Text)
          → Any (λ x. x.id ≡ id) (law.emails d')
          → filter (row_of_email id) (law.attachments d')
            ≡ filter (row_of_email id) (law.attachments d))
      × ((id : Text)
          → Any (λ x. x.id ≡ id) (law.emails d')
          → law.created_at d' id ≡ law.created_at d id)

  pub enforce_max-Cut : (max : ℕ) (d : D) → Cut max d (enforce_max engine max d)
  unfolding enforce_max
  enforce_max-Cut max d =
      let n = length (law.emails d) in
      elim (Bool-cases (ltb max n)) [
        | inl over ↦
            let (d', gone, runs, n', same, older, kept, times) =
              law.deletes_oldest d (n - max) (ground arith) in
            rw (law.counts d, over, runs) (gone, n', same, older, kept, times)
        | inr fits ↦
            let e : 0 ≡ n - max = ground arith in
            rw (law.counts d, fits)
              ([], e, nothing_gone (law.emails d), tt, λ id h. refl, λ id h. refl)
      ]
    where
      nothing_gone : (rs : List EmailRow) → Rearranges rs (rs ++ [])
      nothing_gone rs = rw append-nil (Rearranges_refl rs)

  -- What is left fits, and is as many rows as fit.
  pub Cut-length :
      (max : ℕ) (d d' : D)
      → Cut max d d'
      → length (law.emails d') ≡ length (law.emails d) - (length (law.emails d) - max)
  Cut-length max d d' (gone, n, r, older, kept, times) =
      omega (arith, n, Rearranges-length r, length-append (law.emails d') gone)

  -- A row stays that is as new as any, if there is room for all or for one.
  abbrev pub Roomy : ℕ → D → EmailRow → List EmailRow → Type 0
  Roomy max d r rs =
      (suc (length rs) ≤ max)
      ⊎ ((1 ≤ max) × All (λ x. law.created_at d x.id < law.created_at d r.id) rs)

  pub Cut-Has :
      (max : ℕ) (d d' : D) (r : EmailRow) (rs : List EmailRow)
      → Roomy max d r rs
      → Rearranges (r ∷ rs) (law.emails d)
      → Cut max d d'
      → Has r (law.emails d')
  Cut-Has max d d' r rs room rows (gone, n, same, cut, kept, times) =
      elim (of_Has-append r (law.emails d') gone
        (Rearranges-Has r same (Rearranges-Has r rows (inl refl)))) [
          | inl h ↦ h
          | inr h ↦ elim room [
            | inl all ↦ absurd (none_gone gone (omega (arith, n, Rearranges-length rows, all)) h)
            | inr (one, older) ↦
                let (y, k) = some_left (law.emails d') (
                  omega (
                    arith,
                    n,
                    Rearranges-length same,
                    length-append (law.emails d') gone,
                    Rearranges-length rows,
                    one,
                  )) in
                let after =
                  All-Has (λ y. law.created_at d r.id ≤ law.created_at d y.id) y (law.emails d')
                    (All-Has
                      (λ x.
                        All (λ y. law.created_at d x.id ≤ law.created_at d y.id) (law.emails d'))
                      r gone cut h)
                    k in
                elim (Rearranges-Has y (Rearranges-sym rows) (
                  Rearranges-Has y (Rearranges-sym same)
                    (Has-append_left y (law.emails d') gone k))) [
                      | inl e ↦ subst (λ x. Has x (law.emails d')) (sym e) k
                      | inr m ↦ absurd (
                          omega (
                            arith,
                            after,
                            All-Has (λ x. law.created_at d x.id < law.created_at d r.id) y rs older
                                m,
                          ))
                    ]
          ]
        ]
    where
      some_left : (l : List EmailRow) → 1 ≤ length l → (y : EmailRow) × Has y l
      some_left [] h = absurd (omega (arith, h))
      some_left (y ∷ l) h = (y, inl refl)

      none_gone : (l : List EmailRow) → length l ≡ 0 → Has r l → ⊥
      none_gone [] e h = h
      none_gone (x ∷ l) e h = omega (arith, e)
