-- ===== src/Store/Sqlite/Interface.antt =====
-- The SQLite store has the laws of `EmailStorage`.
use smtp_sink.Prelude.{
  ◌≡◌, ◌∙◌, sym, ap, inl, inr, false, [], is_some, unwrap_or, Rearranges, Any-Has, Rearranges-nil,
  subst,
}
use smtp_sink.Text.{Text}
use smtp_sink.Store.Defs.{IsLawful}
use smtp_sink.Store.Rows.{Engine, Json}
use smtp_sink.Store.Sqlite.{
  SqliteStore, load_records, removed, sqlite_storage, get_all, get_by_id, clear, remove,
}
use smtp_sink.Store.Sqlite.Laws.{IsSqlite}
use smtp_sink.Store.Sqlite.Lookup.{
  has_key, get_by_id_present, get_by_id_lacking, get_by_id-find, get_all_lem, all_rows,
}
use smtp_sink.Store.Sqlite.Attachments.{get_attachment-Offers, get_attachment_lacking}

module _ {D : Type 0} {engine : Engine D} (law : IsSqlite engine) (json : Json) where
  get_all-clear : (s : SqliteStore D) → get_all engine json (clear engine s) ≡ []
  unfolding clear load_records
  get_all-clear s =
      let (d', runs, gone) = law.deletes_all s.conn in
      rw (get_all_lem law json (clear engine s)) (
        ap (load_records engine json (clear engine s).conn) (
          Rearranges-nil (
            subst (λ l. Rearranges l (law.selects_emails (clear engine s).conn [] tt).given)
              (ap law.emails (ap (λ o. unwrap_or o s.conn) runs) ∙ gone)
              (all_rows law json (clear engine s).conn))))

  remove-is_some :
      (s : SqliteStore D) (id : Text)
      → (remove engine s id).1 ≡ is_some (get_by_id engine json s id)
  unfolding remove
  remove-is_some s id = elim (has_key id (law.emails s.conn)) [
    | inl k ↦
        let (d', runs, left, kept, times) = law.deletes s.conn id k in
        let (r, h, e) = Any-Has (λ x. x.id ≡ id) (law.emails s.conn) k in
        ap (λ o. (removed engine s o).1) runs
        ∙ sym (ap is_some (get_by_id_present law json s id r h e))
    | inr k ↦
        ap (λ o. (removed engine s o).1) (law.deletes_none s.conn id k)
        ∙ sym (ap is_some (get_by_id_lacking law json s id k))
  ]

  remove_absent :
      (s : SqliteStore D) (id : Text)
      → (remove engine s id).1 ≡ false
      → get_all engine json (remove engine s id).0 ≡ get_all engine json s
  unfolding remove
  remove_absent s id h = elim (has_key id (law.emails s.conn)) [
    | inl k ↦
        let (d', runs, left, kept, times) = law.deletes s.conn id k in
        absurd (cc (ap (λ o. (removed engine s o).1) runs, h))
    | inr k ↦ ap (λ o. get_all engine json (removed engine s o).0) (law.deletes_none s.conn id k)
  ]

-- With an engine that does what its statements say, the SQLite store has the laws that the clients of a
-- backend rely on, as the store in memory has, whatever order its statements give the rows in: an email
-- is found by its id in the list of all; nothing is left behind `clear`; `remove` answers whether the id
-- was there, and changes no list where it was not; what is served under a name is an attachment of the
-- email that has the name, and nothing only if none has.
pub sqlite_storage-IsLawful :
    {D : Type 0} {engine : Engine D} (law : IsSqlite engine) (json : Json)
    → IsLawful (sqlite_storage engine json)
sqlite_storage-IsLawful law json = record {
  get_by_id-find = get_by_id-find law json;
  get_all-clear = get_all-clear law json;
  remove-is_some = remove-is_some law json;
  get_all-remove_absent = remove_absent law json;
  get_attachment-Offers = get_attachment-Offers law json;
  get_attachment_lacking = get_attachment_lacking law json;
}
