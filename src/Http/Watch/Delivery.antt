-- ===== src/Http/Watch/Delivery.antt =====
-- From `DATA` of src/smtp.rs through the store of src/store.rs to a client of `handle_websocket` in
-- src/http.rs.
use smtp_sink.Prelude.{
  ℕ, zero, suc, ◌+◌, ◌-◌, ◌≤◌, ◌≡◌, refl, sym, subst, inl, inr, false, true, List, [], ◌∷◌, ◌++◌,
  some, is_some, Has, drop, length, length-append, arith,
}
use smtp_sink.Text.{Bytes, is_empty}
use smtp_sink.Text.Case.{CaseTables}
use smtp_sink.Email.{MailRecord}
use smtp_sink.Exec.{ok}
use smtp_sink.Store.Memory
use smtp_sink.Store.Memory.{MemoryStore, drop_oldest}
use smtp_sink.Store.Memory.Capacity.{drop_oldest-drop}
use smtp_sink.Store.Memory.Interface.{memory_storage}
use smtp_sink.Smtp.Session.{SmtpConfig}
use smtp_sink.Smtp.Message.{External, parse_email}
use smtp_sink.Smtp.Conn.{Conn}
use smtp_sink.Smtp.Data.{read_lines}
use smtp_sink.Smtp.Command.{needs_auth, run_data}
use smtp_sink.Smtp.Command.Transaction.{run_data_delivers}
use smtp_sink.Http.Socket.{Sent}
use smtp_sink.Http.Watch.{Channel, IsChannel, waiting, Watcher, shown}
use smtp_sink.Http.Watch.Behind.{read_all, read_all-IsUpToDate}

Has-drop_last :
    (n : ℕ) (es : List MailRecord) (e : MailRecord) → n ≤ length es → Has e (drop n (es ++ e ∷ []))
Has-drop_last zero [] e h = inl refl
Has-drop_last zero (d ∷ es) e h = inr (Has-drop_last zero es e (omega arith))
Has-drop_last (suc n) [] e h = absurd (omega (arith, h))
Has-drop_last (suc n) (d ∷ es) e h = Has-drop_last n es e (omega (arith, h))

-- A store that keeps at least one email has the one that was pushed last.
push-Has : (s : MemoryStore) (e : MailRecord) → 1 ≤ s.max → Has e (Memory.get_all (Memory.push s e))
unfolding Memory.push Memory.get_all
push-Has s e h = subst (Has e) (sym (drop_oldest-drop s.max (s.emails ++ e ∷ []))) (
    Has-drop_last (length (s.emails ++ e ∷ []) - s.max) s.emails e
      (omega (arith, h, length-append s.emails (e ∷ []))))

push_told :
    (s : MemoryStore) (e : MailRecord) (k : ℕ) → k ≡ s.notified → (Memory.push s e).notified ≡ 1 + k
unfolding Memory.push
push_told s e k h = omega (arith, h)

module _ {R : Type 0} {channel : Channel R} {capacity : ℕ} (tokio : IsChannel capacity channel)
    (ext : External) (config : SmtpConfig) (u : CaseTables) where
  -- With a broadcast channel that keeps a message at least and does what its documentation says, and a
  -- store in memory that keeps an email at least: where `DATA` may be given, the replies can be
  -- written and the message can be read, a client of the WebSocket that waits, with no notification left
  -- and able to be sent a list, is sent one with the message in two turns of its task, once the
  -- notification of the message was sent.
  pub run_data-shown :
      (n : ℕ) (c : Conn MemoryStore) {content : Bytes} {rest : List Bytes} (r : R)
      (sent : List Sent) (room : ℕ)
      → 1 ≤ capacity
      → 1 ≤ c.store.max
      → c.room ≡ suc (suc (suc (suc n)))
      → needs_auth c.session ≡ false
      → is_some c.session.mail_from ≡ true
      → is_empty c.session.rcpt_to ≡ false
      → read_lines [] c.input ≡ (ok content, rest)
      → tokio.seen r ≡ c.store.notified
      → let s = (run_data (memory_storage u) ext config c).1.store in
        let w : Watcher R = record { phase = waiting r; sent = sent; room = suc room } in
        (l : List MailRecord) × (shown
            (read_all (memory_storage u) (λ (t : MemoryStore). t.notified) tokio 1 s w).sent
          ≡ some l)
        × Has (parse_email ext (ext.stamp c.accepted) content c.session) l
  run_data-shown n c {content} {rest} r sent room kept keeps replies free sender recipient read
        seen =
      let email = parse_email ext (ext.stamp c.accepted) content c.session in
      let e =
        run_data_delivers (memory_storage u) ext config n c replies free sender recipient read in
      let s = Memory.push c.store email in
      let (r', phase, quiet, last) =
        read_all-IsUpToDate (memory_storage u) (λ (t : MemoryStore). t.notified) tokio 0 s sent
          (suc room) r (push_told c.store email (tokio.seen r) seen) kept (omega arith) in
      rw e (Memory.get_all s, last, push-Has c.store email keeps)
