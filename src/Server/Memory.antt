-- ===== src/Server/Memory.antt =====
-- The servers on the store in memory.
use smtp_sink.Prelude.{
  ℕ, zero, suc, ◌≤◌, ◌≡◌, ◌∙◌, refl, List, [], ◌∷◌, ◌++◌, Option, none, some, length, ltb, arith,
  if_both, All, All-append, All-Has, find-Has, Option-cases, inl, inr, subst, sym, All-middle,
}
use smtp_sink.Text.{Text}
use smtp_sink.Text.Case.{CaseTables}
use smtp_sink.Email.{MailRecord, has_id}
use smtp_sink.Store.Memory.{
  MemoryStore, new, push, clear, remove, drop_oldest, position, remove_at, get_by_id,
}
use smtp_sink.Store.Memory.Capacity.{pushed, cleared, removed, Step-Good}
use smtp_sink.Store.Memory.Interface.{memory_storage}
use smtp_sink.Smtp.Session.{SmtpConfig}
use smtp_sink.Smtp.Message.{External}
use smtp_sink.Http.{
  Request, delete_all_emails, delete_email, serve, get_email, plain, email, email_response,
}
use smtp_sink.Sink.{Server}
use smtp_sink.Smtp.Conn.{Conn}
use smtp_sink.Smtp.Command.{process_command}
use smtp_sink.Smtp.Command.Steps.{SenderOk}
use smtp_sink.Smtp.Command.Stores.{Stores, nothing, one, process_command-Stores}
use smtp_sink.Server.{
  World, Turn, Turns, started, run_one, joined, accept, command, upgrade, close, request, here,
  next,
}
use smtp_sink.Server.Shared.{IsKept, Turns-Q, Turns-SenderOk, accept-store}
use smtp_sink.Server.Origin.{Pushes, PushedBy, Received}

module _ (P : MailRecord → Type 0) where
  All-drop_oldest : (max : ℕ) (es : List MailRecord) → All P es → All P (drop_oldest max es)
  unfolding drop_oldest
  All-drop_oldest max [] h = tt
  All-drop_oldest max (e ∷ es) h =
      let rest = All-drop_oldest max es h.1 in if_both (All P) (ltb max (length (e ∷ es))) rest h

  All-remove_at : (i : ℕ) (es : List MailRecord) → All P es → All P (remove_at i es)
  unfolding remove_at
  All-remove_at i [] h = tt
  All-remove_at zero (e ∷ es) h = h.1
  All-remove_at (suc i) (e ∷ es) h = (h.0, All-remove_at i es h.1)

  All-remove : (s : MemoryStore) (id : Text) → All P s.emails → All P (remove s id).0.emails
  unfolding remove
  All-remove s id h = elim (Option-cases (position id s.emails)) [
    | inl e ↦ rw (e, remove) h
    | inr (i, e) ↦ rw (e, remove) (All-remove_at i s.emails h)
  ]

module _ (u : CaseTables) (P : MailRecord → Type 0) where
  -- A request takes no email in.
  serve-All :
      (r : Request) (s : MemoryStore)
      → All P s.emails
      → All P (serve (memory_storage u) r s).1.emails
  unfolding serve clear
  serve-All delete_all_emails s h = tt
  serve-All (delete_email id) s h = All-remove P s id h
  serve-All Request.index s h = h
  serve-All Request.health_check s h = h
  serve-All Request.not_found s h = h
  serve-All (Request.get_emails q) s h = h
  serve-All (get_email id) s h = h
  serve-All (Request.list_attachments id) s h = h
  serve-All (Request.get_attachment id f) s h = h
  serve-All (Request.get_attachment_by_cid id f) s h = h

All-map :
    (P Q : MailRecord → Type 0) (es : List MailRecord)
    → ((e : MailRecord) → P e → Q e)
    → All P es
    → All Q es
All-map P Q [] f h = tt
All-map P Q (e ∷ es) f h = (f e h.0, All-map P Q es f h.1)

module _ (u : CaseTables) (ext : External) (config : SmtpConfig) (max : ℕ) where
  -- The emails are within the bound.
  abbrev Within : MemoryStore → Type 0
  Within s = (length s.emails ≤ s.max) × (s.max ≡ max)

  Within-IsKept : IsKept (memory_storage u) ext config Within
  unfolding push clear
  Within-IsKept = record {
    push = λ s e h. let (m, b, n) = Step-Good (pushed s e) h.0 in (b, m ∙ h.1);
    clear = λ s h. let (m, b, n) = Step-Good (cleared s) h.0 in (b, m ∙ h.1);
    remove = λ s id h. let (m, b, n) = Step-Good (removed s id) h.0 in (b, m ∙ h.1);
  }

  abbrev first : World MemoryStore
  first = started (memory_storage u) ext config (new max)

  command-All :
      (P : MailRecord → Type 0) (w : World MemoryStore) (before : List (Conn MemoryStore))
      (c : Conn MemoryStore) (after : List (Conn MemoryStore))
      → ((e : MailRecord) → Pushes (memory_storage u) ext config w before c after e → P e)
      → SenderOk ext config c.session
      → All P w.store.emails
      → All P (run_one (memory_storage u) ext config w before c after).store.emails
  unfolding run_one push
  command-All P w before c after new_one allowed old = of_stores (
      process_command-Stores (memory_storage u) ext config
        (joined (memory_storage u) ext config w c) allowed)
    where
      of_stores :
          let x = joined (memory_storage u) ext config w c in
          let d = (process_command (memory_storage u) ext config x).1 in
          Stores (memory_storage u) ext config x d → All P d.store.emails
      of_stores (nothing s) = subst (λ (t : MemoryStore). All P t.emails) (sym s.store) old
      of_stores (one n content e a r s f) =
          subst (λ (t : MemoryStore). All P t.emails) (sym s)
            (All-drop_oldest P w.store.max (w.store.emails ++ e ∷ []) (
              All-append P w.store.emails (e ∷ []) old (
                new_one e (record {
                  acceptable = a;
                  content = content;
                  number = n;
                  read = r;
                  pushed = s;
                }),
                tt,
              )))

  -- What holds of the emails ahead of a turn, and of one that it pushes, holds behind it.
  Turn-All :
      (P : MailRecord → Type 0) (server : Server) {w v : World MemoryStore}
      (t : Turn (memory_storage u) ext config server w v)
      → ((e : MailRecord) → PushedBy (memory_storage u) ext config t e → P e)
      → All (λ d. SenderOk ext config d.session) w.conns
      → All P w.store.emails
      → All P v.store.emails
  unfolding PushedBy
  Turn-All P server (command w before c after p) new_one allowed old =
      command-All P w before c after new_one
        (All-middle (λ d. SenderOk ext config d.session) before c after
          (subst (All (λ d. SenderOk ext config d.session)) p allowed)).1
        old
  Turn-All P server (accept w a) new_one allowed old =
      subst (λ (t : MemoryStore). All P t.emails)
        (sym (accept-store (memory_storage u) ext config server a w)) old
  Turn-All P server (upgrade w before c after sent p) new_one allowed old = old
  Turn-All P server (close w before c after p) new_one allowed old = old
  Turn-All P server (request w r) new_one allowed old = serve-All u P r w.store old

  Turns-Received :
      (server : Server) {w : World MemoryStore}
      (ts : Turns (memory_storage u) ext config server first w)
      → All (Received (memory_storage u) ext config ts) w.store.emails
  unfolding Received new
  Turns-Received server here = tt
  Turns-Received server (next {v} ts t) =
      Turn-All (Received (memory_storage u) ext config (next ts t)) server t (λ e h. inl h)
        (Turns-SenderOk (memory_storage u) ext config server (new max) ts)
        (All-map (Received (memory_storage u) ext config ts) _ v.store.emails (λ e h. inr h)
          (Turns-Received server ts))

  -- Whatever the peers send, on however many connections, and in whatever order their commands and the
  -- requests of HTTP reach the store, which was empty at the start: it never holds more emails than its
  -- maximum, and each was pushed in one of the turns by a command of a connection whose session was, in
  -- that turn, logged in, if that is required, and had an allowed sender and a recipient.
  pub Turns-Sound :
      (server : Server) {w : World MemoryStore}
      (ts : Turns
        (memory_storage u)
        ext
        config
        server
        (started (memory_storage u) ext config (new max))
        w)
      → All (Received (memory_storage u) ext config ts) w.store.emails
        × (length w.store.emails ≤ max)
  unfolding new
  Turns-Sound server ts =
      let (b, m) =
        Turns-Q (memory_storage u) ext config Within Within-IsKept server (new max)
          (omega arith, refl) ts in
      (Turns-Received server ts, omega (arith, b, m))

  of_email :
      (o : Option MailRecord) (e : MailRecord) → email_response o ≡ plain 200 (email e) → o ≡ some e
  unfolding email_response
  of_email none e h = cc h
  of_email (some x) e h = cc h

  -- On a store that was empty at the start, whatever the tasks did to it in whatever order: an
  -- email that HTTP shows under an id was pushed in one of the turns by a command of a connection whose
  -- session was, in that turn, logged in, if that is required, and had an allowed sender and a recipient.
  pub get_email-Received :
      (server : Server) {w : World MemoryStore} (id : Text) (e : MailRecord)
      (ts : Turns
        (memory_storage u)
        ext
        config
        server
        (started (memory_storage u) ext config (new max))
        w)
      → (serve (memory_storage u) (get_email id) w.store).0 ≡ plain 200 (email e)
      → Received (memory_storage u) ext config ts e
  unfolding serve get_by_id
  get_email-Received server {w} id e ts h =
      All-Has (Received (memory_storage u) ext config ts) e w.store.emails (Turns-Sound server ts).0
        (find-Has (has_id id) e w.store.emails (of_email _ e h))
