-- ===== src/Server/Shared.antt =====
-- What holds of the one store that all tasks share, whatever the order of their turns.
use smtp_sink.Prelude.{
  All-append, All-middle, ◌≡◌, refl, sym, subst, Bool, true, false, List, ◌∷◌, ◌++◌, All, if_both,
}
use smtp_sink.Text.{Text, Bytes}
use smtp_sink.Email.{MailRecord}
use smtp_sink.Store.{EmailStorage}
use smtp_sink.Smtp.Session.{SmtpConfig, new, reset}
use smtp_sink.Smtp.Message.{External, parse_email}
use smtp_sink.Smtp.Conn.{Conn}
use smtp_sink.Smtp.Command.Steps.{SenderOk, Filled, same, more, write_flush-Step}
use smtp_sink.Smtp.Command.Verbs.{process_command-Step}
use smtp_sink.Smtp.Connection.{greet}
use smtp_sink.Http.{Request, serve, delete_all_emails, delete_email, get_email}
use smtp_sink.Sink.{Server, smtps, smtp}
use smtp_sink.Server.{
  spawn, run_one, Peer, Arrival, connected, accept_failed, shutdown, World, opened, run_smtp_server,
  run_smtps_server, run_server, joined, upgraded, Turn, accept, command, upgrade, close, request,
  Turns, here, next, started,
}

-- A property of the store that holds on, whatever the tasks do to it.
pub record IsKept {S : Type 0} (storage : EmailStorage S) (ext : External) (config : SmtpConfig)
    (Q : S → Type 0) : Type 0 where
  pub push : (s : S) (e : MailRecord) → Q s → Q (storage.push s e)
  pub clear : (s : S) → Q s → Q (storage.clear s)
  pub remove : (s : S) (id : Text) → Q s → Q (storage.remove s id).0

module _ {S : Type 0} (storage : EmailStorage S) (ext : External) (config : SmtpConfig)
    (Q : S → Type 0) (kept : IsKept storage ext config Q) where
  Filled-Q : {s t : S} → Filled storage ext config s t → Q s → Q t
  Filled-Q (same e) h = subst Q (sym e) h
  Filled-Q (more {t} n content session f ok e) h =
      subst Q (sym e) (kept.push t (parse_email ext (ext.stamp n) content session) (Filled-Q f h))

  serve-Q : (r : Request) (s : S) → Q s → Q (serve storage r s).1
  unfolding serve
  serve-Q delete_all_emails s h = kept.clear s h
  serve-Q (delete_email id) s h = kept.remove s id h
  serve-Q Request.index s h = h
  serve-Q Request.health_check s h = h
  serve-Q Request.not_found s h = h
  serve-Q (Request.get_emails q) s h = h
  serve-Q (get_email id) s h = h
  serve-Q (Request.list_attachments id) s h = h
  serve-Q (Request.get_attachment id f) s h = h
  serve-Q (Request.get_attachment_by_cid id f) s h = h

  -- Every sender is one that is allowed, and the store has the property.
  record Sound (w : World S) : Type 0 where
    senders : All (λ c. SenderOk ext config c.session) w.conns
    store : Q w.store

  opened-SenderOk :
      (tls : Bool) (peer : Peer) (w : World S)
      → SenderOk ext config (opened storage ext config tls peer w).session
  unfolding opened greet new
  opened-SenderOk tls peer w = (write_flush-Step storage ext config _ _).sender λ a e. cc e

  spawn-Sound :
      (tls : Bool) (peer : Peer) (w : World S)
      → Sound w
      → Sound (spawn storage ext config tls peer w)
  spawn-Sound tls peer w h = record {
    senders = (opened-SenderOk tls peer w, h.senders);
    store = h.store;
  }

  stop-Sound : (w : World S) → Sound w → Sound (record w { listening = false })
  stop-Sound w h = record { senders = h.senders; store = h.store }

  accept-Sound :
      (server : Server) (a : Arrival) (w : World S)
      → Sound w
      → Sound (run_server storage ext config server a w)
  unfolding run_smtp_server run_smtps_server
  accept-Sound smtps (connected peer) w h =
      if_both Sound w.listening (if_both Sound peer.handshake (spawn-Sound true peer w h) h) h
  accept-Sound smtps accept_failed w h = h
  accept-Sound smtps shutdown w h = stop-Sound w h
  accept-Sound smtp (connected peer) w h = if_both Sound w.listening (spawn-Sound false peer w h) h
  accept-Sound smtp accept_failed w h = h
  accept-Sound smtp shutdown w h = stop-Sound w h

  -- The connections on both sides of one, and that one.
  around :
      (w : World S) (before : List (Conn S)) (c : Conn S) (after : List (Conn S))
      → w.conns ≡ before ++ c ∷ after
      → Sound w
      → All (λ d. SenderOk ext config d.session) before
        × SenderOk ext config c.session
        × All (λ d. SenderOk ext config d.session) after
  around w before c after e h =
      All-middle (λ d. SenderOk ext config d.session) before c after
        (subst (All (λ d. SenderOk ext config d.session)) e h.senders)

  run_one-Sound :
      (w : World S) (before : List (Conn S)) (c : Conn S) (after : List (Conn S))
      → w.conns ≡ before ++ c ∷ after
      → Sound w
      → Sound (run_one storage ext config w before c after)
  unfolding run_one
  run_one-Sound w before c after e h =
      let (l, m, r) = around w before c after e h in
      let step = (process_command-Step storage ext config).at (joined storage ext config w c) in
      record {
        senders = All-append _ before _ l (step.sender m, r);
        store = Filled-Q (step.filled m) h.store;
      }

  upgraded-SenderOk :
      (sent : Bytes) (c : Conn S) → SenderOk ext config (upgraded storage ext config sent c).session
  unfolding reset
  upgraded-SenderOk sent c a e = cc e

  Turn-Sound :
      (server : Server) {w v : World S} → Turn storage ext config server w v → Sound w → Sound v
  Turn-Sound server (accept w a) h = accept-Sound server a w h
  Turn-Sound server (command w before c after e) h = run_one-Sound w before c after e h
  Turn-Sound server (upgrade w before c after sent e) h =
      let (l, m, r) = around w before c after e h in
      record { senders = All-append _ before _ l (upgraded-SenderOk sent c, r); store = h.store }
  Turn-Sound server (close w before c after e) h =
      let (l, m, r) = around w before c after e h in
      record { senders = All-append _ before after l r; store = h.store }
  Turn-Sound server (request w r) h = record {
    senders = h.senders;
    store = serve-Q r w.store h.store;
  }

  Turns-Sound :
      (server : Server) {w v : World S} → Turns storage ext config server w v → Sound w → Sound v
  Turns-Sound server here h = h
  Turns-Sound server (next ts t) h = Turn-Sound server t (Turns-Sound server ts h)

  -- What every operation keeps holds behind any turns of the tasks.
  pub Turns-Q :
      (server : Server) (s : S) {w : World S}
      → Q s
      → Turns storage ext config server (started storage ext config s) w
      → Q w.store
  Turns-Q server s h ts = (Turns-Sound server ts (record { senders = tt; store = h })).store

-- Behind any turns every sender is one that is allowed.
pub Turns-SenderOk :
    {S : Type 0} (storage : EmailStorage S) (ext : External) (config : SmtpConfig) (server : Server)
    (s : S) {w : World S}
    → Turns storage ext config server (started storage ext config s) w
    → All (λ c. SenderOk ext config c.session) w.conns
Turns-SenderOk storage ext config server s ts =
    (Turns-Sound storage ext config (λ _. Unit)
      (record { push = λ s e h. tt; clear = λ s h. tt; remove = λ s id h. tt }) server ts
      (record { senders = tt; store = tt })).senders

-- The accept loops leave the store as it is.
pub accept-store :
    {S : Type 0} (storage : EmailStorage S) (ext : External) (config : SmtpConfig) (server : Server)
    (a : Arrival) (w : World S)
    → (run_server storage ext config server a w).store ≡ w.store
unfolding run_smtp_server run_smtps_server
accept-store storage ext config smtps (connected peer) w =
    if_both (λ (v : World _). v.store ≡ w.store) w.listening
      (if_both (λ (v : World _). v.store ≡ w.store) peer.handshake refl refl) refl
accept-store storage ext config smtps accept_failed w = refl
accept-store storage ext config smtps shutdown w = refl
accept-store storage ext config smtp (connected peer) w =
    if_both (λ (v : World _). v.store ≡ w.store) w.listening refl refl
accept-store storage ext config smtp accept_failed w = refl
accept-store storage ext config smtp shutdown w = refl
