-- ===== src/Server/Shutdown.antt =====
-- What may still happen behind `RunningServers::stop`.
use smtp_sink.Prelude.{
  ◌≡◌, ◌≤◌, refl, sym, subst, ap, false, List, ◌∷◌, ◌++◌, length, length-append, arith,
}
use smtp_sink.Store.{EmailStorage}
use smtp_sink.Smtp.Session.{SmtpConfig}
use smtp_sink.Smtp.Message.{External}
use smtp_sink.Smtp.Conn.{Conn}
use smtp_sink.Sink.{Server, smtps, smtp}
use smtp_sink.Server.{
  Arrival, connected, accept_failed, shutdown, World, run_smtp_server, run_smtps_server, run_server,
  run_one, Turn, accept, command, upgrade, close, request, Turns, here, next, Stops, stops,
}

length-middle :
    {A : Type 0} (xs : List A) (x y : A) (zs : List A)
    → length (xs ++ x ∷ zs) ≡ length (xs ++ y ∷ zs)
length-middle xs x y zs = omega (arith, length-append xs (x ∷ zs), length-append xs (y ∷ zs))

module _ {S : Type 0} (storage : EmailStorage S) (ext : External) (config : SmtpConfig) where
  -- No loop accepts, and no connection has come since.
  abbrev Deaf : World S → World S → Type 0
  Deaf w v = (v.listening ≡ false) × (length v.conns ≤ length w.conns)

  accept-Deaf :
      (server : Server) (a : Arrival) (w : World S)
      → w.listening ≡ false
      → Deaf w (run_server storage ext config server a w)
  unfolding run_smtp_server run_smtps_server
  accept-Deaf smtps (connected peer) w h = rw h (refl, omega arith)
  accept-Deaf smtps accept_failed w h = (h, omega arith)
  accept-Deaf smtps shutdown w h = (refl, omega arith)
  accept-Deaf smtp (connected peer) w h = rw h (refl, omega arith)
  accept-Deaf smtp accept_failed w h = (h, omega arith)
  accept-Deaf smtp shutdown w h = (refl, omega arith)

  Turn-Deaf :
      (server : Server) {w v : World S}
      → Turn storage ext config server w v
      → w.listening ≡ false
      → Deaf w v
  unfolding run_one
  Turn-Deaf server (accept w a) h = accept-Deaf server a w h
  Turn-Deaf server (command w before c after e) h =
      (h, omega (arith, ap length e, length-middle before c _ after))
  Turn-Deaf server (upgrade w before c after sent e) h =
      (h, omega (arith, ap length e, length-middle before c _ after))
  Turn-Deaf server (close w before c after e) h =
      (h, omega (arith, ap length e, length-append before (c ∷ after), length-append before after))
  Turn-Deaf server (request w r) h = (h, omega arith)

  Turns-Deaf :
      (server : Server) {w v : World S}
      → Turns storage ext config server w v
      → w.listening ≡ false
      → Deaf w v
  Turns-Deaf server here h = (h, omega arith)
  Turns-Deaf server (next ts t) h =
      let (l, n) = Turns-Deaf server ts h in
      let (l', n') = Turn-Deaf server t l in (l', omega (arith, n, n'))

  listening_over :
      (server : Server) (v : World S)
      → (run_server storage ext config server shutdown v).listening ≡ false
  unfolding run_smtp_server run_smtps_server
  listening_over smtps v = refl
  listening_over smtp v = refl

  -- Whatever arrives and whatever the tasks do ahead of a stop, during it and behind it: when it has
  -- returned no loop accepts any more, then or later, and there are never more connections
  -- than at that moment.
  pub Stops-length :
      (server : Server) (close_store : S → S) (w : World S) {v x : World S}
      → Stops storage ext config close_store server w v
      → Turns storage ext config server v x
      → (x.listening ≡ false) × (length x.conns ≤ length v.conns)
  Stops-length server close_store w (stops {v} before during) behind =
      Turns-Deaf server behind (Turns-Deaf server during (listening_over server v)).0

  shutdown_only :
      (server : Server) (w : World S)
      → run_server storage ext config server shutdown w ≡ record w { listening = false }
  unfolding run_smtp_server run_smtps_server
  shutdown_only smtps w = refl
  shutdown_only smtp w = refl

  -- A stop may return while any connection is open, with the store closed, and that connection may then
  -- run a command on the closed store.
  pub Stops-leaves :
      (server : Server) (close_store : S → S) (w : World S) (before : List (Conn S)) (c : Conn S)
      (after : List (Conn S))
      → w.conns ≡ before ++ c ∷ after
      → (v : World S) × Stops storage ext config close_store server w v
        × (v.store ≡ close_store w.store)
        × Turn storage ext config server v (run_one storage ext config v before c after)
  Stops-leaves server close_store w before c after e =
      let v = record w { listening = false } in
      let x = record v { store = close_store v.store } in
      (
        x,
        stops here
            (subst (λ y. Turns storage ext config server y v) (sym (shutdown_only server w)) here),
        refl,
        command x before c after e,
      )
