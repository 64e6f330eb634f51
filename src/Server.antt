-- ===== src/Server.antt =====
-- The servers of src/smtp.rs and src/http.rs beside each other, on one store: the accept loops
-- `run_smtp_server` and `run_smtps_server`, the tasks that they spawn, and the requests of HTTP. A command
-- of a task and a request are one turn each, as each reads or changes the store once, under its lock; the turns
-- come in any order. A task may take more turns here than it does in the source: it may go on behind QUIT
-- and an error, and may change to TLS between any two commands.
pub mod Shared
pub mod Origin
pub mod Memory
pub mod Shutdown
pub mod Database
use smtp_sink.Prelude.{ℕ, Bool, true, false, List, [], ◌∷◌, ◌++◌, ◌≡◌, if◌then◌else◌, String}
use smtp_sink.Text.{Bytes}
use smtp_sink.Email.{MailRecord}
use smtp_sink.Store.{EmailStorage}
use smtp_sink.Smtp.Session.{SmtpConfig, Session, new, reset}
use smtp_sink.Smtp.Message.{External}
use smtp_sink.Smtp.Conn.{Conn, split_lines}
use smtp_sink.Smtp.Command.{process_command}
use smtp_sink.Smtp.Connection.{greet}
use smtp_sink.Http.{Request, serve}
use smtp_sink.Sink.{Server, smtps, smtp}

-- What a peer sends, through TLS where it is on from the start; whether the handshake succeeds, and how
-- long the peer stays to read.
pub record Peer : Type 0 where
  pub sent : Bytes
  pub handshake : Bool
  pub room : ℕ

-- What the `select!` of an accept loop gives.
pub data Arrival : Type 0 where
  connected : Peer → Arrival
  accept_failed shutdown : Arrival

-- The store, the queue of the forwarder, the number of emails taken in, and the connections.
pub record World (S : Type 0) : Type 0 where
  pub store : S
  pub forwarded : List MailRecord
  pub accepted : ℕ
  pub listening : Bool
  pub conns : List (Conn S)

module _ {S : Type 0} (storage : EmailStorage S) (ext : External) (config : SmtpConfig) where
  -- A connection as it meets what all tasks share.
  abbrev pub joined : World S → Conn S → Conn S
  joined w c = record c { store = w.store; forwarded = w.forwarded; accepted = w.accepted }

  -- What is shared is left by the connection that has just run.
  abbrev pub shared_by : Conn S → List (Conn S) → World S → World S
  shared_by c conns w = record w {
    store = c.store;
    forwarded = c.forwarded;
    accepted = c.accepted;
    conns = conns;
  }

  -- A spawned task behind its greeting.
  unfoldable pub opened : Bool → Peer → World S → Conn S
  opened tls peer w =
      (greet (record {
        session = new config.auth_required tls;
        input = split_lines peer.sent;
        output = [];
        room = peer.room;
        store = w.store;
        forwarded = w.forwarded;
        accepted = w.accepted;
      })).1

  abbrev pub spawn : Bool → Peer → World S → World S
  spawn tls peer w = record w { conns = opened tls peer w ∷ w.conns }

  -- One turn of the accept loop, which is over behind the shutdown.
  unfoldable pub run_smtp_server : Arrival → World S → World S
  unfolding opened
  run_smtp_server (connected peer) w = if w.listening then spawn false peer w else w
  run_smtp_server accept_failed w = w
  run_smtp_server shutdown w = record w { listening = false }

  unfoldable pub run_smtps_server : Arrival → World S → World S
  unfolding opened
  run_smtps_server (connected peer) w =
      if w.listening then (if peer.handshake then spawn true peer w else w) else w
  run_smtps_server accept_failed w = w
  run_smtps_server shutdown w = record w { listening = false }

  abbrev pub run_server : Server → Arrival → World S → World S
  run_server smtps = run_smtps_server
  run_server smtp = run_smtp_server

  -- The connection `c` runs a command.
  unfoldable pub run_one : World S → List (Conn S) → Conn S → List (Conn S) → World S
  run_one w before c after =
      let d = (process_command storage ext config (joined w c)).1 in
      shared_by d (before ++ d ∷ after) w

  -- The session and the input of a connection that changes to TLS, with what comes through it.
  abbrev pub upgraded : Bytes → Conn S → Conn S
  upgraded sent c = record c {
    session = reset (record c.session { tls_active = true });
    input = split_lines sent;
  }

  -- One turn of any task.
  pub data Turn (server : Server) : World S → World S → Type 0 where
    accept : (w : World S) (a : Arrival) → Turn server w (run_server server a w)
    command :
        (w : World S) (before : List (Conn S)) (c : Conn S) (after : List (Conn S))
        → w.conns ≡ before ++ c ∷ after
        → Turn server w (run_one w before c after)
    upgrade :
        (w : World S) (before : List (Conn S)) (c : Conn S) (after : List (Conn S)) (sent : Bytes)
        → w.conns ≡ before ++ c ∷ after
        → Turn server w (record w { conns = before ++ upgraded sent c ∷ after })
    close :
        (w : World S) (before : List (Conn S)) (c : Conn S) (after : List (Conn S))
        → w.conns ≡ before ++ c ∷ after
        → Turn server w (record w { conns = before ++ after })
    request :
        (w : World S) (r : Request)
        → Turn server w (record w { store = (serve storage r w.store).1 })

  pub data Turns (server : Server) (w : World S) : World S → Type 0 where
    here : Turns server w w
    next : {v x : World S} → Turns server w v → Turn server v x → Turns server w x

  -- The servers as they are started on a store.
  abbrev pub started : S → World S
  started s = record { store = s; forwarded = []; accepted = 0; listening = true; conns = [] }

  -- `RunningServers::stop`: once the loops are told to end, any turns may come until they take the
  -- shutdown, arrivals among them; it waits for the loops, not for the tasks that they have
  -- spawned, and closes the store.
  pub data Stops (close_store : S → S) (server : Server) (w : World S) : World S → Type 0 where
    stops :
        {v x : World S}
        → Turns server w v
        → Turns server (run_server server shutdown v) x
        → Stops close_store server w (record x { store = close_store x.store })
