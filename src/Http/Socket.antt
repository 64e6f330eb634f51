-- ===== src/Http/Socket.antt =====
-- `handle_websocket` of src/http.rs: what it sends to one client, given the events that its `select!`
-- sees, in order. `room` is the number of sends that still succeed.
use smtp_sink.Prelude.{ℕ, zero, suc, List, [], ◌∷◌, ◌++◌, ◌≡◌, refl, ap}
use smtp_sink.Text.{Bytes}
use smtp_sink.Email.{MailRecord}
use smtp_sink.Store.{EmailStorage}

-- What the client's side of the socket gives.
pub data Incoming : Type 0 where
  ended failed close other : Incoming
  ping : Bytes → Incoming

-- A notification, with the state of the backend as it is read behind it; an error of the channel; or
-- something from the client.
pub data Event (S : Type 0) : Type 0 where
  notified : S → Event S
  channel_error : Event S
  received : Incoming → Event S

pub data Sent : Type 0 where
  emails : List MailRecord → Sent
  pong : Bytes → Sent

-- What an event makes the loop do.
pub data Action : Type 0 where
  leave stay : Action
  send : Sent → Action

module _ {S : Type 0} (storage : EmailStorage S) where
  unfoldable pub action_of : Event S → Action
  action_of (notified s) = send (emails (storage.get_all s))
  action_of channel_error = leave
  action_of (received ended) = leave
  action_of (received failed) = leave
  action_of (received close) = leave
  action_of (received (ping bytes)) = send (pong bytes)
  action_of (received other) = stay

  -- The action, in front of the rest of the loop.
  abbrev pub act : Action → ℕ → (ℕ → List Sent) → List Sent
  act leave room rest = []
  act stay room rest = rest room
  act (send m) zero rest = []
  act (send m) (suc room) rest = m ∷ rest room

  unfoldable pub ws_loop : List (Event S) → ℕ → List Sent
  unfolding action_of
  ws_loop [] room = []
  ws_loop (e ∷ es) room = act (action_of e) room (ws_loop es)

  unfoldable pub handle_websocket : S → List (Event S) → ℕ → List Sent
  unfolding ws_loop
  handle_websocket s es room = act (send (emails (storage.get_all s))) room (ws_loop es)

  act_ext :
      (a : Action) (room : ℕ) (f g : ℕ → List Sent)
      → ((n : ℕ) → f n ≡ g n)
      → act a room f ≡ act a room g
  act_ext leave room f g h = refl
  act_ext stay room f g h = h room
  act_ext (send m) zero f g h = refl
  act_ext (send m) (suc room) f g h = ap (◌∷◌ m) (h room)

  loop_leave :
      (es ds : List (Event S)) (e : Event S)
      → action_of e ≡ leave
      → (room : ℕ) → ws_loop (es ++ e ∷ ds) room ≡ ws_loop es room
  unfolding ws_loop
  loop_leave [] ds e h room = rw h refl
  loop_leave (d ∷ es) ds e h room = act_ext (action_of d) room _ _ (loop_leave es ds e h)

  -- Behind an event that ends the loop (an error of the channel, or the end, an error or a close from
  -- the client) nothing more is sent.
  pub handle_websocket-leave :
      (s : S) (es ds : List (Event S)) (e : Event S) (room : ℕ)
      → action_of e ≡ leave
      → handle_websocket s (es ++ e ∷ ds) room ≡ handle_websocket s es room
  unfolding handle_websocket
  handle_websocket-leave s es ds e room h =
      act_ext (send (emails (storage.get_all s))) room _ _ (loop_leave es ds e h)
