-- ===== src/Http/Watch.antt =====
-- `handle_websocket` of src/http.rs beside the tasks that change the store: the list is read and sent
-- first, the receiver is subscribed behind it, and each notification is followed by a new reading. The
-- tasks may come between any two of these. A method that changes the store gives its lock back before it
-- sends its notification, so that the change and the notification are two turns. The broadcast channel of tokio is an argument: as its messages
-- are all `()`, their number is all that there is to know of it.
pub mod Fresh
pub mod Behind
pub mod Delivery
use smtp_sink.Prelude.{ℕ, zero, suc, ◌+◌, ◌-◌, ◌≤◌, ◌<◌, ◌≡◌, List, [], ◌∷◌, Option, none, some}
use smtp_sink.Email.{MailRecord}
use smtp_sink.Store.{EmailStorage}
use smtp_sink.Store.Notify.{Change, changed}
use smtp_sink.Http.Socket.{
  Incoming, Event, notified, channel_error, received, Sent, emails, pong, Action, leave, stay, send,
  action_of,
}

-- What `recv` gives: it waits, it gives a message, with the receiver behind it, or it fails.
pub data Received (R : Type 0) : Type 0 where
  pending error : Received R
  message : R → Received R

-- The two numbers count the messages sent so far.
pub record Channel (R : Type 0) : Type 0 where
  pub subscribe : ℕ → R
  pub recv : R → ℕ → Received R

-- A receiver sees the messages that are sent behind its subscription, one at a time, and fails if more
-- of them are unseen than the channel keeps. The sender lives in the state of the server, so that the
-- channel is never closed.
pub record IsChannel {R : Type 0} (capacity : ℕ) (channel : Channel R) : Type 0 where
  pub seen : R → ℕ
  pub subscribes : (n : ℕ) → seen (channel.subscribe n) ≡ n
  pub waits : (r : R) (n : ℕ) → seen r ≡ n → channel.recv r n ≡ pending
  pub gives :
      (r : R) (n : ℕ)
      → seen r < n
      → n - seen r ≤ capacity
      → (r' : R) × (channel.recv r n ≡ message r') × (seen r' ≡ suc (seen r))
  pub lags : (r : R) (n : ℕ) → capacity < n - seen r → channel.recv r n ≡ error

pub data Phase (R : Type 0) : Type 0 where
  opening subscribing over : Phase R
  waiting reading : R → Phase R

-- A client: where its task is, what it was sent, the newest first, and how many sends still succeed.
pub record Watcher (R : Type 0) : Type 0 where
  pub phase : Phase R
  pub sent : List Sent
  pub room : ℕ

-- The list that the client was sent last.
abbrev pub shown : List Sent → Option (List MailRecord)
shown [] = none
shown (emails es ∷ rest) = some es
shown (pong bytes ∷ rest) = shown rest

module _ {S R : Type 0} (storage : EmailStorage S) (notified : S → ℕ) (channel : Channel R) where
  -- `sender.send(m)`, and the phase behind it.
  abbrev pub deliver : ℕ → Sent → Phase R → Watcher R → Watcher R
  deliver zero m next w = record w { phase = over }
  deliver (suc room) m next w = record { phase = next; sent = m ∷ w.sent; room = room }

  abbrev pub perform : Action → Phase R → Watcher R → Watcher R
  perform leave next w = record w { phase = over }
  perform stay next w = record w { phase = next }
  perform (send m) next w = deliver w.room m next w

  -- The phase behind `email_rx.recv()`.
  abbrev pub heard : R → Received R → Phase R
  heard r pending = waiting r
  heard r error = over
  heard r (message r') = reading r'

  -- The task goes on, up to the next place where others come between, when `k` messages were sent.
  abbrev pub go_on : Phase R → ℕ → S → Watcher R → Watcher R
  go_on opening k s w = perform (send (emails (storage.get_all s))) subscribing w
  go_on subscribing k s w = record w { phase = waiting (channel.subscribe k) }
  go_on (waiting r) k s w = record w { phase = heard r (channel.recv r k) }
  go_on (reading r) k s w = perform (action_of storage (Event.notified s)) (waiting r) w
  go_on over k s w = w

  unfoldable pub advance : ℕ → S → Watcher R → Watcher R
  unfolding action_of
  advance k s w = go_on w.phase k s w

  -- What comes from the client, while the task waits.
  abbrev pub hears : Phase R → Incoming → Watcher R → Watcher R
  hears (waiting r) i w = perform (action_of storage (received i)) (waiting r) w
  hears _ i w = w

  unfoldable pub incoming : Incoming → Watcher R → Watcher R
  unfolding action_of
  incoming i w = hears w.phase i w

  -- How many messages were sent, when so many are still owed for changes of the store.
  abbrev pub told : S → ℕ → ℕ
  told s owed = notified s - owed

  -- One turn of a task that changes the store, of one that sends the notification of a change, of
  -- the client's task, or of the client. `notified` counts the messages that are sent or still owed.
  pub data Turn : S → ℕ → Watcher R → S → ℕ → Watcher R → Type 0 where
    change :
        (c : Change) {s : S} {owed : ℕ} {w : Watcher R}
        → Turn s owed w
            (changed storage c s)
            (owed + (notified (changed storage c s) - notified s))
            w
    tell : {s : S} {owed : ℕ} {w : Watcher R} → Turn s (suc owed) w s owed w
    go : {s : S} {owed : ℕ} {w : Watcher R} → Turn s owed w s owed (advance (told s owed) s w)
    hear : (i : Incoming) {s : S} {owed : ℕ} {w : Watcher R} → Turn s owed w s owed (incoming i w)

  pub data Turns (s : S) (owed : ℕ) (w : Watcher R) : S → ℕ → Watcher R → Type 0 where
    here : Turns s owed w s owed w
    next :
        {t u : S} {m n : ℕ} {v x : Watcher R}
        → Turns s owed w t m v
        → Turn t m v u n x
        → Turns s owed w u n x

  abbrev pub connected : ℕ → Watcher R
  connected room = record { phase = opening; sent = []; room = room }
