-- ===== src/Tests/Watching.antt =====
-- The theorems on a client of the WebSocket, at concrete inputs.
use smtp_sink.Prelude.{Has, List, ℕ, suc, ◌-◌, ◌≡◌, refl, arith, ltb, if◌then◌else◌, some, [], ◌∷◌}
use smtp_sink.Store.Memory
use smtp_sink.Store.Memory.{MemoryStore}
use smtp_sink.Store.Notify.{push, memory_storage-IsNotifying}
use smtp_sink.Http.Socket.{Sent, emails, Incoming, ping}
use smtp_sink.Http.Watch.{
  pending, error, message, Channel, IsChannel, waiting, Watcher, shown, advance, Turns, here, next,
  change, tell, go, connected,
}
use smtp_sink.Http.Watch.Fresh.{waiting-shown}
use smtp_sink.Http.Watch.Behind.{
  read_all, IsUpToDate, read_all-IsUpToDate, Turns-shown_lost, push_missed,
}
use smtp_sink.Text.{codes}
use smtp_sink.Email.{MailRecord}
use smtp_sink.Smtp.Command.{run_data}
use smtp_sink.Smtp.Message.{parse_email}
use smtp_sink.Http.Watch.Delivery.{run_data-shown}
use smtp_sink.Tests.Setup.{conn, ext, open_config, tables, storage, email_of, empty_store}

abbrev channel : Channel ℕ
channel = record {
  subscribe = λ n. n;
  recv = λ r n. if ltb r n then (if ltb 16 (n - r) then error else message (suc r)) else pending;
}

unfoldable channel-IsChannel : IsChannel 16 channel
channel-IsChannel = record {
  seen = λ r. r;
  subscribes = λ n. refl;
  waits = λ r n h. ground arith;
  gives = λ r n h k. (suc r, ground arith, refl);
  lags = λ r n h. ground arith;
}

abbrev told : MemoryStore → ℕ
told s = s.notified

abbrev pushed : MemoryStore
pushed = Memory.push empty_store (email_of "1")

-- A client that was sent the list once, waited, and was sent it again behind a push.
abbrev watcher : Watcher ℕ
watcher = record { phase = waiting 1; sent = emails (email_of "1" ∷ []) ∷ emails [] ∷ []; room = 3 }

turns : Turns storage told channel empty_store 0 (connected storage told channel 5) pushed 0 watcher
unfolding advance Memory.push Memory.drop_oldest Memory.get_all smtp_sink.Http.Socket.action_of
turns = next (next (next (next (next (next here go) go) (change (push (email_of "1")))) tell) go) go

waiting-shown_example : shown watcher.sent ≡ some (storage.get_all pushed)
unfolding Memory.push
waiting-shown_example =
    waiting-shown (memory_storage-IsNotifying tables) channel-IsChannel empty_store pushed 0 5
      watcher 1 turns refl refl (omega arith)

read_all-IsUpToDate_example : IsUpToDate storage told channel-IsChannel pushed (
    read_all storage told channel-IsChannel 1 pushed
      (record { phase = waiting 0; sent = emails [] ∷ []; room = 2 }))
unfolding Memory.push channel-IsChannel
read_all-IsUpToDate_example =
    read_all-IsUpToDate storage told channel-IsChannel 0 pushed (emails [] ∷ []) 2 0 refl
      (omega arith) (omega arith)

-- A store behind seventeen notifications that the client has not read.
abbrev busy : MemoryStore
busy = record { max = 2; emails = email_of "1" ∷ []; notified = 17 }

abbrev late : Watcher ℕ
late = record { phase = waiting 0; sent = emails [] ∷ []; room = 2 }

Turns-shown_lost_example : shown (advance storage told channel 17 busy late).sent ≡ some []
unfolding channel-IsChannel
Turns-shown_lost_example =
    Turns-shown_lost storage told channel-IsChannel (memory_storage-IsNotifying tables) busy busy 0
      0 late (advance storage told channel 17 busy late) 0 refl (omega arith) (next here go)

push_missed_example :
    (w : Watcher ℕ) × (r : ℕ) × Turns storage told channel empty_store 0
      (connected storage told channel 3)
      (storage.push empty_store (email_of "1"))
      0
      w
    × (w.phase ≡ waiting r)
    × (channel.recv r (told (storage.push empty_store (email_of "1"))) ≡ pending)
    × (shown w.sent ≡ some (storage.get_all empty_store))
push_missed_example = push_missed storage told channel-IsChannel empty_store (email_of "1") 2

run_data-shown_example :
    let c = conn (codes "hi\r\n" ∷ codes ".\r\n" ∷ []) in
    let w : Watcher ℕ = record { phase = waiting 0; sent = emails [] ∷ []; room = 1 } in
    let t = (run_data storage ext open_config c).1.store in
    (l : List MailRecord) × (shown (read_all storage told channel-IsChannel 1 t w).sent ≡ some l)
    × Has (parse_email ext (ext.stamp 0) (codes "hi\r\n") c.session) l
unfolding smtp_sink.Smtp.Data.read_lines smtp_sink.Utf8.from_utf8 smtp_sink.Text.text_eq
    smtp_sink.Text.trim smtp_sink.Text.is_whitespace smtp_sink.Utf8.as_bytes
    smtp_sink.Text.starts_with channel-IsChannel
run_data-shown_example =
    run_data-shown channel-IsChannel ext open_config tables 5
      (conn (codes "hi\r\n" ∷ codes ".\r\n" ∷ [])) 0 (emails [] ∷ []) 0 (omega arith) (omega arith)
      refl refl refl refl refl refl
