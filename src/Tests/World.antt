-- ===== src/Tests/World.antt =====
-- The theorems on the servers beside each other, at concrete inputs.
use smtp_sink.Prelude.{some, ◌≡◌, ◌≤◌, refl, All, length, true, false, [], ◌∷◌}
use smtp_sink.Text.{Bytes, codes}
use smtp_sink.Email.{MailRecord}
use smtp_sink.Store.{EmailStorage}
use smtp_sink.Smtp.Session.{Session}
use smtp_sink.Smtp.Message.{unparsed}
use smtp_sink.Smtp.Conn
use smtp_sink.Http.{serve, get_email, plain, email}
use smtp_sink.Smtp.Conn.{Conn, split_lines}
use smtp_sink.Smtp.Command.{process_command}
use smtp_sink.Store.Memory.{MemoryStore, new}
use smtp_sink.Store.Sqlite.{get_all, sqlite_storage}
use smtp_sink.Sink.{smtp}
use smtp_sink.Server.{
  Peer, connected, World, Turns, here, next, accept, command, started, run_server, run_one, opened,
  joined, Stops, stops, Turn, run_smtp_server,
}
use smtp_sink.Server.Origin.{Received}
use smtp_sink.Server.Memory.{Turns-Sound, get_email-Received}
use smtp_sink.Server.Database.{Turns-IsWithin}
use smtp_sink.Server.Shutdown.{Stops-length, Stops-leaves}
use smtp_sink.Tests.Setup.{tables, ext, open_config, storage, ready, stamp_of}
use smtp_sink.Tests.Engine.{engine}
use smtp_sink.Tests.Engine.Encoding.{json}
use smtp_sink.Tests.Engine.Laws.{engine-IsSqlite}
use smtp_sink.Tests.Database.{full, one_email}

-- A peer that delivers one message.
abbrev peer : Peer
peer = record {
  sent = codes "MAIL FROM:<a>\r\nRCPT TO:<b>\r\nDATA\r\nhi\r\n.\r\n";
  handshake = true;
  room = 20;
}

-- Its connection, from the start of the servers to the message that is stored.
module _ {S : Type 0} (backend : EmailStorage S) (s : S) where
  abbrev first : World S
  first = started backend ext open_config s

  abbrev greeted : World S
  greeted = run_server backend ext open_config smtp (connected peer) first

  abbrev conn0 : Conn S
  conn0 = opened backend ext open_config false peer first

  abbrev after_command : World S → Conn S → Conn S
  after_command w c =
      (process_command backend ext open_config (joined backend ext open_config w c)).1

  abbrev with_sender : World S
  with_sender = run_one backend ext open_config greeted [] conn0 []

  abbrev conn1 : Conn S
  conn1 = after_command greeted conn0

  abbrev with_recipient : World S
  with_recipient = run_one backend ext open_config with_sender [] conn1 []

  abbrev conn2 : Conn S
  conn2 = after_command with_sender conn1

  abbrev delivered : World S
  delivered = run_one backend ext open_config with_recipient [] conn2 []

  turns : Turns backend ext open_config smtp first delivered
  unfolding run_one smtp_sink.Server.run_smtp_server
  turns =
      next
        (next (next (next here (accept first (connected peer))) (command greeted [] conn0 [] refl))
          (command with_sender [] conn1 [] refl))
        (command with_recipient [] conn2 [] refl)

abbrev in_memory : World MemoryStore
in_memory = delivered storage (new 1)

Turns-Sound_example :
    All (Received storage ext open_config (turns storage (new 1))) in_memory.store.emails
    × (length in_memory.store.emails ≤ 1)
Turns-Sound_example = Turns-Sound tables ext open_config 1 smtp (turns storage (new 1))

-- In front of the store for one email, with one in it.
Turns-IsWithin_example :
    length (get_all engine json (delivered (sqlite_storage engine json) full).store) ≤ 1
Turns-IsWithin_example =
    Turns-IsWithin engine-IsSqlite json ext open_config smtp full one_email
      (turns (sqlite_storage engine json) full)

-- A peer comes between the message of `stop` and the end of the loop.
abbrev stopped_late : World MemoryStore
stopped_late =
    record (run_server storage ext open_config smtp (connected peer)
      (started storage ext open_config (new 1))) { listening = false }

stopped_late-Stops :
    Stops storage ext open_config
      (λ s. s)
      smtp
      (started storage ext open_config (new 1))
      stopped_late
unfolding run_smtp_server
stopped_late-Stops =
    stops (next here (accept (started storage ext open_config (new 1)) (connected peer))) here

Stops-length_example :
    let w = run_server storage ext open_config smtp (connected peer) stopped_late in
    (w.listening ≡ false) × (length w.conns ≤ length stopped_late.conns)
Stops-length_example =
    Stops-length storage ext open_config smtp (λ s. s) (started storage ext open_config (new 1))
      stopped_late-Stops (next here (accept stopped_late (connected peer)))

Stops-leaves_example :
    let c = opened storage ext open_config false peer (started storage ext open_config (new 1)) in
    (v : World MemoryStore) × Stops storage ext open_config
      (λ s. s)
      smtp
      (greeted storage (new 1))
      v
    × (v.store ≡ (greeted storage (new 1)).store)
    × Turn storage ext open_config smtp v (run_one storage ext open_config v [] c [])
unfolding run_smtp_server
Stops-leaves_example =
    Stops-leaves storage ext open_config smtp (λ s. s) (greeted storage (new 1)) []
      (opened storage ext open_config false peer (started storage ext open_config (new 1))) [] refl

abbrev transaction : Session
transaction = record ready { mail_from = some (codes "a"); rcpt_to = codes "b" ∷ [] }

abbrev message : MailRecord
message = unparsed (stamp_of 0) (codes "hi\r\n") transaction

shown : (serve storage (get_email message.id) in_memory.store).0 ≡ plain 200 (email message)
unfolding smtp_sink.Smtp.Connection.greet smtp_sink.Exec.◌>>=◌ Conn.write_all Conn.flush
    process_command Conn.read_line split_lines smtp_sink.Utf8.from_utf8
    smtp_sink.Smtp.Command.run_line smtp_sink.Smtp.Session.new smtp_sink.Smtp.Command.verb_of
    smtp_sink.Text.starts_with smtp_sink.Text.Case.to_uppercase smtp_sink.Text.trim
    smtp_sink.Text.is_whitespace smtp_sink.Smtp.Command.run_mail smtp_sink.Text.Slice.slice_from
    smtp_sink.Smtp.Address.extract_address smtp_sink.Text.Slice.find_char smtp_sink.Text.Slice.slice
    smtp_sink.Smtp.Command.sender_allowed smtp_sink.Smtp.Command.run_rcpt
    smtp_sink.Smtp.Command.run_data smtp_sink.Smtp.Command.receive_email
    smtp_sink.Smtp.Data.read_data smtp_sink.Text.text_eq smtp_sink.Utf8.as_bytes
    smtp_sink.Smtp.Message.parse_email smtp_sink.Smtp.Session.reset smtp_sink.Store.Memory.push
    run_one opened smtp_sink.Server.run_smtp_server serve smtp_sink.Store.Memory.get_by_id new
    smtp_sink.Http.email_response
shown = refl

get_email-Received_example : Received storage ext open_config (turns storage (new 1)) message
get_email-Received_example =
    get_email-Received tables ext open_config 1 smtp message.id message (turns storage (new 1))
      shown
