-- ===== src/Lib.antt =====
-- smtp-sink: an SMTP server that accepts every message, keeps the newest in a store, and shows them
-- by HTTP and over a WebSocket. This library models the program's logic and proves what it
-- promises.
--
-- The parts, and the files that model them:
--   * src/email.rs, the records of an email and an attachment: Email.
--   * src/store.rs, the trait `EmailStorage` with the laws that its clients rely on: Store/Defs;
--     the filter of a query: Store/Query, and what it means: Store/Query/Meaning; `MemoryStore`:
--     Store/Memory, its bound and order: Store/Memory/Capacity, lookups and removals:
--     Store/Memory/Lookup, the results of a query: Store/Memory/Queries, the laws of the trait:
--     Store/Memory/Interface.
--   * src/sqlite_store.rs: the rows and the statements: Store/Rows; `SqliteStore`: Store/Sqlite, with
--     what it relies on of SQLite in Store/Sqlite/Laws; emails by their key: Store/Sqlite/Lookup;
--     attachments: Store/Sqlite/Attachments; what `push` leaves in the tables:
--     Store/Sqlite/Insertion and Push, and of the other emails: Store/Sqlite/Others; the bound:
--     Store/Sqlite/Capacity; its filter beside that of the store in memory: Store/Sqlite/Conditions
--     and Queries; the laws of the trait: Store/Sqlite/Interface.
--   * The two backends given the same calls: Store/Agree, with Cut (what the bound leaves), Push,
--     Remove, Run (any sequence of calls) and Answers; what both promise their subscribers:
--     Store/Notify.
--   * src/smtp.rs. `SmtpConfig`, `Session`, `AuthState`: Smtp/Session. `extract_address`:
--     Smtp/Address. `parse_email`: Smtp/Message and Smtp/Message/Parsed. The stream of a
--     connection: Smtp/Conn. `read_data`: Smtp/Data, with the sender's side in Smtp/Data/Stuffing
--     and Smtp/Data/Wire. `verify_plain_auth` and the exchanges of AUTH: Smtp/Auth, with the
--     messages of the two mechanisms in Smtp/Auth/Plain and Smtp/Auth/Login. `process_command`:
--     Smtp/Command, one function for each branch; what a command may do to a connection:
--     Smtp/Command/Steps, Receive and Verbs; what it stores, and for whom:
--     Smtp/Command/Same and Stores; how a line is read: Lines; a transaction: Transaction.
--     `handle_connection`, `handle_tls_connection` and `handle_tls_session`: Smtp/Connection, with
--     Progress (they end), Leaves (what every command keeps holds at the end), Login (who may
--     store), Upgrade (STARTTLS) and Panics (an argument that ends the task).
--   * src/http.rs, the handlers of the routes: Http, and what a client sees: Http/Laws; the
--     WebSocket loop: Http/Socket, and beside the tasks that change the store: Http/Watch, with Fresh
--     (what a client shows when it waits), Behind (what it has still to read) and Delivery (from DATA to
--     a client). The table of routes: Http/Routes, with Patterns, Reached, Handlers and Answered
--     (which requests reach which handler).
--   * src/lib.rs, `start_sink`, with the whitelist argument of src/main.rs and the configuration of
--     src/forward.rs: Sink; when the servers start: Sink/Start; whom the whitelist lets in:
--     Sink/Whitelist; the command line of src/main.rs: Sink/CommandLine; what is printed, the texts of
--     the errors, and `main` until it waits for a signal: Sink/Report and Sink/Report/Exits.
--   * `run_smtp_server` and `run_smtps_server` of src/smtp.rs, `RunningServers::stop` of src/lib.rs,
--     and all tasks on one store: Server; what they leave in any order: Server/Shared, with the store
--     in memory: Server/Memory, and with SQLite: Server/Database; which turn an email comes from:
--     Server/Origin; during and behind a stop: Server/Shutdown.
--   * src/forward.rs, `forward_email` and `build_transport` up to what lettre is given, and `run`:
--     Forward; whom a message goes to: Forward/Recipients; what is sent for a queue: Forward/Queue;
--     `Forwarder::new` and `ForwardHandle::forward` beside the task: Forward/Handle, with the bound in
--     Forward/Handle/Bounded; from DATA to the next server: Forward/Delivery.
--   * src/tls.rs, `create_acceptor`: Tls; where certificate and key come from: Tls/Sources.
--   * src/error.rs, the errors, their texts and conversions: Error and Error/Texts.
--   * The standard library, as far as these parts use it: Text and its children (`str`), Utf8
--     (`String::from_utf8`, `as_bytes`), Exec (`io::Result` and `?`), Prelude (numbers and lists).
--   * Tests runs the theorems at concrete inputs; Tests/Engine is an engine with two tables that has
--     the laws of Store/Sqlite/Laws, so that these can hold.
--
-- How they interact: a connection holds its session, the lines that the peer still sends, what was
-- written, the store and the queue of the forwarder (`Conn`). `process_command` is an action on it
-- that gives a result, an I/O error or a panic. It reaches the store only through the operations of
-- `EmailStorage`, as the HTTP handlers do, so both are over any backend; the stores in memory and in
-- SQLite are two. Connections and requests that run side by side take turns on the store, each of whose
-- methods reads or changes it once, under its lock: Server takes the commands of all connections and the
-- requests in any order. The notification of a change is sent when the lock is free again, so that
-- Http/Watch has it as a turn of its own. In the model of one connection, the store changes only by its
-- own steps.
--
-- Texts are lists of code points, and slices are by byte offset, so that a slice that the program
-- takes out of order or off a boundary panics in the model. Reading sees the bytes that the peer
-- sends up to the end of its input; `room` is how many calls of write and flush still succeed.
--
-- Fuel: the loops of a connection run on a number of commands, separate for the plain stream and
-- the one through TLS. A command takes one line or more off the input, and lines are not empty, so
-- more fuel than the number of bytes that the peer sends is enough; without it the loops give
-- `none`.
--
-- Parameters, as their code is elsewhere: the Unicode tables of case mapping beyond ASCII, the
-- decoder of the crate base64, the parser of the crate mail_parser, the dates of chrono, the clock
-- and random ids (`External`, `Stamp`), the parsers of lettre and chrono (`Parsers`) and its sending,
-- the TLS handshake (its outcome and the bytes behind it), the statements of SQLite (`Engine`), the
-- JSON of serde (`Json`), the channels of tokio (`Channel`, `Mpsc`), the matching of axum
-- (`IsRouter`) and its decoding of a path, `std::io::Error` (`IoErrors`), the file system, rustls and
-- rcgen (`Crypto`), and whether the database opens, the acceptor is made and a port is bound (`Host`, and `Outcomes` with
-- the texts of the errors).
--
-- Not modelled: the signals and all that `main` does behind them (src/main.rs), the answer 500 of axum
-- for an attachment whose content type or file name is no allowed header (src/http.rs), what lettre
-- makes of a message and how it sends it (src/forward.rs), the parsing of the command line by clap
-- (src/main.rs), the JSON of the responses (src/http.rs), how `BufStream` passes its calls
-- on to the reader of tokio (src/smtp.rs), the log, and rows of the database that another program wrote with other types.
pub mod Prelude
pub mod Text
pub mod Utf8
pub mod Exec
pub mod Email
pub mod Store
pub mod Smtp
pub mod Http
pub mod Sink
pub mod Forward
pub mod Error
pub mod Tls
pub mod Server
pub mod Tests
