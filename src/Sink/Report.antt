-- ===== src/Sink/Report.antt =====
-- What the program says: the errors and the lines of `start_sink` in src/lib.rs, and how `main` of
-- src/main.rs fares until the servers run. The outcomes of the foreign calls are an argument, with the texts of their errors.
pub mod Exits
use smtp_sink.Prelude.{
  ℕ, ◌≡◌, ◌↔◌, ◌⊎◌, inl, inr, refl, Bool, true, false, not, ◌||◌, ◌&&◌, List, [], ◌∷◌, ◌++◌, Option,
  none, some, is_some, unwrap_or, if◌then◌else◌, Option-cases, Bool-cases, String, arith, ap, sym,
  ◌∙◌, of_some, subst, some-ne-none,
}
use smtp_sink.Text.{Text, codes}
use smtp_sink.Text.Case.{CaseTables}
use smtp_sink.Sink.{
  SinkOptions, ForwardConfig, Host, forward_config, database_ok, start_sink, Started, running,
  failed, Running, no_database, no_acceptor, smtp_not_bound, http_not_bound,
}
use smtp_sink.Sink.Start.{is_running}
use smtp_sink.Sink.CommandLine.{Cli, sink_options}

-- `e.kind() == AddrInUse`, or any other error.
pub data BindError : Type 0 where
  addr_in_use : BindError
  other_error : Text → BindError

-- The error of the database and of the acceptor, if there is one; the port that is bound, with its
-- `local_addr`; and how a number is written.
pub record Outcomes : Type 0 where
  pub open_error : Text → Option Text
  pub acceptor_error : SinkOptions → Option Text
  pub bind : ℕ → ℕ ⊎ BindError
  pub display : ℕ → Text

abbrev pub is_bound : ℕ ⊎ BindError → Bool
is_bound (inl port) = true
is_bound (inr e) = false

-- Which of the calls succeed.
abbrev pub host_of : Outcomes → Host
host_of o = record {
  open_database = λ path. not (is_some (o.open_error path));
  create_acceptor = λ opts. not (is_some (o.acceptor_error opts));
  bind = λ port. is_bound (o.bind port);
}

pub data Report : Type 0 where
  gave_up : Text → Report
  serving : List Text → Report

abbrev pub bind_text : Outcomes → String → ℕ → BindError → Text
bind_text o label port addr_in_use =
    codes label
    ++ codes " port "
    ++ o.display port
    ++ codes " is already in use. Is another instance running?"
bind_text o label port (other_error e) = e

abbrev pub mode_of : SinkOptions → Text
mode_of opts =
    if opts.tls
    then codes "SMTPS"
    else if opts.starttls
    then codes "SMTP+STARTTLS"
    else codes "SMTP"

abbrev pub storage_mode_of : SinkOptions → Text
storage_mode_of opts = if is_some opts.db_path then codes "SQLite" else codes "memory"

unfoldable pub listening_lines : Outcomes → SinkOptions → ℕ → ℕ → List Text
listening_lines o opts smtp_port http_port =
    (mode_of opts
      ++ codes " server listening on port "
      ++ o.display smtp_port
      ++ codes " ("
      ++ storage_mode_of opts
      ++ codes ")")
    ∷ (codes "HTTP server listening on port " ++ o.display http_port ++ codes ", emails at /emails")
    ∷ []

unfoldable pub printed_port : SinkOptions → ℕ
printed_port opts = unwrap_or opts.forward_port 587

unfoldable pub forward_lines : Outcomes → SinkOptions → List Text
unfolding printed_port
forward_lines o opts = elim opts.forward_host [
  | none ↦ []
  | some host ↦
      (codes "Forwarding emails to " ++ host ++ codes ":" ++ o.display (printed_port opts)) ∷ []
]

abbrev pub database_error : Outcomes → Option Text → Option Text
database_error o none = none
database_error o (some path) = o.open_error path

abbrev pub needed_acceptor_error : Outcomes → SinkOptions → Option Text
needed_acceptor_error o opts = if opts.tls || opts.starttls then o.acceptor_error opts else none

abbrev pub behind_http : Outcomes → SinkOptions → ℕ → ℕ ⊎ BindError → Report
behind_http o opts smtp_addr (inr e) =
    gave_up (bind_text o "HTTP" (unwrap_or opts.http_port 1080) e)
behind_http o opts smtp_addr (inl http_addr) =
    serving (listening_lines o opts smtp_addr http_addr ++ forward_lines o opts)

abbrev pub behind_smtp : Outcomes → SinkOptions → ℕ ⊎ BindError → Report
behind_smtp o opts (inr e) = gave_up (bind_text o "SMTP" (unwrap_or opts.smtp_port 1025) e)
behind_smtp o opts (inl smtp_addr) =
    behind_http o opts smtp_addr (o.bind (unwrap_or opts.http_port 1080))

abbrev pub behind_acceptor : Outcomes → SinkOptions → Option Text → Report
behind_acceptor o opts (some e) = gave_up e
behind_acceptor o opts none = behind_smtp o opts (o.bind (unwrap_or opts.smtp_port 1025))

abbrev pub behind_database : Outcomes → SinkOptions → Option Text → Report
behind_database o opts (some e) = gave_up (codes "Failed to open database: " ++ e)
behind_database o opts none = behind_acceptor o opts (needed_acceptor_error o opts)

-- `start_sink`, up to what it prints or the text of its error.
unfoldable pub report : Outcomes → SinkOptions → Report
unfolding listening_lines forward_lines
report o opts = behind_database o opts (database_error o opts.db_path)

-- How far `main` comes: it exits, with what it wrote on the two outputs and the status, or it has
-- printed its lines and waits for a signal while the servers run. What comes behind the signal is not
-- part of this model.
pub data Outcome : Type 0 where
  exited : List Text → List Text → ℕ → Outcome
  waits : List Text → Outcome

abbrev pub outcome_of : Report → Outcome
outcome_of (gave_up e) = exited [] ((codes "Error: " ++ e) ∷ []) 1
outcome_of (serving lines) = waits lines

-- `main`, up to where it waits for a signal.
unfoldable pub main : Outcomes → Cli → Outcome
unfolding report sink_options
main o cli = outcome_of (report o (sink_options cli))

abbrev pub is_serving : Report → Bool
is_serving (gave_up e) = false
is_serving (serving lines) = true
