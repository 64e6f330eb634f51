-- ===== src/Sink/CommandLine.antt =====
-- The command line of src/main.rs, behind clap, and what the servers make of it.
use smtp_sink.Prelude.{
  ap, subst, ◌∙◌, ℕ, ◌≡◌, ◌≢◌, ◌↔◌, ◌⊎◌, refl, Bool, true, not, ◌||◌, ◌&&◌, List, ◌∷◌, Option, some,
  All, if_both, unwrap_or,
}
use smtp_sink.Text.{Text}
use smtp_sink.Text.Case.{CaseTables}
use smtp_sink.Smtp.Message.{External}
use smtp_sink.Smtp.Command.{sender_allowed}
use smtp_sink.Sink.{
  SinkOptions, whitelist_argument, trim_all, Host, Started, database_ok, Running, running,
  start_sink, smtp_config,
}
use smtp_sink.Sink.Start.{Runs, of_running}
use smtp_sink.Sink.Whitelist.{
  NoEntry, Lists, sender_allowed_iff, with_commas, whitelist_argument-with_commas,
}

pub record Cli : Type 0 where
  pub smtp_port : ℕ
  pub http_port : ℕ
  pub whitelist : Option Text
  pub max : ℕ
  pub tls : Bool
  pub starttls : Bool
  pub tls_key : Option Text
  pub tls_cert : Option Text
  pub tls_self_signed : Bool
  pub auth_required : Bool
  pub auth_username : Option Text
  pub auth_password : Option Text
  pub db : Option Text
  pub forward_host : Option Text
  pub forward_port : Option ℕ
  pub forward_tls : Bool
  pub forward_implicit_tls : Bool
  pub forward_username : Option Text
  pub forward_password : Option Text
  pub forward_to : Option Text
  pub forward_from : Option Text

unfoldable pub sink_options : Cli → SinkOptions
unfolding whitelist_argument
sink_options cli = record {
  smtp_port = some cli.smtp_port;
  http_port = some cli.http_port;
  whitelist = whitelist_argument cli.whitelist;
  max = some cli.max;
  tls = cli.tls;
  starttls = cli.starttls;
  tls_key_path = cli.tls_key;
  tls_cert_path = cli.tls_cert;
  tls_self_signed = cli.tls_self_signed;
  auth_required = cli.auth_required;
  auth_username = cli.auth_username;
  auth_password = cli.auth_password;
  db_path = cli.db;
  forward_host = cli.forward_host;
  forward_port = cli.forward_port;
  forward_tls = cli.forward_tls;
  forward_implicit_tls = cli.forward_implicit_tls;
  forward_username = cli.forward_username;
  forward_password = cli.forward_password;
  forward_to = cli.forward_to;
  forward_from = cli.forward_from;
}

-- What is started has the configuration of the options.
start_sink-config :
    (u : CaseTables) (host : Host) (opts : SinkOptions)
    → Runs (λ r. r.config ≡ smtp_config u opts) (start_sink u host opts)
unfolding start_sink
start_sink-config u host opts = if_both P (not (database_ok host opts)) tt (
    if_both P ((opts.tls || opts.starttls) && not (host.create_acceptor opts)) tt (
      if_both P (not (host.bind (unwrap_or opts.smtp_port 1025))) tt
        (if_both P (not (host.bind (unwrap_or opts.http_port 1080))) tt refl)))
  where
    P : Started → Type 0
    P = Runs (λ r. r.config ≡ smtp_config u opts)

-- The servers that the program starts for `--whitelist`, with entries that hold no comma and have
-- commas between, let a sender in exactly when all entries are blank or one is the address; case and
-- the blanks around an entry do not matter.
pub main_sender_allowed_iff :
    (ext : External) (host : Host) (cli : Cli) (w : Text) (ws : List Text) (addr : Text)
    {r : Running}
    → All (All (λ c. c ≢ b',')) (w ∷ ws)
    → cli.whitelist ≡ some (with_commas w ws)
    → start_sink ext.tables host (sink_options cli) ≡ running r
    → (sender_allowed ext r.config addr ≡ true)
      ↔ (NoEntry ext.tables (trim_all (w ∷ ws)) ⊎ Lists ext.tables (trim_all (w ∷ ws)) addr)
unfolding sink_options
main_sender_allowed_iff ext host cli w ws addr free given h =
    let config =
      of_running (λ r. r.config ≡ smtp_config ext.tables (sink_options cli))
        (start_sink-config ext.tables host (sink_options cli)) h in
    let entries = ap whitelist_argument given ∙ whitelist_argument-with_commas w ws free in
    rw config (
      subst
        (λ l.
          (sender_allowed ext (smtp_config ext.tables (sink_options cli)) addr ≡ true)
          ↔ (NoEntry ext.tables l ⊎ Lists ext.tables l addr))
        entries (sender_allowed_iff ext (sink_options cli) addr))
