-- ===== src/Tests/Options.antt =====
-- The theorems on the set-up of the servers, at concrete inputs.
use smtp_sink.Prelude.{
  ◌≡◌, ◌↔◌, ◌⊎◌, refl, arith, inl, inr, if◌then◌else◌, ◌==◌, some, none, [], ◌∷◌, true, false,
}
use smtp_sink.Text.{codes}
use smtp_sink.Smtp.Command.{sender_allowed}
use smtp_sink.Sink.{
  SinkOptions, Host, Running, smtp, memory, start_sink, smtp_config, trim_all, whitelist_argument,
}
use smtp_sink.Sink.{ForwardConfig, forward_config}
use smtp_sink.Sink.Report.{Outcomes, addr_in_use, printed_port}
use smtp_sink.Sink.Report.Exits.{printed_port_iff}
use smtp_sink.Sink.Whitelist.{
  NoEntry, Lists, sender_allowed_iff, with_commas, whitelist_argument-with_commas,
}
use smtp_sink.Sink.CommandLine.{Cli, sink_options, main_sender_allowed_iff}
use smtp_sink.Tests.Setup.{tables, ext}

abbrev pub options : SinkOptions
options = record {
  smtp_port = none;
  http_port = none;
  whitelist = codes " Ann@X " ∷ [];
  max = none;
  tls = true;
  tls_key_path = none;
  tls_cert_path = none;
  tls_self_signed = false;
  starttls = false;
  auth_required = false;
  auth_username = none;
  auth_password = none;
  db_path = none;
  forward_host = none;
  forward_port = none;
  forward_tls = false;
  forward_implicit_tls = false;
  forward_username = none;
  forward_password = none;
  forward_to = none;
  forward_from = none;
}

-- A host on which everything works.
abbrev host : Host
host = record { open_database = λ path. true; create_acceptor = λ opts. true; bind = λ port. true }

sender_allowed_iff_example :
    (sender_allowed ext (smtp_config tables options) (codes "ann@x") ≡ true)
    ↔ (NoEntry tables (codes " Ann@X " ∷ []) ⊎ Lists tables (codes " Ann@X " ∷ []) (codes "ann@x"))
sender_allowed_iff_example = sender_allowed_iff ext options (codes "ann@x")

whitelist_argument-with_commas_example :
    whitelist_argument (some (with_commas (codes "a@x") (codes " b@x" ∷ [])))
    ≡ trim_all (codes "a@x" ∷ codes " b@x" ∷ [])
whitelist_argument-with_commas_example =
    whitelist_argument-with_commas (codes "a@x") (codes " b@x" ∷ []) (omega arith)

abbrev cli : Cli
cli = record {
  smtp_port = 25;
  http_port = 80;
  whitelist = some (with_commas (codes "a@x") (codes " b@x" ∷ []));
  max = 5;
  tls = false;
  starttls = false;
  tls_key = none;
  tls_cert = none;
  tls_self_signed = false;
  auth_required = false;
  auth_username = none;
  auth_password = none;
  db = none;
  forward_host = none;
  forward_port = none;
  forward_tls = false;
  forward_implicit_tls = false;
  forward_username = none;
  forward_password = none;
  forward_to = none;
  forward_from = none;
}

abbrev plain_server : Running
plain_server = record {
  smtp_port = 25;
  http_port = 80;
  backend = memory 5;
  server = smtp;
  config = smtp_config tables (sink_options cli);
  forward = none;
}

main_sender_allowed_iff_example : (sender_allowed ext plain_server.config (codes "B@x") ≡ true) ↔ (
    NoEntry tables (trim_all (codes "a@x" ∷ codes " b@x" ∷ []))
    ⊎ Lists tables (trim_all (codes "a@x" ∷ codes " b@x" ∷ [])) (codes "B@x"))
unfolding start_sink sink_options
main_sender_allowed_iff_example =
    main_sender_allowed_iff ext host cli (codes "a@x") (codes " b@x" ∷ []) (codes "B@x")
      {r = plain_server} (omega arith) refl refl

-- A host whose port 1025 is taken.
abbrev busy : Outcomes
busy = record {
  open_error = λ path. none;
  acceptor_error = λ opts. none;
  bind = λ port. if port == 1025 then inr addr_in_use else inl port;
  display = λ n. n ∷ [];
}

abbrev plain_cli : Cli
plain_cli = record {
  smtp_port = 1025;
  http_port = 1080;
  whitelist = none;
  max = 10;
  tls = false;
  starttls = false;
  tls_key = none;
  tls_cert = none;
  tls_self_signed = false;
  auth_required = false;
  auth_username = none;
  auth_password = none;
  db = none;
  forward_host = none;
  forward_port = none;
  forward_tls = false;
  forward_implicit_tls = false;
  forward_username = none;
  forward_password = none;
  forward_to = none;
  forward_from = none;
}

-- Implicit TLS, without a port.
abbrev implicit_options : SinkOptions
implicit_options = record options { forward_host = some (codes "h"); forward_implicit_tls = true }

abbrev implicit_config : ForwardConfig
implicit_config = record {
  host = codes "h";
  port = 465;
  tls = false;
  implicit_tls = true;
  username = none;
  password = none;
  to_override = none;
  from_override = none;
}

printed_port_iff_example : (printed_port implicit_options ≡ 465) ↔ ((false ≡ true) ⊎ (true ≡ false))
unfolding forward_config
printed_port_iff_example = printed_port_iff implicit_options implicit_config refl
