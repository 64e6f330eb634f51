-- ===== src/Sink.antt =====
-- `start_sink` of src/lib.rs, with the options of src/main.rs and the configuration of src/forward.rs:
-- what the servers are started with. Opening the database, making the TLS acceptor and binding a port
-- are foreign: an argument says which of them succeed.

pub mod Start
pub mod Whitelist
pub mod CommandLine
pub mod Report
use smtp_sink.Prelude.{
  ℕ, Bool, true, false, not, ◌&&◌, ◌||◌, List, [], ◌∷◌, Option, none, some, is_some, unwrap_or,
  filter, if◌then◌else◌, ◌==◌,
}
use smtp_sink.Text.{Text, is_empty, trim}
use smtp_sink.Text.Case.{CaseTables, to_lowercase}
use smtp_sink.Smtp.Session.{SmtpConfig}

pub record SinkOptions : Type 0 where
  pub smtp_port : Option ℕ
  pub http_port : Option ℕ
  pub whitelist : List Text
  pub max : Option ℕ
  pub tls : Bool
  pub tls_key_path : Option Text
  pub tls_cert_path : Option Text
  pub tls_self_signed : Bool
  pub starttls : Bool
  pub auth_required : Bool
  pub auth_username : Option Text
  pub auth_password : Option Text
  pub db_path : Option Text
  pub forward_host : Option Text
  pub forward_port : Option ℕ
  pub forward_tls : Bool
  pub forward_implicit_tls : Bool
  pub forward_username : Option Text
  pub forward_password : Option Text
  pub forward_to : Option Text
  pub forward_from : Option Text

pub record ForwardConfig : Type 0 where
  pub host : Text
  pub port : ℕ
  pub tls : Bool
  pub implicit_tls : Bool
  pub username : Option Text
  pub password : Option Text
  pub to_override : Option Text
  pub from_override : Option Text

-- `s.split(',').map(|s| s.trim().to_string())`, behind the characters of the entry so far.
unfoldable pub split_commas : Text → List Text
split_commas [] = [] ∷ []
split_commas (c ∷ cs) =
    let rest = split_commas cs in
    if c == b','
    then [] ∷ rest
    else elim rest [ [] ↦ (c ∷ []) ∷ [] | entry ∷ more ↦ (c ∷ entry) ∷ more ]

unfoldable pub trim_all : List Text → List Text
trim_all [] = []
trim_all (w ∷ ws) = trim w ∷ trim_all ws

-- The argument `--whitelist` of the command line.
unfoldable pub whitelist_argument : Option Text → List Text
unfolding split_commas trim_all
whitelist_argument none = []
whitelist_argument (some s) = trim_all (split_commas s)

-- `s.to_lowercase().trim().to_string()` of each entry.
unfoldable pub lower_all : CaseTables → List Text → List Text
lower_all u [] = []
lower_all u (w ∷ ws) = trim (to_lowercase u w) ∷ lower_all u ws

unfoldable pub whitelist_of : CaseTables → List Text → List Text
unfolding lower_all
whitelist_of u ws = filter (λ s. not (is_empty s)) (lower_all u ws)

unfoldable pub forward_config : SinkOptions → Option ForwardConfig
forward_config opts = elim opts.forward_host [
  | none ↦ none
  | some host ↦ some (record {
    host = host;
    port = unwrap_or opts.forward_port (if opts.forward_implicit_tls then 465 else 587);
    tls = opts.forward_tls;
    implicit_tls = opts.forward_implicit_tls;
    username = opts.forward_username;
    password = opts.forward_password;
    to_override = opts.forward_to;
    from_override = opts.forward_from;
  })
]

unfoldable pub smtp_config : CaseTables → SinkOptions → SmtpConfig
unfolding whitelist_of
smtp_config u opts = record {
  whitelist = whitelist_of u opts.whitelist;
  tls_acceptor = opts.starttls && not opts.tls;
  auth_required = opts.auth_required;
  auth_username = opts.auth_username;
  auth_password = opts.auth_password;
  forward_handle = is_some opts.forward_host;
}

pub data Backend : Type 0 where
  memory : ℕ → Backend
  sqlite : Text → ℕ → Backend

-- Which server takes the connections: `run_smtps_server` or `run_smtp_server`.
pub data Server : Type 0 where
  smtps smtp : Server

pub record Running : Type 0 where
  pub smtp_port : ℕ
  pub http_port : ℕ
  pub backend : Backend
  pub server : Server
  pub config : SmtpConfig
  pub forward : Option ForwardConfig

-- Why `start_sink` gave up; each is an I/O error in the source.
pub data StartError : Type 0 where
  no_database no_acceptor smtp_not_bound http_not_bound : StartError

pub data Started : Type 0 where
  running : Running → Started
  failed : StartError → Started

-- The outcomes of the foreign calls. The acceptor is made from the paths of the key and certificate.
pub record Host : Type 0 where
  pub open_database : Text → Bool
  pub create_acceptor : SinkOptions → Bool
  pub bind : ℕ → Bool

-- The database can be opened, if there is to be one.
abbrev pub database_ok : Host → SinkOptions → Bool
database_ok host opts = elim opts.db_path [ none ↦ true | some path ↦ host.open_database path ]

abbrev pub backend_of : SinkOptions → Backend
backend_of opts = elim opts.db_path [
  | none ↦ memory (unwrap_or opts.max 10)
  | some path ↦ sqlite path (unwrap_or opts.max 10)
]

unfoldable pub start_sink : CaseTables → Host → SinkOptions → Started
unfolding smtp_config forward_config
start_sink u host opts =
    let smtp_port = unwrap_or opts.smtp_port 1025 in
    let http_port = unwrap_or opts.http_port 1080 in
    if not (database_ok host opts)
    then failed no_database
    else if (opts.tls || opts.starttls) && not (host.create_acceptor opts)
    then failed no_acceptor
    else if not (host.bind smtp_port)
    then failed smtp_not_bound
    else if not (host.bind http_port)
    then failed http_not_bound
    else running (record {
      smtp_port = smtp_port;
      http_port = http_port;
      backend = backend_of opts;
      server = if opts.tls then smtps else smtp;
      config = smtp_config u opts;
      forward = forward_config opts;
    })
