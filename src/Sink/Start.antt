-- ===== src/Sink/Start.antt =====
-- When `start_sink` starts the servers, and that a server which needs a TLS acceptor has one.
use smtp_sink.Prelude.{
  ◌≡◌, ◌↔◌, ◌⊎◌, refl, inl, inr, Bool, true, false, not, ◌||◌, ◌&&◌, arith, if◌then◌else◌,
  Bool-cases, unwrap_or,
}
use smtp_sink.Text.Case.{CaseTables}
use smtp_sink.Sink.{
  SinkOptions, Host, StartError, Running, smtps, smtp, Started, running, failed, start_sink,
  smtp_config, database_ok,
}

-- The property holds of what was started, if anything was.
abbrev pub Runs : (Running → Type 0) → Started → Type 0
Runs P (running r) = P r
Runs P (failed e) = Unit

-- The servers run.
abbrev pub is_running : Started → Bool
is_running (running r) = true
is_running (failed e) = false

-- A server that needs an acceptor has one.
abbrev Accepts : Host → SinkOptions → Running → Type 0
Accepts host opts r =
    (r.server ≡ smtps) ⊎ (r.config.tls_acceptor ≡ true) → host.create_acceptor opts ≡ true

needs_acceptor :
    (tls starttls made : Bool)
    → ((tls || starttls) && not made) ≡ false
    → ((if tls then smtps else smtp) ≡ smtps) ⊎ ((starttls && not tls) ≡ true)
    → made ≡ true
needs_acceptor true s true h k = refl
needs_acceptor true s false h k = cc
needs_acceptor false true true h k = refl
needs_acceptor false true false h k = cc
needs_acceptor false false m h (inl k) = cc
needs_acceptor false false m h (inr k) = cc

start_sink-Runs :
    (u : CaseTables) (host : Host) (opts : SinkOptions)
    → Runs (Accepts host opts) (start_sink u host opts)
unfolding start_sink smtp_config
start_sink-Runs u host opts = elim (Bool-cases (not (database_ok host opts))) [
  | inl e ↦ rw e tt
  | inr e ↦ elim (Bool-cases ((opts.tls || opts.starttls) && not (host.create_acceptor opts))) [
    | inl f ↦ rw (e, f) tt
    | inr f ↦ elim (Bool-cases (not (host.bind (unwrap_or opts.smtp_port 1025)))) [
      | inl g ↦ rw (e, f, g) tt
      | inr g ↦ elim (Bool-cases (not (host.bind (unwrap_or opts.http_port 1080)))) [
        | inl h ↦ rw (e, f, g, h) tt
        | inr h ↦
            rw (e, f, g, h) (needs_acceptor opts.tls opts.starttls (host.create_acceptor opts) f)
      ]
    ]
  ]
]

pub of_running : (P : Running → Type 0) {s : Started} {r : Running} → Runs P s → s ≡ running r → P r
of_running P {s} {r} h e = rw e at h

-- Where a server runs that speaks TLS from the start, or whose configuration has STARTTLS, the TLS
-- acceptor has been made.
pub start_sink-acceptor :
    (u : CaseTables) (host : Host) (opts : SinkOptions) {r : Running}
    → start_sink u host opts ≡ running r
    → (r.server ≡ smtps) ⊎ (r.config.tls_acceptor ≡ true)
    → host.create_acceptor opts ≡ true
start_sink-acceptor u host opts e = of_running (Accepts host opts) (start_sink-Runs u host opts) e

four_guards :
    (a b c d : Bool) (r : Running) (e f g h : StartError)
    → (is_running (
          if not a
          then failed e
          else if b
          then failed f
          else if not c
          then failed g
          else if not d
          then failed h
          else running r)
        ≡ true)
      ↔ ((a ≡ true) × (b ≡ false) × (c ≡ true) × (d ≡ true))
four_guards a b c d r e f g h = ground arith

-- The servers run exactly when the database, if there is one, can be opened, a needed acceptor can be
-- made, and both ports can be bound; 1025 and 1080 where the options name none.
pub start_sink_iff :
    (u : CaseTables) (host : Host) (opts : SinkOptions)
    → (is_running (start_sink u host opts) ≡ true) ↔ (
        (database_ok host opts ≡ true)
        × (((opts.tls || opts.starttls) && not (host.create_acceptor opts)) ≡ false)
        × (host.bind (unwrap_or opts.smtp_port 1025) ≡ true)
        × (host.bind (unwrap_or opts.http_port 1080) ≡ true))
unfolding start_sink
start_sink_iff u host opts = four_guards _ _ _ _ _ _ _ _ _
