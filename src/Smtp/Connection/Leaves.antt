-- ===== src/Smtp/Connection/Leaves.antt =====
-- Properties that every command keeps, and every upgrade to TLS, hold at the end of a connection.
use smtp_sink.Prelude.{
  ℕ, zero, suc, inl, inr, true, false, List, Option, none, some, Bool-cases, if_both,
}
use smtp_sink.Text.{Bytes}
use smtp_sink.Store.{EmailStorage}
use smtp_sink.Exec.{Result, ok, err}
use smtp_sink.Smtp.Session.{SmtpConfig, new, reset}
use smtp_sink.Smtp.Message.{External}
use smtp_sink.Smtp.Conn.{Conn, split_lines}
use smtp_sink.Smtp.Command.{CommandResult, continue, quit, start_tls, process_command}
use smtp_sink.Smtp.Command.Steps.{Step, write_flush-Step}
use smtp_sink.Smtp.Command.Verbs.{process_command-Step}
use smtp_sink.Smtp.Connection.{
  Ending, greet, then_go, tls_next, tls_loop, is_fresh, handle_tls_session, handle_tls_connection,
  upgrade, plain_next, plain_loop, handle_connection,
}

-- The connection, if it has ended, has left a state with the property.
abbrev pub Leaves : {S : Type 0} → (Conn S → Type 0) → Ending S → Type 0
Leaves P none = Unit
Leaves P (some (r, d)) = P d

-- A property of a connection that no command breaks, and no upgrade to TLS.
pub record IsKept {S : Type 0} (storage : EmailStorage S) (ext : External) (config : SmtpConfig)
    (P : Conn S → Type 0) : Type 0 where
  pub step : (c d : Conn S) → Step storage ext config c d → P c → P d
  pub upgraded :
      (c : Conn S) (ls : List Bytes)
      → P c
      → P (record c { session = reset (record c.session { tls_active = true }); input = ls })

module _ {S : Type 0} (storage : EmailStorage S) (ext : External) (config : SmtpConfig)
    (P : Conn S → Type 0) (k : IsKept storage ext config P) where
  then_go-Leaves :
      (again : Conn S → Ending S) (r : Result (Unit {0}) × Conn S)
      → P r.1
      → ((d : Conn S) → P d → Leaves P (again d))
      → Leaves P (then_go again r)
  then_go-Leaves again (ok _, c) p h = h c p
  then_go-Leaves again (err e, c) p h = p

  tls_next-Leaves :
      (again : Conn S → Ending S) (r : Result CommandResult × Conn S)
      → P r.1
      → ((d : Conn S) → P d → Leaves P (again d))
      → Leaves P (tls_next storage ext config again r)
  unfolding tls_next
  tls_next-Leaves again (ok continue, c) p h = h c p
  tls_next-Leaves again (ok quit, c) p h = p
  tls_next-Leaves again (ok start_tls, c) p h =
      then_go-Leaves again _ (k.step c _ (write_flush-Step storage ext config _ c) p) h
  tls_next-Leaves again (err e, c) p h = p

  run-P : (c : Conn S) → P c → P (process_command storage ext config c).1
  run-P c p = k.step c _ ((process_command-Step storage ext config).at c) p

  greet-P : (c : Conn S) → P c → P (greet c).1
  unfolding greet
  greet-P c p = k.step c _ (write_flush-Step storage ext config _ c) p

  tls_loop-Leaves : (fuel : ℕ) (c : Conn S) → P c → Leaves P (tls_loop storage ext config fuel c)
  unfolding tls_loop
  tls_loop-Leaves zero c p = tt
  tls_loop-Leaves (suc fuel) c p =
      tls_next-Leaves _ (process_command storage ext config c) (run-P c p) (tls_loop-Leaves fuel)

  handle_tls_session-Leaves :
      (fuel : ℕ) (c : Conn S) → P c → Leaves P (handle_tls_session storage ext config fuel c)
  unfolding handle_tls_session
  handle_tls_session-Leaves fuel c p = elim (Bool-cases (is_fresh storage ext config c.session)) [
    | inl fresh ↦ rw fresh (then_go-Leaves _ (greet c) (greet-P c p) (tls_loop-Leaves fuel))
    | inr old ↦ rw old (tls_loop-Leaves fuel c p)
  ]

  upgrade-Leaves :
      (fuel : ℕ) (tls : Option Bytes) (c : Conn S)
      → P c
      → Leaves P (upgrade storage ext config fuel tls c)
  unfolding upgrade
  upgrade-Leaves fuel none c p = p
  upgrade-Leaves fuel (some sent) c p =
      handle_tls_session-Leaves fuel _ (k.upgraded c (split_lines sent) p)

  plain_next-Leaves :
      (tls_fuel : ℕ) (tls : Option Bytes) (again : Conn S → Ending S)
      (r : Result CommandResult × Conn S)
      → P r.1
      → ((d : Conn S) → P d → Leaves P (again d))
      → Leaves P (plain_next storage ext config tls_fuel tls again r)
  unfolding plain_next
  plain_next-Leaves tls_fuel tls again (ok continue, c) p h = h c p
  plain_next-Leaves tls_fuel tls again (ok quit, c) p h = p
  plain_next-Leaves tls_fuel tls again (ok start_tls, c) p h =
      if_both (Leaves P) config.tls_acceptor (upgrade-Leaves tls_fuel tls c p) (h c p)
  plain_next-Leaves tls_fuel tls again (err e, c) p h = p

  plain_loop-Leaves :
      (tls_fuel : ℕ) (tls : Option Bytes) (fuel : ℕ) (c : Conn S)
      → P c
      → Leaves P (plain_loop storage ext config tls_fuel tls fuel c)
  unfolding plain_loop
  plain_loop-Leaves tls_fuel tls zero c p = tt
  plain_loop-Leaves tls_fuel tls (suc fuel) c p =
      plain_next-Leaves tls_fuel tls _ (process_command storage ext config c) (run-P c p)
        (plain_loop-Leaves tls_fuel tls fuel)

  pub handle_connection-Leaves :
      (fuel tls_fuel : ℕ) (sent : Bytes) (tls : Option Bytes) (c : Conn S)
      → P (record c { session = new config.auth_required false; input = split_lines sent })
      → Leaves P (handle_connection storage ext config fuel tls_fuel sent tls c)
  unfolding handle_connection
  handle_connection-Leaves fuel tls_fuel sent tls c p =
      then_go-Leaves _ (greet _) (greet-P _ p) (plain_loop-Leaves tls_fuel tls fuel)

  pub handle_tls_connection-Leaves :
      (fuel : ℕ) (sent : Bytes) (c : Conn S)
      → P (record c { session = new config.auth_required true; input = split_lines sent })
      → Leaves P (handle_tls_connection storage ext config fuel sent c)
  unfolding handle_tls_connection
  handle_tls_connection-Leaves fuel sent c p = handle_tls_session-Leaves fuel _ p
