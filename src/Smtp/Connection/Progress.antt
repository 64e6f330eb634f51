-- ===== src/Smtp/Connection/Progress.antt =====
-- The loops of a connection end: every command takes a line off the input, and the end of the input
-- ends the session.
use smtp_sink.Prelude.{
  ℕ, zero, suc, ◌≤◌, ◌<◌, ◌≡◌, refl, ap, inl, inr, unwrap_or, if_both, false, List, [], ◌∷◌, Option,
  none, some, String, length, arith, Bool-cases, Option-cases,
}
use smtp_sink.Text.{Bytes}
use smtp_sink.Utf8.{from_utf8}
use smtp_sink.Store.{EmailStorage}
use smtp_sink.Exec.{Result, ok, err, ◌>>=◌, ◌>>◌}
use smtp_sink.Smtp.Session.{SmtpConfig, new}
use smtp_sink.Smtp.Message.{External}
use smtp_sink.Smtp.Conn.{Conn, split_lines, write_all, flush}
use smtp_sink.Smtp.Conn.Lines.{length-split_lines}
use smtp_sink.Smtp.Conn.Reads.{read_line-nil, read_line_bad, read_line_text}
use smtp_sink.Smtp.Command.{CommandResult, continue, quit, start_tls, behind_line, process_command}
use smtp_sink.Smtp.Command.Steps.{write_flush-Step}
use smtp_sink.Smtp.Command.Verbs.{behind_line-Step}
use smtp_sink.Smtp.Connection.{
  Ending, greet, then_go, tls_next, tls_loop, handle_tls_session, handle_tls_connection, upgrade,
  plain_next, plain_loop, handle_connection, is_fresh,
}

-- The connection has an ending.
abbrev pub Ends : {S : Type 0} → Ending S → Type 0
Ends {S} e = (r : Result (Unit {0}) × Conn S) × (e ≡ some r)

module _ {S : Type 0} (storage : EmailStorage S) (ext : External) (config : SmtpConfig) where
  -- The end of the input is a `QUIT`.
  process_command-eof :
      (c : Conn S) → c.input ≡ [] → process_command storage ext config c ≡ (ok quit, c)
  unfolding process_command behind_line ◌>>=◌
  process_command-eof c e = rw (read_line-nil c e)

  process_command-line :
      (c : Conn S) (l : Bytes) (ls : List Bytes)
      → c.input ≡ l ∷ ls
      → length (process_command storage ext config c).1.input ≤ length ls
  unfolding process_command ◌>>=◌
  process_command-line c l ls e = elim (Option-cases (from_utf8 l)) [
    | inl bad ↦ rw (read_line_bad c l ls e bad) (omega arith)
    | inr (line, good) ↦
        rw (read_line_text c l ls e line good)
          ((behind_line-Step storage ext config line).at (record c { input = ls })).shrinks
  ]

  write_flush-shrinks :
      (payload : String) (c : Conn S)
      → length ((write_all payload >> flush) c).1.input ≤ length c.input
  write_flush-shrinks payload c = (write_flush-Step storage ext config payload c).shrinks

  greet-shrinks : (c : Conn S) → length (greet c).1.input ≤ length c.input
  unfolding greet
  greet-shrinks c = write_flush-shrinks _ c

  then_go-Ends :
      (again : Conn S → Ending S) (r : Result (Unit {0}) × Conn S)
      → ((d : Conn S) → length d.input ≤ length r.1.input → Ends (again d))
      → Ends (then_go again r)
  then_go-Ends again (ok _, c) h = h c (omega arith)
  then_go-Ends again (err e, c) h = (_, refl)

  tls_next-Ends :
      (again : Conn S → Ending S) (r : Result CommandResult × Conn S)
      → ((d : Conn S) → length d.input ≤ length r.1.input → Ends (again d))
      → Ends (tls_next storage ext config again r)
  unfolding tls_next
  tls_next-Ends again (ok continue, c) h = h c (omega arith)
  tls_next-Ends again (ok quit, c) h = (_, refl)
  tls_next-Ends again (ok start_tls, c) h =
      then_go-Ends again _ λ d k. h d (omega (arith, k, write_flush-shrinks _ c))
  tls_next-Ends again (err e, c) h = (_, refl)

  tls_loop-Ends :
      (fuel : ℕ) (c : Conn S) → length c.input < fuel → Ends (tls_loop storage ext config fuel c)
  unfolding tls_loop
  tls_loop-Ends zero c h = absurd (omega arith)
  tls_loop-Ends (suc fuel) c h = go c.input refl (tls_loop-Ends fuel)
    where
      go :
          (ls : List Bytes)
          → c.input ≡ ls
          → ((d : Conn S) → length d.input < fuel → Ends (tls_loop storage ext config fuel d))
          → Ends (tls_loop storage ext config (suc fuel) c)
      go [] e again = rw (process_command-eof c e) (_, refl)
      go (l ∷ ls) e again =
          tls_next-Ends _ (process_command storage ext config c)
            λ d k. again d (omega (arith, k, process_command-line c l ls e, ap length e))

  handle_tls_session-Ends :
      (fuel : ℕ) (c : Conn S)
      → length c.input < fuel
      → Ends (handle_tls_session storage ext config fuel c)
  unfolding handle_tls_session
  handle_tls_session-Ends fuel c h = elim (Bool-cases (is_fresh storage ext config c.session)) [
    | inl fresh ↦
        rw fresh
          (then_go-Ends _ (greet c) λ d k. tls_loop-Ends fuel d (omega (arith, k, greet-shrinks c)))
    | inr old ↦ rw old (tls_loop-Ends fuel c h)
  ]

  plain_next-Ends :
      (tls_fuel : ℕ) (tls : Option Bytes) (again : Conn S → Ending S)
      (r : Result CommandResult × Conn S)
      → ((d : Conn S) → Ends (upgrade storage ext config tls_fuel tls d))
      → ((d : Conn S) → length d.input ≤ length r.1.input → Ends (again d))
      → Ends (plain_next storage ext config tls_fuel tls again r)
  unfolding plain_next
  plain_next-Ends tls_fuel tls again (ok continue, c) u h = h c (omega arith)
  plain_next-Ends tls_fuel tls again (ok quit, c) u h = (_, refl)
  plain_next-Ends tls_fuel tls again (ok start_tls, c) u h =
      if_both Ends config.tls_acceptor (u c) (h c (omega arith))
  plain_next-Ends tls_fuel tls again (err e, c) u h = (_, refl)

  plain_loop-Ends :
      (tls_fuel : ℕ) (tls : Option Bytes)
      → ((d : Conn S) → Ends (upgrade storage ext config tls_fuel tls d))
      → (fuel : ℕ) (c : Conn S) → length c.input < fuel
      → Ends (plain_loop storage ext config tls_fuel tls fuel c)
  unfolding plain_loop
  plain_loop-Ends tls_fuel tls u zero c h = absurd (omega arith)
  plain_loop-Ends tls_fuel tls u (suc fuel) c h =
      go c.input refl (plain_loop-Ends tls_fuel tls u fuel)
    where
      go :
          (ls : List Bytes)
          → c.input ≡ ls
          → ((d : Conn S)
              → length d.input < fuel
              → Ends (plain_loop storage ext config tls_fuel tls fuel d))
          → Ends (plain_loop storage ext config tls_fuel tls (suc fuel) c)
      go [] e again = rw (process_command-eof c e) (_, refl)
      go (l ∷ ls) e again =
          plain_next-Ends tls_fuel tls _ (process_command storage ext config c) u
            λ d k. again d (omega (arith, k, process_command-line c l ls e, ap length e))

  upgrade-Ends :
      (fuel : ℕ) (tls : Option Bytes) (c : Conn S)
      → length (split_lines (unwrap_or tls [])) < fuel
      → Ends (upgrade storage ext config fuel tls c)
  unfolding upgrade
  upgrade-Ends fuel none c h = (_, refl)
  upgrade-Ends fuel (some sent) c h = handle_tls_session-Ends fuel _ h

  -- With more fuel than the peer sends bytes, on the plain stream and through TLS, a connection
  -- comes to an ending, whatever the peer sends.
  pub handle_connection-Ends :
      (fuel tls_fuel : ℕ) (sent : Bytes) (tls : Option Bytes) (c : Conn S)
      → length sent < fuel
      → length (unwrap_or tls []) < tls_fuel
      → Ends (handle_connection storage ext config fuel tls_fuel sent tls c)
  unfolding handle_connection
  handle_connection-Ends fuel tls_fuel sent tls c h k = then_go-Ends _ (greet _) λ d m.
      plain_loop-Ends tls_fuel tls
        (λ e. upgrade-Ends tls_fuel tls e (omega (arith, k, length-split_lines (unwrap_or tls []))))
        fuel d
        (omega (
          arith,
          m,
          greet-shrinks
              (record c { session = new config.auth_required false; input = split_lines sent }),
          length-split_lines sent,
        ))

  -- With more fuel than the peer sends bytes, a connection that is TLS from the start comes to an
  -- ending, whatever the peer sends.
  pub handle_tls_connection-Ends :
      (fuel : ℕ) (sent : Bytes) (c : Conn S)
      → length sent < fuel
      → Ends (handle_tls_connection storage ext config fuel sent c)
  unfolding handle_tls_connection
  handle_tls_connection-Ends fuel sent c h =
      handle_tls_session-Ends fuel _ (omega (arith, length-split_lines sent))
