-- ===== src/Smtp/Connection/Login.antt =====
-- What a whole connection may store, and for whom.
use smtp_sink.Prelude.{ℕ, ◌≡◌, ◌∙◌, refl, Bool, true, false, Option, some}
use smtp_sink.Text.{Bytes}
use smtp_sink.Store.{EmailStorage}
use smtp_sink.Exec.{Result}
use smtp_sink.Smtp.Session.{SmtpConfig, Session, new, reset}
use smtp_sink.Smtp.Message.{External}
use smtp_sink.Smtp.Conn.{Conn}
use smtp_sink.Smtp.Command.{needs_auth}
use smtp_sink.Smtp.Command.Steps.{NoLogin}
use smtp_sink.Smtp.Connection.{Ending, handle_connection}
use smtp_sink.Smtp.Connection.Leaves.{Leaves, IsKept, handle_connection-Leaves}

-- Nothing has been stored or forwarded since `c`.
abbrev pub Untouched : {S : Type 0} → Conn S → Conn S → Type 0
Untouched c d = (d.store ≡ c.store) × (d.forwarded ≡ c.forwarded)

-- A login is required, and as long as it is missing, nothing has been stored.
record WaitsForLogin {S : Type 0} (c d : Conn S) : Type 0 where
  required : d.session.auth_required ≡ true
  waits : d.session.authenticated ≡ false → Untouched c d

-- Nobody has logged in.
record Anonymous {S : Type 0} (c d : Conn S) : Type 0 where
  required : d.session.auth_required ≡ true
  anonymous : d.session.authenticated ≡ false
  untouched : Untouched c d

needed : (s : Session) → s.auth_required ≡ true → s.authenticated ≡ false → needs_auth s ≡ true
needed s r a = rw (r, a)

was_false : (s t : Bool) → (s ≡ true → t ≡ true) → t ≡ false → s ≡ false
was_false true t h e = cc (h refl)
was_false false t h e = refl

of_ending :
    {S : Type 0} (P : Conn S → Type 0) {e : Ending S} {r : Result (Unit {0})} {d : Conn S}
    → Leaves P e
    → e ≡ some (r, d)
    → P d
of_ending {S} P {e} {r} {d} l h = rw h at l

module _ {S : Type 0} (storage : EmailStorage S) (ext : External) (config : SmtpConfig) where
  WaitsForLogin-IsKept : (c : Conn S) → IsKept storage ext config (WaitsForLogin c)
  unfolding reset
  WaitsForLogin-IsKept c = record {
    step = λ d e s w. record {
      required = s.required ∙ w.required;
      waits = λ a.
          let g = s.guarded (needed e.session (s.required ∙ w.required) a) in
          let b = w.waits (was_false d.session.authenticated e.session.authenticated s.stays a) in
          (g.0 ∙ b.0, g.1 ∙ b.1);
    };
    upgraded = λ d ls w. record { required = w.required; waits = w.waits };
  }

  Anonymous-IsKept : NoLogin config → (c : Conn S) → IsKept storage ext config (Anonymous c)
  unfolding reset
  Anonymous-IsKept nobody c = record {
    step = λ d e s w.
        let a = s.no_login nobody ∙ w.anonymous in
        let g = s.guarded (needed e.session (s.required ∙ w.required) a) in
        record {
          required = s.required ∙ w.required;
          anonymous = a;
          untouched = (g.0 ∙ w.untouched.0, g.1 ∙ w.untouched.1);
        };
    upgraded = λ d ls w. record {
      required = w.required;
      anonymous = w.anonymous;
      untouched = w.untouched;
    };
  }

  -- A connection that ends without a login, where one is required, has stored and forwarded nothing,
  -- whatever the peer sent and whether or not it changed to TLS.
  pub handle_connection_unauthenticated :
      (fuel tls_fuel : ℕ) (sent : Bytes) (tls : Option Bytes) (c : Conn S) {r : Result (Unit {0})}
      {d : Conn S}
      → config.auth_required ≡ true
      → handle_connection storage ext config fuel tls_fuel sent tls c ≡ some (r, d)
      → d.session.authenticated ≡ false
      → Untouched c d
  unfolding new
  handle_connection_unauthenticated fuel tls_fuel sent tls c required h =
      (of_ending (WaitsForLogin c)
        (handle_connection-Leaves storage ext config (WaitsForLogin c) (WaitsForLogin-IsKept c) fuel
          tls_fuel sent tls c (record { required = required; waits = λ _. (refl, refl) }))
        h).waits

  -- Where a login is required and no username or no password is configured, no connection stores or
  -- forwards anything.
  pub handle_connection-NoLogin :
      (fuel tls_fuel : ℕ) (sent : Bytes) (tls : Option Bytes) (c : Conn S) {r : Result (Unit {0})}
      {d : Conn S}
      → config.auth_required ≡ true
      → NoLogin config
      → handle_connection storage ext config fuel tls_fuel sent tls c ≡ some (r, d)
      → Untouched c d
  unfolding new
  handle_connection-NoLogin fuel tls_fuel sent tls c required nobody h =
      (of_ending (Anonymous c)
        (handle_connection-Leaves storage ext config (Anonymous c) (Anonymous-IsKept nobody c) fuel
          tls_fuel sent tls c
          (record { required = required; anonymous = refl; untouched = (refl, refl) }))
        h).untouched
