-- ===== src/Sink/Report/Exits.antt =====
-- When the program gives up, and what it says of the next server, against what `start_sink` of src/lib.rs does.
use smtp_sink.Prelude.{
  ℕ, ◌≡◌, ◌↔◌, ◌⊎◌, inl, inr, refl, Bool, true, false, [], ◌∷◌, ◌++◌, Option, none, some, is_some,
  unwrap_or, if◌then◌else◌, Option-cases, arith, ap, sym, of_some, subst, some-ne-none,
}
use smtp_sink.Text.{Text, codes}
use smtp_sink.Sink.{SinkOptions, ForwardConfig, forward_config}
use smtp_sink.Sink.Report.{Report, printed_port, Outcome, exited, waits}

-- An exit with an error that says why, where the servers do not run; or else the program goes on.
abbrev pub IsTold : Outcome → Bool → Type 0
IsTold (exited out err status) runs =
    (out ≡ []) × ((e : Text) × (err ≡ (codes "Error: " ++ e) ∷ [])) × (status ≡ 1) × (runs ≡ false)
IsTold (waits lines) runs = runs ≡ true

-- Where there is a next server, the port that is printed for it is the one that is used exactly when the
-- options name one or ask for no implicit TLS.
pub printed_port_iff :
    (opts : SinkOptions) (c : ForwardConfig)
    → forward_config opts ≡ some c
    → (printed_port opts ≡ c.port)
      ↔ ((is_some opts.forward_port ≡ true) ⊎ (opts.forward_implicit_tls ≡ false))
unfolding forward_config printed_port
printed_port_iff opts c h = elim (Option-cases opts.forward_host) [
  | inl e ↦ absurd (some-ne-none (sym (rw e at h)))
  | inr (host, e) ↦
      let k = ap (λ (d : ForwardConfig). d.port) (of_some (rw e at h)) in
      subst
        (λ n.
          (unwrap_or opts.forward_port 587 ≡ n)
          ↔ ((is_some opts.forward_port ≡ true) ⊎ (opts.forward_implicit_tls ≡ false)))
        k (ports opts.forward_port opts.forward_implicit_tls)
]
  where
    ports :
        (p : Option ℕ) (implicit : Bool)
        → (unwrap_or p 587 ≡ unwrap_or p (if implicit then 465 else 587))
          ↔ ((is_some p ≡ true) ⊎ (implicit ≡ false))
    ports (some n) b = (λ e. inl refl, λ e. refl)
    ports none true = (
      λ e. absurd (omega (arith, e)),
      λ e. elim e [ inl k ↦ absurd (cc k) | inr k ↦ absurd (cc k) ],
    )
    ports none false = (λ e. inr refl, λ e. refl)
