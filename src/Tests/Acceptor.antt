-- ===== src/Tests/Acceptor.antt =====
-- The theorems on the TLS acceptor, at concrete inputs.
use smtp_sink.Prelude.{◌≡◌, ◌↔◌, refl, inr, some, none, [], ◌∷◌}
use smtp_sink.Text.{Text, codes}
use smtp_sink.Sink.{SinkOptions}
use smtp_sink.Tls.{Crypto, create_acceptor}
use smtp_sink.Tls.Sources.{SelfSigned, create_acceptor_generated_iff}
use smtp_sink.Tests.Options.{options}

-- Files that hold their own names, which are a key or a certificate, and a server that is the key.
abbrev crypto : Crypto Text Text Text Text Text Text
crypto = record {
  open_file = λ path. inr path;
  read_to_end = λ file. inr file;
  certs = λ data'. some data' ∷ none ∷ [];
  private_key = λ data'. inr (some data');
  generate_simple_self_signed = λ names. inr (codes "cert", codes "der");
  key_from_der = λ der. inr der;
  with_single_cert = λ certs key. inr key;
}

abbrev with_key : SinkOptions
with_key = record options { tls_key_path = some (codes "key.pem") }

create_acceptor_generated_iff_example :
    (create_acceptor crypto with_key ≡ inr (codes "der")) ↔ SelfSigned crypto (codes "der")
create_acceptor_generated_iff_example =
    create_acceptor_generated_iff crypto with_key (codes "der") (inr refl)
