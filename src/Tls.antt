-- ===== src/Tls.antt =====
-- `create_acceptor` of src/tls.rs. The file system, the PEM reader, rustls and rcgen are foreign: a record
-- of the functions that the source calls, with their errors as values.
pub mod Sources
use smtp_sink.Prelude.{◌⊎◌, inl, inr, List, [], ◌∷◌, Option, none, some}
use smtp_sink.Text.{Text, Bytes, codes}
use smtp_sink.Sink.{SinkOptions}

-- An I/O error that a call gave, or one that is made here, by its kind: from an error of another type, or
-- from a text.
pub data TlsError (E X : Type 0) : Type 0 where
  passed : E → TlsError E X
  invalid_data other : X → TlsError E X
  no_private_key : TlsError E X

pub record Crypto (E X File Cert Key Server : Type 0) : Type 0 where
  pub open_file : Text → E ⊎ File
  pub read_to_end : File → E ⊎ Bytes
  pub certs : Bytes → List (Option Cert)
  pub private_key : Bytes → E ⊎ Option Key
  pub generate_simple_self_signed : List Text → X ⊎ (Cert × Bytes)
  pub key_from_der : Bytes → X ⊎ Key
  pub with_single_cert : List Cert → Key → X ⊎ Server

-- `?`
infixl 10 ◌>>=◌
abbrev pub ◌>>=◌ : {E A B : Type 0} → E ⊎ A → (A → E ⊎ B) → E ⊎ B
inl e >>= f = inl e
inr a >>= f = f a

-- `map_err`
abbrev pub map_err : {E F A : Type 0} → (E → F) → E ⊎ A → F ⊎ A
map_err f (inl e) = inl (f e)
map_err f (inr a) = inr a

-- `.filter_map(Result::ok).collect()`
unfoldable pub readable : {A : Type 0} → List (Option A) → List A
readable [] = []
readable (none ∷ os) = readable os
readable (some a ∷ os) = a ∷ readable os

-- `.ok_or_else(…)`
abbrev pub key_or_error : {E X Key : Type 0} → Option Key → TlsError E X ⊎ Key
key_or_error none = inl no_private_key
key_or_error (some key) = inr key

module _ {E X File Cert Key Server : Type 0} (crypto : Crypto E X File Cert Key Server) where
  unfoldable pub load_certs_from_files : Text → Text → TlsError E X ⊎ (List Cert × Key)
  unfolding readable
  load_certs_from_files key_path cert_path = do
    key_file ← map_err passed (crypto.open_file key_path)
    key_data ← map_err passed (crypto.read_to_end key_file)
    cert_file ← map_err passed (crypto.open_file cert_path)
    cert_data ← map_err passed (crypto.read_to_end cert_file)
    found ← map_err passed (crypto.private_key key_data)
    key ← key_or_error found
    inr (readable (crypto.certs cert_data), key)

  unfoldable pub generate_self_signed : TlsError E X ⊎ (List Cert × Key)
  generate_self_signed = do
    made ← map_err other (crypto.generate_simple_self_signed (codes "localhost" ∷ []))
    key ← map_err invalid_data (crypto.key_from_der made.1)
    inr (made.0 ∷ [], key)

  -- `if let (Some(key_path), Some(cert_path)) = …`
  unfoldable pub identity : Option Text → Option Text → TlsError E X ⊎ (List Cert × Key)
  unfolding load_certs_from_files generate_self_signed
  identity (some key_path) (some cert_path) = load_certs_from_files key_path cert_path
  identity _ _ = generate_self_signed

  unfoldable pub create_acceptor : SinkOptions → TlsError E X ⊎ Server
  unfolding identity
  create_acceptor opts = do
    pair ← identity opts.tls_key_path opts.tls_cert_path
    map_err invalid_data (crypto.with_single_cert pair.0 pair.1)
