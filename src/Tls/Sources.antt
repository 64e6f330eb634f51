-- ===== src/Tls/Sources.antt =====
-- Where the certificate and the key of the TLS acceptor come from.
use smtp_sink.Prelude.{◌∙◌, ◌≡◌, ◌↔◌, ◌⊎◌, refl, inl, inr, List, [], ◌∷◌, Option, none, some, ap}
use smtp_sink.Text.{Text, Bytes, codes}
use smtp_sink.Sink.{SinkOptions}
use smtp_sink.Tls.{
  TlsError, Crypto, ◌>>=◌, map_err, readable, key_or_error, load_certs_from_files,
  generate_self_signed, identity, create_acceptor,
}

of_inr : {E A : Type 0} {a b : A} → Path (E ⊎ A) (inr a) (inr b) → a ≡ b
of_inr h = cc

bind_iff :
    {E A B : Type 0} (m : E ⊎ A) (f : A → E ⊎ B) (b : B)
    → ((m >>= f) ≡ inr b) ↔ ((a : A) × (m ≡ inr a) × (f a ≡ inr b))
bind_iff (inl e) f b = (λ h. cc h, λ (a, h, k). cc h)
bind_iff (inr a) f b = (λ h. (a, refl, h), λ (a', h, k). cc)

map_err_iff : {E F A : Type 0} (g : E → F) (m : E ⊎ A) (a : A) → (map_err g m ≡ inr a) ↔ (m ≡ inr a)
map_err_iff g (inl e) a = (λ h. cc h, λ h. cc h)
map_err_iff g (inr a') a = (λ h. cc h, λ h. cc h)

key_iff :
    {E X Key : Type 0} (o : Option Key) (key : Key)
    → (key_or_error {E = E} {X = X} o ≡ inr key) ↔ (o ≡ some key)
key_iff none key = (λ h. cc h, λ h. cc h)
key_iff (some k) key = (λ h. cc h, λ h. cc h)

module _ {E X File Cert Key Server : Type 0} (crypto : Crypto E X File Cert Key Server) where
  -- Both files can be read, the first holds a key, and rustls takes the key with the certificates of the
  -- second that can be read.
  pub record FromFiles (key_path cert_path : Text) (server : Server) : Type 0 where
    pub key_file : File
    pub key_data : Bytes
    pub cert_file : File
    pub cert_data : Bytes
    pub key : Key
    pub key_opens : crypto.open_file key_path ≡ inr key_file
    pub key_reads : crypto.read_to_end key_file ≡ inr key_data
    pub cert_opens : crypto.open_file cert_path ≡ inr cert_file
    pub cert_reads : crypto.read_to_end cert_file ≡ inr cert_data
    pub key_found : crypto.private_key key_data ≡ inr (some key)
    pub taken : crypto.with_single_cert (readable (crypto.certs cert_data)) key ≡ inr server

  taken_pair :
      (pair : List Cert × Key) (certs : List Cert) (key : Key) (server : Server)
      → Path (TlsError E X ⊎ (List Cert × Key)) (inr (certs, key)) (inr pair)
      → Path
          (TlsError E X ⊎ Server)
          (map_err TlsError.invalid_data (crypto.with_single_cert pair.0 pair.1))
          (inr server)
      → crypto.with_single_cert certs key ≡ inr server
  taken_pair pair certs key server h ends =
      ap (λ (p : List Cert × Key). crypto.with_single_cert p.0 p.1) (of_inr h)
      ∙ (map_err_iff {F = TlsError E X} TlsError.invalid_data _ server).0 ends

  acceptor_of_files : (key_path cert_path : Text) → TlsError E X ⊎ Server
  acceptor_of_files key_path cert_path = load_certs_from_files crypto key_path cert_path >>= λ pair.
      map_err TlsError.invalid_data (crypto.with_single_cert pair.0 pair.1)

  from_files :
      (key_path cert_path : Text) (server : Server)
      → acceptor_of_files key_path cert_path ≡ inr server
      → FromFiles key_path cert_path server
  unfolding load_certs_from_files acceptor_of_files
  from_files key_path cert_path server h =
      let (pair, h0, ends) =
        (bind_iff (load_certs_from_files crypto key_path cert_path) _ server).0 h in
      let (key_file, h1, r1) =
        (bind_iff (map_err TlsError.passed (crypto.open_file key_path)) _ pair).0 h0 in
      let (key_data, h2, r2) =
        (bind_iff (map_err TlsError.passed (crypto.read_to_end key_file)) _ pair).0 r1 in
      let (cert_file, h3, r3) =
        (bind_iff (map_err TlsError.passed (crypto.open_file cert_path)) _ pair).0 r2 in
      let (cert_data, h4, r4) =
        (bind_iff (map_err TlsError.passed (crypto.read_to_end cert_file)) _ pair).0 r3 in
      let (found, h5, r5) =
        (bind_iff (map_err TlsError.passed (crypto.private_key key_data)) _ pair).0 r4 in
      let (key, h6, r6) = (bind_iff (key_or_error found) _ pair).0 r5 in
      record {
        key_file = key_file;
        key_data = key_data;
        cert_file = cert_file;
        cert_data = cert_data;
        key = key;
        key_opens = (map_err_iff TlsError.passed _ key_file).0 h1;
        key_reads = (map_err_iff TlsError.passed _ key_data).0 h2;
        cert_opens = (map_err_iff TlsError.passed _ cert_file).0 h3;
        cert_reads = (map_err_iff TlsError.passed _ cert_data).0 h4;
        key_found = (map_err_iff TlsError.passed _ found).0 h5 ∙ ap inr ((key_iff found key).0 h6);
        taken = taken_pair pair _ _ server r6 ends;
      }

  to_files :
      (key_path cert_path : Text) (server : Server)
      → FromFiles key_path cert_path server
      → acceptor_of_files key_path cert_path ≡ inr server
  unfolding load_certs_from_files acceptor_of_files
  to_files key_path cert_path server f =
      rw (f.key_opens, f.key_reads, f.cert_opens, f.cert_reads, f.key_found, f.taken)

  -- With both paths, the acceptor is made exactly where both files can be read, the first holds a key,
  -- and rustls takes it with the certificates of the second; entries that cannot be read are passed over.
  pub create_acceptor_files_iff :
      (opts : SinkOptions) (key_path cert_path : Text) (server : Server)
      → opts.tls_key_path ≡ some key_path
      → opts.tls_cert_path ≡ some cert_path
      → (create_acceptor crypto opts ≡ inr server) ↔ FromFiles key_path cert_path server
  unfolding create_acceptor identity acceptor_of_files
  create_acceptor_files_iff opts key_path cert_path server h k =
      rw (h, k) (from_files key_path cert_path server, to_files key_path cert_path server)

  -- A certificate and a key are made for localhost, and rustls takes them.
  pub record SelfSigned (server : Server) : Type 0 where
    pub cert : Cert
    pub der : Bytes
    pub key : Key
    pub made : crypto.generate_simple_self_signed (codes "localhost" ∷ []) ≡ inr (cert, der)
    pub key_read : crypto.key_from_der der ≡ inr key
    pub taken : crypto.with_single_cert (cert ∷ []) key ≡ inr server

  acceptor_of_none : TlsError E X ⊎ Server
  acceptor_of_none = generate_self_signed crypto >>= λ pair.
      map_err TlsError.invalid_data (crypto.with_single_cert pair.0 pair.1)

  self_signed : (server : Server) → acceptor_of_none ≡ inr server → SelfSigned server
  unfolding generate_self_signed acceptor_of_none
  self_signed server h =
      let (pair, h0, ends) = (bind_iff (generate_self_signed crypto) _ server).0 h in
      let (made, h1, r1) =
        (bind_iff
            (map_err TlsError.other (crypto.generate_simple_self_signed (codes "localhost" ∷ []))) _
            pair).0
          h0 in
      let (key, h2, r2) =
        (bind_iff (map_err TlsError.invalid_data (crypto.key_from_der made.1)) _ pair).0 r1 in
      record {
        cert = made.0;
        der = made.1;
        key = key;
        made = (map_err_iff TlsError.other _ made).0 h1;
        key_read = (map_err_iff TlsError.invalid_data _ key).0 h2;
        taken = taken_pair pair _ _ server r2 ends;
      }

  of_SelfSigned : (server : Server) → SelfSigned server → acceptor_of_none ≡ inr server
  unfolding generate_self_signed acceptor_of_none
  of_SelfSigned server f = rw (f.made, f.key_read, f.taken)

  generated :
      (key_path cert_path : Option Text)
      → (key_path ≡ none) ⊎ (cert_path ≡ none)
      → identity crypto key_path cert_path ≡ generate_self_signed crypto
  unfolding identity
  generated none c h = refl
  generated (some k) none h = refl
  generated (some k) (some c) (inl h) = cc h
  generated (some k) (some c) (inr h) = cc h

  -- Where either path is missing, the other is not looked at, nor is the option that asks for a
  -- self-signed certificate: one is made for localhost, and there is an acceptor exactly where that
  -- succeeds.
  pub create_acceptor_generated_iff :
      (opts : SinkOptions) (server : Server)
      → (opts.tls_key_path ≡ none) ⊎ (opts.tls_cert_path ≡ none)
      → (create_acceptor crypto opts ≡ inr server) ↔ SelfSigned server
  unfolding create_acceptor acceptor_of_none
  create_acceptor_generated_iff opts server h =
      rw (generated opts.tls_key_path opts.tls_cert_path h)
        (self_signed server, of_SelfSigned server)
