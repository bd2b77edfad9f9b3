-- ===== src/Proxy.antt =====
-- cli/internal/proxyserver/http_proxy.go: the keys of the proxy server.
pub mod Shutdown
pub mod Reloaded
pub mod Connect
pub mod Certificates
use htvend.Base.{◌≡◌, ◌==◌, ◌&&◌, not, String, Bool, true, false, Option, none, some, List, [], ◌∷◌}
use htvend.Base.{Bytes, string_eq, if◌then◌else◌}
use htvend.Base.Dict
use htvend.Base.Dict.{Dict}
use htvend.Base.Error.{Error, message, wrap, sentinel, os_not_exist, errors_is, Result, ok, err}

-- The fields of ProxyServerConfig that the keys depend on.
pub record ProxyServerConfig : Type 0 where
  pub tls_cert_path : String
  pub tls_key_path : String
  pub tls_generate_if_missing : Bool

-- Packages crypto/rsa, crypto/x509, crypto/tls and encoding/pem: a new key, a certificate of a key
-- that it signs itself and its parser, a key pair from the contents of two files (with the Leaf set),
-- the contents that are written for a certificate and for a key, and whether a key is a
-- crypto.Signer. filepath.Dir is `dir`.
pub record Crypto : Type 1 where
  pub Key : Type 0
  pub Certificate : Type 0
  pub generate_key : Result Key
  pub create_certificate : Key → Result Bytes
  pub parse_certificate : Bytes → Result Certificate
  pub x509_key_pair : Bytes → Bytes → Result (Key × Certificate)
  pub encode_certificate : Certificate → Bytes
  pub encode_key : Key → Result Bytes
  pub is_signer : Key → Bool
  pub dir : String → String

-- What these promise: a certificate that was made of a key belongs to it, and a key with a certificate
-- that belongs to it is read back as it was written.
pub record IsCrypto (X : Crypto) : Type 1 where
  pub Belongs : X.Certificate → X.Key → Type 0
  pub made :
      (k : X.Key) (raw : Bytes) (c : X.Certificate)
      → X.create_certificate k ≡ ok raw
      → X.parse_certificate raw ≡ ok c
      → Belongs c k
  pub read_back :
      (k : X.Key) (c : X.Certificate) (pem : Bytes)
      → Belongs c k
      → X.encode_key k ≡ ok pem
      → X.x509_key_pair (X.encode_certificate c) pem ≡ ok (k, c)

-- The files by path, and the outcomes of the next calls that write: a call that fails may leave
-- other contents behind.
pub record Files : Type 0 where
  pub files : Dict String Bytes
  pub faults : List (Option (Error × Option Bytes))

abbrev later : Files → Files
later d = record d { faults = elim d.faults [ [] ↦ [] | f ∷ fs ↦ fs ] }

abbrev next_fault : Files → Option (Error × Option Bytes)
next_fault d = elim d.faults [ [] ↦ none | f ∷ fs ↦ f ]

-- os.MkdirAll
unfoldable pub mkdir_all : String → Files → Result (Unit {0}) × Files
mkdir_all path d = elim (next_fault d) [ none ↦ (ok tt, later d) | some (e, _) ↦ (err e, later d) ]

-- os.WriteFile
unfoldable pub write_file : String → Bytes → Files → Result (Unit {0}) × Files
write_file path b d = elim (next_fault d) [
  | none ↦ (ok tt, record (later d) { files = Dict.insert path b d.files })
  | some (e, none) ↦ (err e, later d)
  | some (e, some left) ↦ (err e, record (later d) { files = Dict.insert path left d.files })
]

-- os.ReadFile of a file that can be read if it is there
unfoldable pub read_file : String → Files → Result Bytes
read_file path d = elim (Dict.lookup path d.files) [
  | none ↦ err (sentinel os_not_exist)
  | some b ↦ ok b
]

module _ (X : Crypto) where
  abbrev pub KeyPair : Type 0
  KeyPair = X.Key × X.Certificate

  -- tls.LoadX509KeyPair reads the certificate first.
  unfoldable pub loaded : Result Bytes → Result Bytes → Result KeyPair
  loaded (err e) _ = err e
  loaded (ok cert) (err e) = err e
  loaded (ok cert) (ok key) = X.x509_key_pair cert key

  unfoldable pub wrapped : Result KeyPair → Result KeyPair
  wrapped (err e) = err (wrap "error loading cert or key file" e)
  wrapped (ok p) = ok p

  -- readKeyCert
  unfoldable pub read_key_cert : String → String → Files → Result KeyPair
  unfolding loaded wrapped
  read_key_cert key_path cert_path d =
      wrapped (loaded (read_file cert_path d) (read_file key_path d))

  unfoldable pub with_certificate : X.Key → Result Bytes → Result KeyPair
  with_certificate k (err e) = err (wrap "err signing cert" e)
  with_certificate k (ok raw) = elim (X.parse_certificate raw) [
    | err e ↦ err (wrap "err parsing cert" e)
    | ok c ↦ ok (k, c)
  ]

  unfoldable pub certified : Result X.Key → Result KeyPair
  unfolding with_certificate
  certified (err e) = err (wrap "err generating priv key" e)
  certified (ok k) = with_certificate k (X.create_certificate k)

  -- generateKeyCert
  unfoldable pub generate_key_cert : Result KeyPair
  unfolding certified
  generate_key_cert = certified X.generate_key

  -- What generateKeyCert returned, and whether the pair is to be saved
  unfoldable pub generated : Bool → Result KeyPair → Result (KeyPair × Bool)
  generated must_save (err e) = err (wrap "error generating key pair" e)
  generated must_save (ok p) = ok (p, must_save)

  unfoldable pub read_or_generated : Bool → Result KeyPair → Result (KeyPair × Bool)
  unfolding generated
  read_or_generated if_missing (ok p) = ok (p, false)
  read_or_generated if_missing (err e) =
      if errors_is os_not_exist e && if_missing
      then generated true generate_key_cert
      else err (wrap "error reading key pair" e)

  -- The first half of newSelfSignedServer: the key pair, and mustSaveOut.
  unfoldable pub key_pair : ProxyServerConfig → Files → Result (KeyPair × Bool)
  unfolding read_or_generated
  key_pair cfg d =
      if cfg.tls_cert_path == "" && cfg.tls_key_path == ""
      then generated false generate_key_cert
      else read_or_generated cfg.tls_generate_if_missing
          (read_key_cert cfg.tls_key_path cfg.tls_cert_path d)

  -- A call of package os, and what follows if it succeeds.
  unfoldable pub then_save :
      String
      → Result (Unit {0}) × Files
      → (Files → Result (Unit {0}) × Files)
      → Result (Unit {0}) × Files
  then_save m (err e, d) next = (err (wrap m e), d)
  then_save m (ok _, d) next = next d

  -- The two files of a key pair, the key first.
  unfoldable pub save_files : ProxyServerConfig → Bytes → Bytes → Files → Result (Unit {0}) × Files
  save_files cfg key cert d =
      then_save "error creating dir for key" (mkdir_all (X.dir cfg.tls_key_path) d) (λ d1.
        then_save "error writing CA key file" (write_file cfg.tls_key_path key d1) (λ d2.
          then_save "error creating dir for cert" (mkdir_all (X.dir cfg.tls_cert_path) d2) (λ d3.
            then_save "error writing CA cert file" (write_file cfg.tls_cert_path cert d3)
              (λ d4. (ok tt, d4)))))

  -- The part under `if mustSaveOut`.
  unfoldable pub save_out : ProxyServerConfig → KeyPair → Files → Result (Unit {0}) × Files
  save_out cfg (k, c) d = elim (X.encode_key k) [
    | err e ↦ (err (wrap "error marshalling private key" e), d)
    | ok pem ↦ save_files cfg pem (X.encode_certificate c) d
  ]

  unfoldable pub finished :
      ProxyServerConfig → Result (KeyPair × Bool) → Files → Result KeyPair × Files
  finished cfg (err e) d = (err e, d)
  finished cfg (ok (p, must_save)) d =
      if not (X.is_signer p.0)
      then (err (message "private key does not implement Signer!"), d)
      else if must_save
      then (let (r, d') = save_out cfg p d in (elim r [ err e ↦ err e | ok _ ↦ ok p ], d'))
      else (ok p, d)

  -- newSelfSignedServer: the key and the certificate of the server
  unfoldable pub new_self_signed_server : ProxyServerConfig → Files → Result KeyPair × Files
  new_self_signed_server cfg d = finished cfg (key_pair cfg d) d
