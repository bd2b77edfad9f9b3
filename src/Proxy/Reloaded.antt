-- ===== src/Proxy/Reloaded.antt =====
-- A key pair that newSelfSignedServer has generated and saved, read again.
use htvend.Base.{◌≡◌, sym, ap, subst, refl, ◌==◌, String, true, false, none, some, arith, inl, inr}
use htvend.Base.{Bytes, string_eq, ==_refl, Bool-cases}
use htvend.Base.Dict
use htvend.Base.Dict.{lookup, lookup-insert}
use htvend.Base.Error.{errors_is, Result, ok, err, Result-cases}
use htvend.Proxy.{
  ProxyServerConfig, Crypto, IsCrypto, Files, mkdir_all, write_file, read_file, loaded, wrapped,
  read_key_cert, with_certificate, certified, generate_key_cert, generated, read_or_generated,
  key_pair, then_save, save_files, save_out, finished, new_self_signed_server,
}

read_file_ok :
    (path : String) (b : Bytes) (d : Files) → lookup path d.files ≡ some b → read_file path d ≡ ok b
unfolding read_file
read_file_ok path b d h = rw (h, read_file) refl

module _ (X : Crypto) (cfg : ProxyServerConfig) where
  save_files_ok :
      (key cert : Bytes) (d : Files)
      → (save_files X cfg key cert d).0 ≡ ok tt
      → (save_files X cfg key cert d).1.files
        ≡ Dict.insert cfg.tls_cert_path cert (Dict.insert cfg.tls_key_path key d.files)
  unfolding save_files then_save mkdir_all write_file
  save_files_ok key cert d h = ground arith

  save_out_ok :
      (k : X.Key) (c : X.Certificate) (d : Files)
      → (save_out X cfg (k, c) d).0 ≡ ok tt
      → (pem : Bytes) × (X.encode_key k ≡ ok pem)
        × ((save_out X cfg (k, c) d).1.files
            ≡ Dict.insert cfg.tls_cert_path
                (X.encode_certificate c)
                (Dict.insert cfg.tls_key_path pem d.files))
  unfolding save_out
  save_out_ok k c d h = elim (Result-cases (X.encode_key k)) [
    | inr (e, bad) ↦ absurd (let q = rw (bad, save_out) at h in cc)
    | inl (pem, good) ↦ (
      pem,
      good,
      rw (good, save_out) (save_files_ok pem (X.encode_certificate c) d (rw (good, save_out) at h)),
    )
  ]

  missing-generated :
      (d : Files)
      → (cfg.tls_cert_path == "") ≡ false
      → cfg.tls_generate_if_missing ≡ true
      → lookup cfg.tls_cert_path d.files ≡ none
      → key_pair X cfg d ≡ generated X true (generate_key_cert X)
  unfolding key_pair read_or_generated read_key_cert loaded wrapped read_file errors_is
  missing-generated d named wanted absent = ground arith

  finished_ok :
      (q p : X.Key × X.Certificate) (d : Files)
      → (finished X cfg (ok (q, true)) d).0 ≡ ok p
      → (p ≡ q)
        × (X.is_signer q.0 ≡ true)
        × ((save_out X cfg q d).0 ≡ ok tt)
        × ((finished X cfg (ok (q, true)) d).1 ≡ (save_out X cfg q d).1)
  unfolding finished
  finished_ok q p d h = elim (Bool-cases (X.is_signer q.0)) [
    | inr bad ↦ absurd (let e = rw (bad, finished) at h in cc)
    | inl signs ↦ elim (Result-cases (save_out X cfg q d).0) [
      | inr (e, failed) ↦ absurd (let z = rw (signs, failed, finished) at h in cc)
      | inl (_, done) ↦
          let z = rw (signs, done, finished) at h in (cc, signs, done, rw (signs, finished) refl)
    ]
  ]

  read_saved :
      (I : IsCrypto X) (k : X.Key) (c : X.Certificate) (pem : Bytes) (d d' : Files)
      → I.Belongs c k
      → (cfg.tls_key_path == cfg.tls_cert_path) ≡ false
      → X.encode_key k ≡ ok pem
      → d'.files
        ≡ Dict.insert cfg.tls_cert_path
            (X.encode_certificate c)
            (Dict.insert cfg.tls_key_path pem d.files)
      → read_key_cert X cfg.tls_key_path cfg.tls_cert_path d' ≡ ok (k, c)
  unfolding read_key_cert loaded wrapped
  read_saved I k c pem d d' own apart good files =
      let cert : lookup cfg.tls_cert_path d'.files ≡ some (X.encode_certificate c) =
        rw (files, lookup-insert, ==_refl) refl in
      let key : lookup cfg.tls_key_path d'.files ≡ some pem =
        rw (files, lookup-insert, apart, lookup-insert, ==_refl) refl in
      rw
        (
          read_file_ok cfg.tls_cert_path (X.encode_certificate c) d' cert,
          read_file_ok cfg.tls_key_path pem d' key,
          loaded,
          I.read_back k c pem own good,
        )
        refl

module _ (X : Crypto) (I : IsCrypto X) (cfg : ProxyServerConfig) where
  -- The certificate's path is given and no file, is not that of the key, and a missing pair is to be
  -- generated.
  pub record IsFirstStart (d : Files) : Type 0 where
    pub named : (cfg.tls_cert_path == "") ≡ false
    pub apart : (cfg.tls_key_path == cfg.tls_cert_path) ≡ false
    pub wanted : cfg.tls_generate_if_missing ≡ true
    pub absent : lookup cfg.tls_cert_path d.files ≡ none

  generated_ok :
      (p : X.Key × X.Certificate) (r : Result (X.Key × X.Certificate)) (d : Files)
      → (finished X cfg (generated X true r) d).0 ≡ ok p
      → (r ≡ ok p)
        × (X.is_signer p.0 ≡ true)
        × ((save_out X cfg p d).0 ≡ ok tt)
        × ((finished X cfg (generated X true r) d).1 ≡ (save_out X cfg p d).1)
  unfolding generated finished
  generated_ok p (err e) d h = absurd (cc)
  generated_ok p (ok q) d h =
      let (same, signs, done, files) = finished_ok X cfg q p d h in
      (ap ok (sym same), rw same signs, rw same done, rw same files)

  again_ok :
      (g : Result X.Key) (p : X.Key × X.Certificate) (pem : Bytes) (d d' : Files)
      → IsFirstStart d
      → I.Belongs p.1 p.0
      → X.is_signer p.0 ≡ true
      → X.encode_key p.0 ≡ ok pem
      → d'.files
        ≡ Dict.insert cfg.tls_cert_path
            (X.encode_certificate p.1)
            (Dict.insert cfg.tls_key_path pem d.files)
      → finished
          (record X { generate_key = g })
          cfg
          (key_pair (record X { generate_key = g }) cfg d')
          d'
        ≡ (ok p, d')
  unfolding key_pair read_or_generated finished
  again_ok g p pem d d' f own signs good files =
      let saved =
        read_saved (record X { generate_key = g }) cfg
          (record { Belongs = I.Belongs; made = I.made; read_back = I.read_back }) p.0 p.1 pem d d'
          own f.apart good files in
      rw (f.named, saved, read_or_generated, finished, signs) refl

  with_certificate-Belongs :
      (k : X.Key) (raw : Result Bytes) (p : X.Key × X.Certificate)
      → X.create_certificate k ≡ raw
      → with_certificate X k raw ≡ ok p
      → I.Belongs p.1 p.0
  unfolding with_certificate
  with_certificate-Belongs k (err e) p made h = absurd (cc)
  with_certificate-Belongs k (ok raw) p made h = elim (Result-cases (X.parse_certificate raw)) [
    | inr (e, bad) ↦ absurd (let q = rw (bad, with_certificate) at h in cc)
    | inl (c, good) ↦
        let q : ok (k, c) ≡ ok p = rw (good, with_certificate) at h in
        let same : (k, c) ≡ p = cc in
        subst (λ (x : X.Key × X.Certificate). I.Belongs x.1 x.0) same (I.made k raw c made good)
  ]

  generate_key_cert-Belongs :
      (p : X.Key × X.Certificate) → generate_key_cert X ≡ ok p → I.Belongs p.1 p.0
  unfolding generate_key_cert certified
  generate_key_cert-Belongs p h = elim (Result-cases X.generate_key) [
    | inr (e, bad) ↦ absurd (let q = rw (bad, certified) at h in cc)
    | inl (k, good) ↦
        with_certificate-Belongs k (X.create_certificate k) p refl (rw (good, certified) at h)
  ]

  -- For packages that read back a key with a certificate that was made of it, a certificate's path that is given and not
  -- the key's and has no file, and missing pairs that are to be generated: if newSelfSignedServer
  -- returns a server, then when it is called again, whatever a second key would be, it returns a
  -- server with the same key and certificate and changes no file.
  pub new_self_signed_server-again :
      (g : Result X.Key) (p : X.Key × X.Certificate) (d : Files)
      → IsFirstStart d
      → let (r, d') = new_self_signed_server X cfg d in
        r ≡ ok p → new_self_signed_server (record X { generate_key = g }) cfg d' ≡ (ok p, d')
  unfolding new_self_signed_server
  new_self_signed_server-again g p d f h =
      let made = missing-generated X cfg d f.named f.wanted f.absent in
      let (made_now, signs, done, after) = generated_ok p (generate_key_cert X) d (rw made at h) in
      let (pem, good, files) = save_out_ok X cfg p.0 p.1 d done in
      rw (made, after)
        (again_ok g p pem d (save_out X cfg p d).1 f (generate_key_cert-Belongs p made_now) signs
          good files)
