-- ===== src/Environment/Variables.antt =====
-- The variables that the appenders of cli/internal/htvend/environment_*.go add.
use htvend.Base.{
  ◌≡◌, refl, sym, ap, ◌∙◌, String, none, some, List, [], ◌∷◌, ◌++◌, ◌<>◌, ◌==◌, append-nil,
  append_assoc, inl, inr,
}
use htvend.Base.{Bytes, string_eq, if◌then◌else◌, Bool-cases}
use htvend.Base.Error.{Result, ok, err, Result-cases}
use htvend.Environment.{
  EnvCtx, TempDir, make, set_all, Appender, std_proxy_vars_appender, cert_written,
  ssl_cert_file_for, ssl_cert_file_appender, make_dirs, tmp_dirs_appender, jks_written,
  jks_converted, jks_keystore_for, jks_keystore_appender, mutate_env, appenders,
}
use htvend.Environment.Keystore.{Packages, pem_to_jks}

-- Each of the variables with the value.
abbrev pub assigned : List String → String → List String
assigned [] value = []
assigned (ev ∷ vars) value = (ev <> "=" <> value) ∷ assigned vars value

set_all_lem :
    (vars : List String) (value : String) (e : EnvCtx)
    → set_all vars value e ≡ record e { env_overrides = e.env_overrides ++ assigned vars value }
unfolding set_all
set_all_lem [] value e = ap (λ l. record e { env_overrides = l }) (sym (append-nil e.env_overrides))
set_all_lem (ev ∷ vars) value e =
    set_all_lem vars value
      (record e { env_overrides = e.env_overrides ++ ((ev <> "=" <> value) ∷ []) })
    ∙ ap (λ l. record e { env_overrides = l })
        (append_assoc e.env_overrides ((ev <> "=" <> value) ∷ []) (assigned vars value))

-- The appender, when it succeeds, adds these variables and changes nothing else.
abbrev Adds : Appender → (EnvCtx → List String) → Type 0
Adds f vars =
    (e : EnvCtx) (t : TempDir)
    → (f e t).0 ≡ ok tt
    → (f e t).1 ≡ record e { env_overrides = e.env_overrides ++ vars e }

abbrev proxy_vars : EnvCtx → List String
proxy_vars e =
    assigned e.options.http_proxy_env_vars ("http://" <> e.proxy_addr)
    ++ assigned e.options.no_proxy_env_vars ""

std_proxy_vars_appender-Adds : Adds std_proxy_vars_appender proxy_vars
unfolding std_proxy_vars_appender
std_proxy_vars_appender-Adds e t h =
    let http = assigned e.options.http_proxy_env_vars ("http://" <> e.proxy_addr) in
    let blank = assigned e.options.no_proxy_env_vars "" in
    let e1 : EnvCtx = record e { env_overrides = e.env_overrides ++ http } in
    ap (λ (x : EnvCtx). set_all x.options.no_proxy_env_vars "" x)
      (set_all_lem e.options.http_proxy_env_vars ("http://" <> e.proxy_addr) e)
    ∙ set_all_lem e.options.no_proxy_env_vars "" e1
    ∙ ap (λ l. record e { env_overrides = l }) (append_assoc e.env_overrides http blank)

module _ (X : Packages) where
  abbrev cert_path : EnvCtx → String
  cert_path e =
      if e.options.tls_cert_pem == ""
      then X.join e.temp_dir "cacerts.pem"
      else e.options.tls_cert_pem

  cert_written_ok :
      (path : String) (e : EnvCtx) (r : Result (Unit {0})) (t : TempDir)
      → (cert_written X path e (r, t)).0 ≡ ok tt
      → (cert_written X path e (r, t)).1
        ≡ record e { env_overrides = e.env_overrides ++ assigned e.options.cert_file_env_vars path }
  unfolding cert_written
  cert_written_ok path e (err x) t h = absurd (cc)
  cert_written_ok path e (ok _) t h = set_all_lem e.options.cert_file_env_vars path e

  jks_written_ok :
      (path : String) (e : EnvCtx) (r : Result (Unit {0})) (t : TempDir)
      → (jks_written X path e (r, t)).0 ≡ ok tt
      → (jks_written X path e (r, t)).1
        ≡ record e { env_overrides = e.env_overrides ++ assigned e.options.jks_key_store_vars path }
  unfolding jks_written
  jks_written_ok path e (err x) t h = absurd (cc)
  jks_written_ok path e (ok _) t h = set_all_lem e.options.jks_key_store_vars path e

  ssl_cert_file_for-Adds :
      (vars : List String) (e : EnvCtx) (t : TempDir)
      → e.options.cert_file_env_vars ≡ vars
      → (ssl_cert_file_for X vars e t).0 ≡ ok tt
      → (ssl_cert_file_for X vars e t).1 ≡ record e {
        env_overrides = e.env_overrides ++ assigned e.options.cert_file_env_vars (cert_path e);
      }
  unfolding ssl_cert_file_for
  ssl_cert_file_for-Adds [] e t same h =
      ap (λ l. record e { env_overrides = l })
        (sym (append-nil e.env_overrides)
          ∙ ap (λ vs. e.env_overrides ++ assigned vs (cert_path e)) (sym same))
  ssl_cert_file_for-Adds (v ∷ vs) e t same h = elim (Bool-cases (e.options.tls_cert_pem == "")) [
    | inl unset ↦
        let path = X.join e.temp_dir "cacerts.pem" in
        let (r, t') = make path (some e.ca_pem) t in
        simp unset (cert_written_ok path e r t' (simp unset at h))
    | inr set ↦ simp set (cert_written_ok e.options.tls_cert_pem e (ok tt) t (simp set at h))
  ]

  ssl_cert_file_appender-Adds :
      Adds (ssl_cert_file_appender X) (λ e. assigned e.options.cert_file_env_vars (cert_path e))
  unfolding ssl_cert_file_appender
  ssl_cert_file_appender-Adds e t h = ssl_cert_file_for-Adds e.options.cert_file_env_vars e t refl h

  abbrev jks_path : EnvCtx → String
  jks_path e = X.join e.temp_dir "cacerts.jks"

  jks_converted-Adds :
      (x : Result Bytes)
      → Adds (jks_converted X x) (λ e. assigned e.options.jks_key_store_vars (jks_path e))
  unfolding jks_converted
  jks_converted-Adds (err x) e t h = absurd (cc)
  jks_converted-Adds (ok jks) e t h =
      let (r, t') = make (jks_path e) (some jks) t in jks_written_ok (jks_path e) e r t' h

  jks_keystore_for-Adds :
      (vars : List String) (e : EnvCtx) (t : TempDir)
      → e.options.jks_key_store_vars ≡ vars
      → (jks_keystore_for X vars e t).0 ≡ ok tt
      → (jks_keystore_for X vars e t).1 ≡ record e {
        env_overrides = e.env_overrides ++ assigned e.options.jks_key_store_vars (jks_path e);
      }
  unfolding jks_keystore_for
  jks_keystore_for-Adds [] e t same h =
      ap (λ l. record e { env_overrides = l })
        (sym (append-nil e.env_overrides)
          ∙ ap (λ vs. e.env_overrides ++ assigned vs (jks_path e)) (sym same))
  jks_keystore_for-Adds (v ∷ vs) e t same h = jks_converted-Adds (pem_to_jks X e.ca_pem) e t h

  jks_keystore_appender-Adds :
      Adds (jks_keystore_appender X) (λ e. assigned e.options.jks_key_store_vars (jks_path e))
  unfolding jks_keystore_appender
  jks_keystore_appender-Adds e t h = jks_keystore_for-Adds e.options.jks_key_store_vars e t refl h

  -- Each of the names with the directory of that name.
  abbrev pub dir_vars : List String → String → List String
  dir_vars [] temp_dir = []
  dir_vars (td ∷ tds) temp_dir = (td <> "=" <> X.join temp_dir td) ∷ dir_vars tds temp_dir

  make_dirs-Adds :
      (tds : List String) (e : EnvCtx) (t : TempDir)
      → (make_dirs X tds e t).0 ≡ ok tt
      → (make_dirs X tds e t).1
        ≡ record e { env_overrides = e.env_overrides ++ dir_vars tds e.temp_dir }
  unfolding make_dirs
  make_dirs-Adds [] e t h =
      ap (λ l. record e { env_overrides = l }) (sym (append-nil e.env_overrides))
  make_dirs-Adds (td ∷ tds) e t h =
      let path = X.join e.temp_dir td in
      let (r, t') = make path none t in
      let one = (td <> "=" <> path) ∷ [] in
      let e1 : EnvCtx = record e { env_overrides = e.env_overrides ++ one } in
      elim (Result-cases r) [
        | inr (x, bad) ↦ absurd (let q = rw (bad, make_dirs) at h in cc)
        | inl (_, good) ↦
            rw (good, make_dirs)
              (make_dirs-Adds tds e1 t' (rw (good, make_dirs) at h)
                ∙ ap (λ l. record e { env_overrides = l })
                    (append_assoc e.env_overrides one (dir_vars tds e.temp_dir)))
      ]

  tmp_dirs_appender-Adds : Adds (tmp_dirs_appender X) (λ e. dir_vars e.options.tmp_dirs e.temp_dir)
  unfolding tmp_dirs_appender
  tmp_dirs_appender-Adds e t h = make_dirs-Adds e.options.tmp_dirs e t h

  none-Adds : Adds (mutate_env X []) (λ e. [])
  unfolding mutate_env
  none-Adds e t h = ap (λ l. record e { env_overrides = l }) (sym (append-nil e.env_overrides))

  -- An appender, and then others, whose variables do not depend on those that are set.
  more-Adds :
      (f : Appender) (fs : List Appender) (vars rest : EnvCtx → List String)
      → ((e : EnvCtx) (l : List String) → rest (record e { env_overrides = l }) ≡ rest e)
      → Adds f vars
      → Adds (mutate_env X fs) rest
      → Adds (mutate_env X (f ∷ fs)) (λ e. vars e ++ rest e)
  unfolding mutate_env
  more-Adds f fs vars rest stable one others e t h = elim (Result-cases (f e t).0) [
    | inr (x, bad) ↦ absurd (let q = rw (bad, mutate_env) at h in cc)
    | inl (_, good) ↦
        let e1 : EnvCtx = record e { env_overrides = e.env_overrides ++ vars e } in
        rw (good, mutate_env)
          (others (f e t).1 (f e t).2 (rw (good, mutate_env) at h)
            ∙ ap (λ (x : EnvCtx). record x { env_overrides = x.env_overrides ++ rest x })
                (one e t good)
            ∙ ap (λ l. record e { env_overrides = l })
                (ap (λ l. (e.env_overrides ++ vars e) ++ l) (stable e (e.env_overrides ++ vars e))
                  ∙ append_assoc e.env_overrides (vars e) (rest e)))
  ]

  -- All of them, in the order of the appenders.
  abbrev pub all_vars : EnvCtx → List String
  all_vars e =
      proxy_vars e
      ++ (assigned e.options.cert_file_env_vars (cert_path e)
          ++ (dir_vars e.options.tmp_dirs e.temp_dir
              ++ (assigned e.options.jks_key_store_vars (jks_path e) ++ [])))

  -- If the four appenders succeed, then exactly these variables are added, in this order: each
  -- proxy variable with the proxy's address, each no-proxy variable blank, each certificate variable
  -- with the given certificate's path, or else with that of the file in the temporary directory,
  -- each temporary directory's name with its path, and each keystore variable with the keystore's
  -- path; and nothing else of the context changes.
  pub mutate_env-all_vars :
      (e : EnvCtx) (t : TempDir)
      → (mutate_env X (appenders X) e t).0 ≡ ok tt
      → (mutate_env X (appenders X) e t).1
        ≡ record e { env_overrides = e.env_overrides ++ all_vars e }
  mutate_env-all_vars =
      more-Adds std_proxy_vars_appender _ proxy_vars _ (λ e l. refl) std_proxy_vars_appender-Adds
        (more-Adds (ssl_cert_file_appender X) _ _ _ (λ e l. refl) ssl_cert_file_appender-Adds
          (more-Adds (tmp_dirs_appender X) _ _ _ (λ e l. refl) tmp_dirs_appender-Adds
            (more-Adds (jks_keystore_appender X) [] _ (λ e. []) (λ e l. refl)
              jks_keystore_appender-Adds none-Adds)))
