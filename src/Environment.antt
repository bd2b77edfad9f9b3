-- ===== src/Environment.antt =====
-- cli/internal/htvend/environment_*.go and the callback of RunListenerWithSubprocess in
-- cli/internal/htvend/flags_listener.go: the variables that the sub-process gets, and the files that
-- they name.
pub mod Keystore
pub mod Command
pub mod Variables
use htvend.Base.{
  String, Bool, true, false, not, Option, none, some, List, [], ◌∷◌, ◌++◌, ◌<>◌, ◌==◌,
}
use htvend.Base.{Bytes, string_eq, if◌then◌else◌}
use htvend.Base.Error.{Error, message, wrap, Result, ok, err}
use htvend.Environment.Keystore.{Packages, pem_to_jks}
use htvend.Environment.Command.{SubprocessOptions, Machine, run_subprocess}

-- The fields of ListenerOptions that the callback and the appenders read.
pub record ListenerOptions : Type 0 where
  pub subprocess : SubprocessOptions
  pub daemon : Bool
  pub tls_cert_pem : String
  pub tmp_dirs : List String
  pub cert_file_env_vars : List String
  pub jks_key_store_vars : List String
  pub http_proxy_env_vars : List String
  pub no_proxy_env_vars : List String

pub record EnvCtx : Type 0 where
  pub temp_dir : String
  pub proxy_addr : String
  pub ca_pem : Bytes
  pub options : ListenerOptions
  pub env_overrides : List String

-- What was made in the temporary directory, the oldest first, by path: a file with its content, or a
-- directory; and the outcomes of the next calls.
pub record TempDir : Type 0 where
  pub made : List (String × Option Bytes)
  pub faults : List (Option Error)

-- os.WriteFile or os.Mkdir
unfoldable pub make : String → Option Bytes → TempDir → Result (Unit {0}) × TempDir
make path content t = elim t.faults [
  | [] ↦ (ok tt, record t { made = t.made ++ ((path, content) ∷ []) })
  | none ∷ fs ↦ (ok tt, record { made = t.made ++ ((path, content) ∷ []); faults = fs })
  | some e ∷ fs ↦ (err e, record t { faults = fs })
]

-- for _, ev := range vars { e.EnvOverrides = append(e.EnvOverrides, ev+"="+value) }
unfoldable pub set_all : List String → String → EnvCtx → EnvCtx
set_all [] value e = e
set_all (ev ∷ vars) value e =
    set_all vars value (record e { env_overrides = e.env_overrides ++ ((ev <> "=" <> value) ∷ []) })

abbrev pub Appender : Type 0
Appender = EnvCtx → TempDir → Result (Unit {0}) × EnvCtx × TempDir

-- stdProxyVarsAppender
unfoldable pub std_proxy_vars_appender : Appender
std_proxy_vars_appender e t =
    let e1 = set_all e.options.http_proxy_env_vars ("http://" <> e.proxy_addr) e in
    (ok tt, set_all e1.options.no_proxy_env_vars "" e1, t)

module _ (X : Packages) where
  unfoldable pub cert_written :
      String → EnvCtx → Result (Unit {0}) × TempDir → Result (Unit {0}) × EnvCtx × TempDir
  cert_written path e (err x, t) = (err (wrap "error writing CA PEM file" x), e, t)
  cert_written path e (ok _, t) = (ok tt, set_all e.options.cert_file_env_vars path e, t)

  unfoldable pub ssl_cert_file_for : List String → Appender
  unfolding cert_written
  ssl_cert_file_for [] e t = (ok tt, e, t)
  ssl_cert_file_for (_ ∷ _) e t =
      if e.options.tls_cert_pem == ""
      then (let path = X.join e.temp_dir "cacerts.pem" in
          cert_written path e (make path (some e.ca_pem) t))
      else cert_written e.options.tls_cert_pem e (ok tt, t)

  -- sslCertFileAppender
  unfoldable pub ssl_cert_file_appender : Appender
  ssl_cert_file_appender e t = ssl_cert_file_for e.options.cert_file_env_vars e t

  -- the loop of tmpDirsAppender
  unfoldable pub make_dirs : List String → Appender
  make_dirs [] e t = (ok tt, e, t)
  make_dirs (td ∷ tds) e t =
      let path = X.join e.temp_dir td in
      let (r, t') = make path none t in
      let rest =
        make_dirs tds (record e { env_overrides = e.env_overrides ++ ((td <> "=" <> path) ∷ []) })
          t' in
      elim r [ ok _ ↦ rest | err x ↦ (err (wrap "error creating temp dir" x), e, t') ]

  -- tmpDirsAppender
  unfoldable pub tmp_dirs_appender : Appender
  tmp_dirs_appender e t = make_dirs e.options.tmp_dirs e t

  unfoldable pub jks_written :
      String → EnvCtx → Result (Unit {0}) × TempDir → Result (Unit {0}) × EnvCtx × TempDir
  jks_written path e (err x, t) = (err (wrap "error writing CA PEM file" x), e, t)
  jks_written path e (ok _, t) = (ok tt, set_all e.options.jks_key_store_vars path e, t)

  -- From the outcome of pemToJks on.
  unfoldable pub jks_converted : Result Bytes → Appender
  unfolding jks_written
  jks_converted (err x) e t = (err (wrap "error converting PEM to JKS file" x), e, t)
  jks_converted (ok jks) e t =
      let path = X.join e.temp_dir "cacerts.jks" in jks_written path e (make path (some jks) t)

  unfoldable pub jks_keystore_for : List String → Appender
  jks_keystore_for [] e t = (ok tt, e, t)
  jks_keystore_for (_ ∷ _) e t = jks_converted (pem_to_jks X e.ca_pem) e t

  -- jksKeystoreAppender
  unfoldable pub jks_keystore_appender : Appender
  jks_keystore_appender e t = jks_keystore_for e.options.jks_key_store_vars e t

  -- The loop over the appenders.
  unfoldable pub mutate_env : List Appender → Appender
  mutate_env [] e t = (ok tt, e, t)
  mutate_env (f ∷ fs) e t =
      let (r, e', t') = f e t in
      let rest = mutate_env fs e' t' in
      elim r [ ok _ ↦ rest | err x ↦ (err (wrap "error modifying env" x), e', t') ]

  abbrev pub appenders : List Appender
  appenders =
      std_proxy_vars_appender
      ∷ (ssl_cert_file_appender ∷ (tmp_dirs_appender ∷ (jks_keystore_appender ∷ [])))

  -- The callback once the temporary directory is there; a daemon ends when it is cancelled.
  unfoldable pub with_proxy :
      Machine
      → String
      → ListenerOptions
      → String
      → Bytes
      → String
      → TempDir
      → Result (Unit {0}) × TempDir
  with_proxy M prompt o proxy_addr ca_pem temp_dir t =
      let (r, e, t') =
        mutate_env appenders
          (record {
            temp_dir = temp_dir;
            proxy_addr = proxy_addr;
            ca_pem = ca_pem;
            options = o;
            env_overrides = [];
          })
          t in
      (
        elim r [
          | err x ↦ err x
          | ok _ ↦
              if not o.daemon
              then run_subprocess M prompt o.subprocess e.env_overrides
              else if not (o.subprocess.process == "")
              then err (
                  message (
                    "if running as a daemon, no sub-process should be specified. Received: "
                    <> o.subprocess.process))
              else ok tt
        ],
        t',
      )
