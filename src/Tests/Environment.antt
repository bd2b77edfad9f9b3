-- ===== src/Tests/Environment.antt =====
-- The variables of the sub-process, and the keystore.
use htvend.Base.{◌≡◌, refl, ◌<◌, ◌++◌, false, none, some, String, List, [], ◌∷◌, string_eq, arith}
use htvend.Base.{Bytes, length}
use htvend.Base.Error.{Result, ok}
use htvend.Environment.{ListenerOptions, EnvCtx, TempDir, make, mutate_env, appenders}
use htvend.Environment.Keystore.{
  PemBlock, Packages, IsPem, entries_from, entries_from_ends, pem_to_jks,
}
use htvend.Environment.Variables.{all_vars, mutate_env-all_vars}

-- Each byte is a block.
abbrev packages : Packages
packages = record {
  Certificate = Bytes;
  decode = λ pem. elim pem [
    | [] ↦ none
    | x ∷ rest ↦ some (record { block_type = "CERTIFICATE"; bytes = x ∷ [] }, rest)
  ];
  parse_certificate = λ b. ok b;
  encode_trust_store_entries = λ entries. ok [];
  join = λ a b. b;
  decimal = λ n. "n";
}

shorter :
    (pem : Bytes) (block : PemBlock) (rest : Bytes)
    → packages.decode pem ≡ some (block, rest)
    → length rest < length pem
shorter [] block rest h = absurd (cc)
shorter (x ∷ r) block rest h = ground arith

packages-IsPem : IsPem packages
packages-IsPem = record { shorter = shorter }

entries_from_ends_example :
    (r : Result (List (Bytes × String))) × (entries_from packages 3 0 (1 ∷ 2 ∷ []) [] ≡ some r)
    × (entries_from packages 7 0 (1 ∷ 2 ∷ []) [] ≡ some r)
entries_from_ends_example =
    entries_from_ends packages packages-IsPem 3 7 0 (1 ∷ 2 ∷ []) [] (omega arith) (omega arith)

abbrev ctx : EnvCtx
ctx = record {
  temp_dir = "/tmp/x";
  proxy_addr = "127.0.0.1:1";
  ca_pem = 1 ∷ [];
  options = record {
    subprocess = record { process = "make"; args = [] };
    daemon = false;
    tls_cert_pem = "";
    tmp_dirs = "CACHE" ∷ [];
    cert_file_env_vars = "SSL_CERT_FILE" ∷ [];
    jks_key_store_vars = "JKS_KEYSTORE_FILE" ∷ [];
    http_proxy_env_vars = "HTTP_PROXY" ∷ ("http_proxy" ∷ []);
    no_proxy_env_vars = "NO_PROXY" ∷ [];
  };
  env_overrides = [];
}

mutate_env-all_vars_example :
    (mutate_env packages (appenders packages) ctx (record { made = []; faults = [] })).1
    ≡ record ctx { env_overrides = [] ++ all_vars packages ctx }
unfolding mutate_env htvend.Environment.std_proxy_vars_appender
    htvend.Environment.ssl_cert_file_appender htvend.Environment.ssl_cert_file_for
    htvend.Environment.set_all string_eq make htvend.Environment.tmp_dirs_appender
    htvend.Environment.make_dirs htvend.Environment.jks_keystore_appender
    htvend.Environment.jks_keystore_for htvend.Environment.jks_converted pem_to_jks entries_from
mutate_env-all_vars_example =
    mutate_env-all_vars packages ctx (record { made = []; faults = [] }) refl
