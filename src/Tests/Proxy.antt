-- ===== src/Tests/Proxy.antt =====
-- A first start of the proxy server, and a second one; a session whose second listener
-- cannot open; a tunnel whose client goes away.
use htvend.Base.{
  ◌≡◌, ◌↔◌, ◌⊎◌, refl, ℕ, Bool, true, false, String, Option, none, some, List, [], ◌∷◌, string_eq,
  arith,
}
use htvend.Base.{Bytes, ◌==◌, ==_refl, nat_eq, if◌then◌else◌}
use htvend.Base.Error.{Result, Error, message, wrap, sentinel, conn_reset, ok, err}
use htvend.Listener.Reply.{Reply}
use htvend.Proxy.Connect.{Network, handle_connect, IsStuckOrOver, handle_connect-IsStuckOrOver}
use htvend.Proxy.{ProxyServerConfig, Crypto, IsCrypto, Files, new_self_signed_server}
use htvend.Proxy.Reloaded.{IsFirstStart, new_self_signed_server-again}
use htvend.Proxy.Shutdown.{Ends, serve_until_done, serve_until_done-none}

-- A certificate is the number of the key that it belongs to.
unfoldable parsed_certificate : Bytes → Result ℕ
parsed_certificate [] = err (message "no certificate")
parsed_certificate (c ∷ _) = ok c

unfoldable pair_of : Bytes → Bytes → Result (ℕ × ℕ)
pair_of (c ∷ _) (k ∷ _) =
    if c == k then ok (k, c) else err (message "private key does not match public key")
pair_of _ _ = err (message "no key pair")

abbrev crypto : Crypto
crypto = record {
  Key = ℕ;
  Certificate = ℕ;
  generate_key = ok 7;
  create_certificate = λ k. ok (k ∷ []);
  parse_certificate = parsed_certificate;
  x509_key_pair = pair_of;
  encode_certificate = λ c. c ∷ [];
  encode_key = λ k. ok (k ∷ []);
  is_signer = λ k. true;
  dir = λ path. "/etc";
}

crypto-IsCrypto : IsCrypto crypto
unfolding pair_of parsed_certificate
crypto-IsCrypto = record {
  Belongs = λ c k. c ≡ k;
  made = λ k raw c made parsed.
      (let e : raw ≡ k ∷ [] = cc in
        let q : ok k ≡ ok c = rw (e, parsed_certificate) at parsed in cc);
  read_back = λ k c pem own written. (let e : pem ≡ k ∷ [] = cc in rw (e, own, ==_refl k) refl);
}

abbrev config : ProxyServerConfig
config = record {
  tls_cert_path = "/etc/cert.pem";
  tls_key_path = "/etc/key.pem";
  tls_generate_if_missing = true;
}

abbrev empty : Files
empty = record { files = []; faults = [] }

abbrev saved : Files
saved = record { files = ("/etc/key.pem", 7 ∷ []) ∷ (("/etc/cert.pem", 7 ∷ []) ∷ []); faults = [] }

empty-IsFirstStart : IsFirstStart crypto crypto-IsCrypto config empty
unfolding string_eq htvend.Base.Dict.lookup
empty-IsFirstStart = record { named = refl; apart = refl; wanted = refl; absent = refl }

new_self_signed_server-again_example :
    new_self_signed_server (record crypto { generate_key = ok 8 }) config saved ≡ (ok (7, 7), saved)
unfolding new_self_signed_server htvend.Proxy.finished htvend.Proxy.key_pair
    htvend.Proxy.read_or_generated htvend.Proxy.read_key_cert htvend.Proxy.loaded
    htvend.Proxy.wrapped htvend.Proxy.read_file htvend.Proxy.generated
    htvend.Proxy.generate_key_cert htvend.Proxy.certified htvend.Proxy.with_certificate
    htvend.Proxy.save_out htvend.Proxy.save_files htvend.Proxy.then_save htvend.Proxy.mkdir_all
    htvend.Proxy.write_file string_eq htvend.Base.Dict.lookup htvend.Base.Dict.insert
    htvend.Base.Error.errors_is pair_of parsed_certificate nat_eq
new_self_signed_server-again_example =
    new_self_signed_server-again crypto crypto-IsCrypto config (ok 8) (7, 7) empty
      empty-IsFirstStart refl

abbrev done : Result (Unit {0})
done = ok tt

abbrev in_use : Result (Unit {0})
in_use = err (message "in use")

abbrev ends : Ends
ends = record { main = none; tls = none; main_fails = false }

serve_until_done-none_example :
    (serve_until_done ends false done done in_use (some done) ≡ none) ↔ (
      (done ≡ ok tt)
      × (done ≡ ok tt)
      × (((in_use ≡ ok tt) × (some done ≡ none))
          ⊎ (((e : Error) × (in_use ≡ err e)) × (false ≡ false) × (ends.main_fails ≡ false))))
serve_until_done-none_example = serve_until_done-none ends false done done in_use (some done)

-- The client resets its connection while the answer is copied to it.
abbrev reset : Error
reset = wrap "write" (sentinel conn_reset)

abbrev network : Network
network = record {
  dial = ok tt;
  is_hijacker = true;
  hijack = ok tt;
  receiving = some (err reset);
  sending = some (ok tt);
  source_closing = err (message "closed");
  destination_closing = ok tt;
}

abbrev unanswered : Reply
unanswered = record { header = []; sent = none; body = []; faults = [] }

handle_connect-IsStuckOrOver_example :
    IsStuckOrOver network unanswered (handle_connect network (λ e. "reset") unanswered)
handle_connect-IsStuckOrOver_example =
    handle_connect-IsStuckOrOver network (λ e. "reset") unanswered
