-- ===== src/Proxy/Certificates.antt =====
-- makeCertFor of cli/internal/proxyserver/http_proxy.go: the certificate for the name that a client asks
-- for in a tunnel.
use htvend.Base.{◌≡◌, refl, sym, ap, subst, String, Option, none, some, List, [], ◌∷◌, Bytes, ℕ}
use htvend.Base.Error.{wrap, Result, ok, err}

-- Packages net, time and crypto/x509: net.ParseIP, AddDate by years, signing a template with the key of
-- the proxy, and VerifyHostname of a certificate by its IP addresses and DNS names.
record X509 : Type 1 where
  pub Ip : Type 0
  pub Time : Type 0
  pub parse_ip : String → Option Ip
  pub add_years : ℕ → Time → Time
  pub create_certificate : ℕ → String → Time → Time → List Ip → List String → Result Bytes
  pub Verifies : List Ip → List String → String → Type 0

-- VerifyHostname takes a text of an IP address as one, and any other text as a DNS name.
record IsX509 (X : X509) : Type 0 where
  pub by_ip : (name : String) (ip : X.Ip) → X.parse_ip name ≡ some ip → X.Verifies (ip ∷ []) [] name
  pub by_name : (name : String) → X.parse_ip name ≡ none → X.Verifies [] (name ∷ []) name

-- The fields of the template that depend on the name or on the time.
record Leaf (X : X509) : Type 0 where
  pub common_name : String
  pub not_before : X.Time
  pub not_after : X.Time
  pub ip_addresses : List X.Ip
  pub dns_names : List String

record Certificate (X : X509) : Type 0 where
  pub raw : Bytes
  pub leaf : Leaf X

module _ (X : X509) where
  unfoldable named : Option X.Ip → Leaf X → Leaf X
  named (some ip) l = record l { ip_addresses = ip ∷ [] }
  named none l = record l { dns_names = l.common_name ∷ [] }

  unfoldable signed : Leaf X → Result Bytes → Result (Certificate X)
  signed l (err e) = err (wrap "err signing cert" e)
  signed l (ok raw) = ok (record { raw = raw; leaf = l })

  -- makeCertFor, at two readings of the clock
  unfoldable make_cert_for : String → X.Time → X.Time → Result (Certificate X)
  unfolding named signed
  make_cert_for name now later =
      let l = named (X.parse_ip name) (record {
        common_name = name;
        not_before = now;
        not_after = X.add_years 1 later;
        ip_addresses = [];
        dns_names = [];
      }) in
      signed l
        (X.create_certificate 2 l.common_name l.not_before l.not_after l.ip_addresses l.dns_names)

  signed-leaf : (l : Leaf X) (r : Result Bytes) (c : Certificate X) → signed l r ≡ ok c → c.leaf ≡ l
  unfolding signed
  signed-leaf l (err e) c h = absurd (cc)
  signed-leaf l (ok raw) c h =
      let e : record { raw = raw; leaf = l } ≡ c = cc in ap (λ (x : Certificate X). x.leaf) (sym e)

  named-Verifies :
      IsX509 X
      → (l : Leaf X) → l.ip_addresses ≡ []
      → l.dns_names ≡ []
      → (o : Option X.Ip) → X.parse_ip l.common_name ≡ o
      → X.Verifies (named o l).ip_addresses (named o l).dns_names l.common_name
  unfolding named
  named-Verifies IX l no_ip no_name (some ip) e = rw no_name (IX.by_ip l.common_name ip e)
  named-Verifies IX l no_ip no_name none e = rw no_ip (IX.by_name l.common_name e)

  -- A certificate that is made passes VerifyHostname for the name that it was made for.
  make_cert_for-Verifies :
      IsX509 X
      → (name : String) (now later : X.Time) (c : Certificate X)
      → make_cert_for name now later ≡ ok c
      → X.Verifies c.leaf.ip_addresses c.leaf.dns_names name
  unfolding make_cert_for
  make_cert_for-Verifies IX name now later c h =
      let l : Leaf X = record {
        common_name = name;
        not_before = now;
        not_after = X.add_years 1 later;
        ip_addresses = [];
        dns_names = [];
      } in
      let l' = named (X.parse_ip name) l in
      let made =
        X.create_certificate 2 l'.common_name l'.not_before l'.not_after l'.ip_addresses
          l'.dns_names in
      subst (λ (x : Leaf X). X.Verifies x.ip_addresses x.dns_names name)
        (sym (signed-leaf l' made c h)) (named-Verifies IX l refl refl (X.parse_ip name) refl)
