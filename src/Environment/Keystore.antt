-- ===== src/Environment/Keystore.antt =====
-- pemToJks of cli/internal/htvend/environment_jks_keystore_file.go, over any decoder of PEM blocks
-- and of certificates.
use htvend.Base.{
  ◌≡◌, refl, ℕ, zero, suc, ◌+◌, ◌<◌, String, not, Option, none, some, List, [], ◌∷◌, ◌++◌, ◌<>◌,
  ◌==◌, inl, inr, arith,
}
use htvend.Base.{Bytes, length, Option-cases, Bool-cases, string_eq, if◌then◌else◌}
use htvend.Base.Error.{message, wrap, Result, Result-cases, ok, err}

pub record PemBlock : Type 0 where
  pub block_type : String
  pub bytes : Bytes

-- Packages encoding/pem (the first block, and what follows it), crypto/x509, go-pkcs12, path/filepath
-- and the decimals of fmt.
pub record Packages : Type 1 where
  pub Certificate : Type 0
  pub decode : Bytes → Option (PemBlock × Bytes)
  pub parse_certificate : Bytes → Result Certificate
  pub encode_trust_store_entries : List (Certificate × String) → Result Bytes
  pub join : String → String → String
  pub decimal : ℕ → String

-- What encoding/pem promises: what follows a block is shorter than what was read.
pub record IsPem (X : Packages) : Type 0 where
  pub shorter :
      (pem : Bytes) (block : PemBlock) (rest : Bytes)
      → X.decode pem ≡ some (block, rest)
      → length rest < length pem

module _ (X : Packages) where
  -- The loop, in at most so many rounds; `none` if these are not enough.
  unfoldable pub entries_from :
      ℕ
      → ℕ
      → Bytes
      → List (X.Certificate × String)
      → Option (Result (List (X.Certificate × String)))
  entries_from zero i ca_pem entries = none
  entries_from (suc n) i ca_pem entries = elim (X.decode ca_pem) [
    | none ↦ some (ok entries)
    | some (block, rest) ↦
        let skipped = entries_from n (i + 1) rest entries in
        if not (block.block_type == "CERTIFICATE")
        then skipped
        else elim (X.parse_certificate block.bytes) [
          | err e ↦ some (err (wrap "error parsing cert" e))
          | ok cert ↦ entries_from n (i + 1) rest (entries ++ ((cert, "cert" <> X.decimal i) ∷ []))
        ]
  ]

  encoded : Option (Result (List (X.Certificate × String))) → Result Bytes
  encoded none = err (message "not enough rounds")
  encoded (some (err e)) = err e
  encoded (some (ok entries)) = elim (X.encode_trust_store_entries entries) [
    | err e ↦ err (wrap "error encoding JKS" e)
    | ok bb ↦ ok bb
  ]

  -- pemToJks, from and to a buffer, which never fails
  unfoldable pub pem_to_jks : Bytes → Result Bytes
  unfolding encoded
  pem_to_jks ca_pem = encoded (entries_from (suc (length ca_pem)) 0 ca_pem [])

  -- If what follows a block is always shorter, then the rounds that pemToJks allows are enough,
  -- and any larger number gives the same: the loop ends on every input.
  pub entries_from_ends :
      IsPem X
      → (n m i : ℕ) (ca_pem : Bytes) (entries : List (X.Certificate × String)) → length ca_pem < n
      → length ca_pem < m
      → (r : Result (List (X.Certificate × String))) × (entries_from n i ca_pem entries ≡ some r)
        × (entries_from m i ca_pem entries ≡ some r)
  unfolding entries_from
  entries_from_ends p zero m i pem es hn hm = absurd (omega arith)
  entries_from_ends p (suc n) zero i pem es hn hm = absurd (omega arith)
  entries_from_ends p (suc n) (suc m) i pem es hn hm = elim (Option-cases (X.decode pem)) [
    | inl over ↦ (ok es, rw (over, entries_from) refl, rw (over, entries_from) refl)
    | inr ((block, rest), found) ↦
        let less = p.shorter pem block rest found in
        let again = λ (es' : List (X.Certificate × String)).
          entries_from_ends p n m (i + 1) rest es' (omega arith) (omega arith) in
        elim (Bool-cases (block.block_type == "CERTIFICATE")) [
          | inr other ↦
              let (r, by_n, by_m) = again es in
              (r, rw (found, other, entries_from) by_n, rw (found, other, entries_from) by_m)
          | inl cert ↦ elim (Result-cases (X.parse_certificate block.bytes)) [
            | inr (e, bad) ↦ (
              err (wrap "error parsing cert" e),
              rw (found, cert, bad, entries_from) refl,
              rw (found, cert, bad, entries_from) refl,
            )
            | inl (c, good) ↦
                let (r, by_n, by_m) = again (es ++ ((c, "cert" <> X.decimal i) ∷ [])) in
                (
                  r,
                  rw (found, cert, good, entries_from) by_n,
                  rw (found, cert, good, entries_from) by_m,
                )
          ]
        ]
  ]
