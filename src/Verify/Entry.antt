-- ===== src/Verify/Entry.antt =====
-- One round of doValidate's loop (cli/internal/htvend/command_verify.go).
use htvend.Base.{
  ◌≡◌, refl, sym, subst, ap, ◌∙◌, ◌==◌, true, String, none, List, [], ◌∷◌, ◌++◌, ◌<>◌, arith,
  append-nil, inl, inr,
}
use htvend.Base.{
  Bytes, IsBytes, concat, list_eq, nat_eq, string_eq, ==_sound, Option-cases, Bool-cases,
}
use htvend.Base.Hex.{decode}
use htvend.Base.Error.{wrap_err, defer_error, defer_error_ok, Result, ok, err}
use htvend.Platform.{Platform, IsPlatform}
use htvend.Stream.{Reader, copy_one, tee_all, copy_chunk}
use htvend.Stream.Laws.{copy_chunks_ok, copy_one_direct}
use htvend.Lockfile.{BlobInfo, Urls}
use htvend.Blobstore.{Store, IsLawful}
use htvend.Blobstore.Growth.{Grows, Grows-get, IsBacked}
use htvend.Verify.{
  ValidateCtx, copy_to_writers, hash_write, Validation, compared, validated, validate_entry,
}

hash_write_lem : (p s : Bytes) → (hash_write p s).1 ≡ s ++ p
unfolding hash_write
hash_write_lem p s = refl

snoc-ne-nil {ℓ} : {A : Type ℓ} → (xs : List A) (x : A) → xs ++ (x ∷ []) ≡ [] → ⊥
snoc-ne-nil [] x h = cc
snoc-ne-nil (y ∷ xs) x h = cc

hash_round :
    (p b : Bytes) (s : Bytes)
    → s ≡ b
    → (copy_one hash_write [] p s).0 ≡ ok tt
    → (copy_one hash_write [] p s).1 ≡ b ++ p
unfolding copy_one tee_all copy_chunk
hash_round [] b s h e = h ∙ sym (append-nil b)
hash_round (x ∷ p) b s h e =
    let (done, same) = copy_one_direct hash_write x p s e in
    same ∙ hash_write_lem (x ∷ p) s ∙ ap (λ (v : Bytes). v ++ (x ∷ p)) h

hashed_ok :
    (r : Reader)
    → (copy_to_writers r (hash_write ∷ []) []).0 ≡ ok tt
    → ((copy_to_writers r (hash_write ∷ []) []).1 ≡ concat r.chunks) × (r.broken ≡ none)
unfolding copy_to_writers
hashed_ok r e =
    copy_chunks_ok hash_write [] (λ b s. s ≡ b) hash_round r.chunks r.broken [] [] refl e

module _ {P : Platform} (LP : IsPlatform P) {S : Store} (L : IsLawful P S) (U : Urls)
    (vctx : ValidateCtx) where
  compared_ok :
      (k : U.Url) (v : BlobInfo) (expected hashed : Bytes) (s : Validation U S)
      → (compared P U S vctx k v expected hashed s).wrong_hash_list ≡ []
      → (compared P U S vctx k v expected hashed s ≡ s) × (expected ≡ P.sha256 hashed)
  unfolding compared
  compared_ok k v expected hashed s h = elim (Bool-cases (expected == P.sha256 hashed)) [
    | inl same ↦ (ground arith, ==_sound expected (P.sha256 hashed) same)
    | inr other ↦ absurd (
        snoc-ne-nil s.wrong_hash_list (record { k = k; v = v; new_hash = P.sha256 hashed })
          (ground arith))
  ]

  -- What follows Get, when it reports nothing: the blob was read to its end, and has the digest.
  validated_ok :
      (k : U.Url) (v : BlobInfo) (expected : Bytes) (r : Result Reader) (s : Validation U S)
      → vctx.validate_sha256 ≡ true
      → (validated P U S vctx k v expected r s).0 ≡ ok tt
      → (validated P U S vctx k v expected r s).1.missing_list ≡ []
      → (validated P U S vctx k v expected r s).1.wrong_hash_list ≡ []
      → ((validated P U S vctx k v expected r s).1 ≡ s)
        × ((br : Reader) × (r ≡ ok br)
            × (br.broken ≡ none)
            × (expected ≡ P.sha256 (concat br.chunks)))
  unfolding validated
  validated_ok k v expected (err e) s on h m w =
      absurd (
        let no = snoc-ne-nil s.missing_list (record { k = k; v = v; new_hash = [] }) in
        ground arith)
  validated_ok k v expected (ok r) s on h m w =
      let x = copy_to_writers r (hash_write ∷ []) [] in
      let closed =
        wrap_err ("error in clean-up close in validate for " <> U.to_string k) r.closing in
      let opened : validated P U S vctx k v expected (ok r) s
          ≡ (defer_error x.0 closed, compared P U S vctx k v expected x.1 s) =
        rw (on, validated) refl in
      let after = ap (λ (y : Result (Unit {0}) × Validation U S). y.1) opened in
      let (same, digest) =
        compared_ok k v expected x.1 s
          (sym (ap (λ (y : Validation U S). y.wrong_hash_list) after) ∙ w) in
      let (whole, fine) = hashed_ok r (
        defer_error_ok x.0 closed
          (sym (ap (λ (y : Result (Unit {0}) × Validation U S). y.0) opened) ∙ h)) in
      (after ∙ same, (r, refl, fine, digest ∙ ap P.sha256 whole))

  -- A step of the loop that reports nothing: the lists were empty, and the entry is backed.
  pub record IsStep (s s' : Validation U S) (sha256 : String) : Type 0 where
    pub missing : s.missing_list ≡ []
    pub wrong : s.wrong_hash_list ≡ []
    pub grown : Grows L s.blobs s'.blobs
    pub backed : IsBacked L s'.blobs sha256

  pub validate_entry-IsStep :
      (k : U.Url) (v : BlobInfo) (s : Validation U S)
      → vctx.validate_sha256 ≡ true
      → (validate_entry P U S vctx k v s).0 ≡ ok tt
      → (validate_entry P U S vctx k v s).1.missing_list ≡ []
      → (validate_entry P U S vctx k v s).1.wrong_hash_list ≡ []
      → IsStep s (validate_entry P U S vctx k v s).1 v.sha256
  unfolding validate_entry
  validate_entry-IsStep k v s on h m w = elim (Option-cases (decode v.sha256)) [
    | inl bad ↦ absurd (ground arith)
    | inr (key, e) ↦
        let (r, b) = S.get key s.blobs in
        let s1 = record s { blobs = b } in
        let opened : validate_entry P U S vctx k v s ≡ validated P U S vctx k v key r s1 =
          rw (e, validate_entry) refl in
        let (same, (br, got, whole, digest)) =
          validated_ok k v key r s1 on
            (sym (ap (λ (y : Result (Unit {0}) × Validation U S). y.0) opened) ∙ h)
            (sym (ap (λ (y : Result (Unit {0}) × Validation U S). y.1.missing_list) opened) ∙ m)
            (sym (ap (λ (y : Result (Unit {0}) × Validation U S). y.1.wrong_hash_list) opened)
              ∙ w) in
        let after = ap (λ (y : Result (Unit {0}) × Validation U S). y.1) opened ∙ same in
        subst (λ (t : Validation U S). IsStep s t v.sha256) (sym after)
          (record {
            missing = sym (ap (λ (t : Validation U S). t.missing_list) after) ∙ m;
            wrong = sym (ap (λ (t : Validation U S). t.wrong_hash_list) after) ∙ w;
            grown = Grows-get L key s.blobs;
            backed = record {
              key = key;
              content = concat br.chunks;
              decoded = e;
              bytes = subst IsBytes (sym digest) (LP.sha256_bytes (concat br.chunks));
              held = L.view-get key key s.blobs ∙ L.get_ok key s.blobs br got whole;
              digest = sym digest;
            };
          })
  ]
