-- ===== src/Verify/OnS3.antt =====
-- A verification over the S3 store, whose Get never reports that a blob does not exist.
use htvend.Base.{◌≡◌, refl, ◌∙◌, false, String, [], ◌∷◌, arith, inl, inr}
use htvend.Base.{Bytes, list_eq, nat_eq, Option-cases}
use htvend.Base.Hex.{decode}
use htvend.Base.Error.{Error, blob_not_exist, errors_is, Result, ok, err, Result-cases}
use htvend.Platform.{Platform}
use htvend.Stream.{Reader}
use htvend.Lockfile.{BlobInfo, BlobMap, Codec, Urls}
use htvend.Lockfile.Ops.{visit, for_each}
use htvend.Re.{Engine}
use htvend.Blobstore.{Store}
use htvend.Blobstore.S3.{S3Client, IsS3Client, s3_store, get}
use htvend.Blobstore.S3.Laws.{get_err}
use htvend.Listener.{Client, Site}
use htvend.Verify.{
  ValidateCtx, MultiError, Validation, compared, validated, validate_entry, handle_missing,
  concluded, reported, do_validate,
}

module _ {A : S3Client} (K : IsS3Client A) (P : Platform) (prefix : String) (U : Urls)
    (vctx : ValidateCtx) where
  abbrev store : Store
  store = s3_store A P prefix

  compared-missing_list :
      (k : U.Url) (v : BlobInfo) (expected hashed : Bytes) (s : Validation U store)
      → (compared P U store vctx k v expected hashed s).missing_list ≡ s.missing_list
  unfolding compared
  compared-missing_list k v expected hashed s = ground arith

  validated-missing_list :
      (k : U.Url) (v : BlobInfo) (expected : Bytes) (r : Result Reader) (s : Validation U store)
      → ((e : Error) → r ≡ err e → errors_is blob_not_exist e ≡ false)
      → (validated P U store vctx k v expected r s).1.missing_list ≡ s.missing_list
  unfolding validated compared
  validated-missing_list k v expected (err e) s h = rw (h e refl, validated) refl
  validated-missing_list k v expected (ok r) s h = ground arith

  validate_entry-missing_list :
      (k : U.Url) (v : BlobInfo) (s : Validation U store)
      → (validate_entry P U store vctx k v s).1.missing_list ≡ s.missing_list
  unfolding validate_entry
  validate_entry-missing_list k v s = elim (Option-cases (decode v.sha256)) [
    | inl bad ↦ rw (bad, validate_entry) refl
    | inr (expected, good) ↦
        let (r, b) = get A P prefix expected s.blobs in
        rw (good, validate_entry)
          (validated-missing_list k v expected r (record s { blobs = b })
            (λ e h. get_err K P prefix expected s.blobs e h))
  ]

  visit-missing_list :
      (m : BlobMap) (s : Validation U store)
      → (visit U (validate_entry P U store vctx) m s).1.missing_list ≡ s.missing_list
  unfolding visit
  visit-missing_list [] s = refl
  visit-missing_list ((k, v) ∷ m) s = elim (Option-cases (U.parse k)) [
    | inl bad ↦ rw (bad, visit) refl
    | inr (u, good) ↦
        let (r, s') = validate_entry P U store vctx u v s in
        let one = validate_entry-missing_list u v s in
        elim (Result-cases r) [
          | inr (e, failed) ↦ rw (good, failed, visit) one
          | inl (_, done) ↦ rw (good, done, visit) (visit-missing_list m s' ∙ one)
        ]
  ]

module _ {A : S3Client} (K : IsS3Client A) (P : Platform) (prefix : String) {C : Codec} {E : Engine}
    (multi_append : MultiError) (U : Urls) (vctx : ValidateCtx) (client other : Client) where
  reported-client :
      (r : Result (Unit {0})) (v : Validation U (s3_store A P prefix))
      (site : Site C E (s3_store A P prefix))
      → v.missing_list ≡ []
      → reported multi_append U vctx client (r, v) site
        ≡ reported multi_append U vctx other (r, v) site
  unfolding reported handle_missing concluded
  reported-client (err e) v site h = refl
  reported-client (ok _) v site h = rw (h, reported) refl

  -- Over the S3 store a verification never fetches, whatever its options say: its result and what
  -- it leaves are the same whatever the upstream would answer.
  pub do_validate-client :
      (site : Site C E (s3_store A P prefix))
      → do_validate multi_append U vctx client P site ≡ do_validate multi_append U vctx other P site
  unfolding do_validate for_each
  do_validate-client site =
      let start : Validation U (s3_store A P prefix) = record {
        missing_list = [];
        wrong_hash_list = [];
        blobs = site.blobs;
      } in
      let (r, v) =
        visit U (validate_entry P U (s3_store A P prefix) vctx) site.assets.blobs start in
      reported-client r v site (visit-missing_list K P prefix U vctx site.assets.blobs start)
