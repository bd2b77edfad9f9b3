-- ===== src/Verify.antt =====
-- cli/internal/htvend/command_verify.go: copyToWriters and doValidate.
pub mod Entry
pub mod Sound
pub mod OnS3
use htvend.Base.{◌==◌, ◌<>◌, not, Bool, Option, none, some, List, [], ◌∷◌, ◌++◌, ℕ, String}
use htvend.Base.{Bytes, length, list_eq, nat_eq, if◌then◌else◌}
use htvend.Base.Hex.{encode, decode}
use htvend.Base.Error.{
  Error, message, wrap, blob_not_exist, errors_is, Result, ok, err, defer_error, wrap_err,
}
use htvend.Platform.{Platform}
use htvend.Stream.{Reader, Writer, io_copy}
use htvend.Lockfile.{BlobInfo, Codec, File, Place, Urls}
use htvend.Lockfile.Ops.{for_each}
use htvend.Re.{Engine}
use htvend.Blobstore.{Store}
use htvend.Listener.{Client, Site}
use htvend.Listener.Reply.{Reply}
use htvend.Listener.Fetch.{fetch_and_save_blob}

-- The fields of validateCtx beside `Assets`, `Blobs` and the unused `DestSocket`.
pub record ValidateCtx : Type 0 where
  pub headers_to_cache : List String
  pub fail_if_missing : Bool
  pub fetch_if_missing : Bool
  pub repair_if_wrong : Bool
  pub validate_sha256 : Bool

-- copyToWriters: the first writer is io.Copy's, the others are tees
unfoldable pub copy_to_writers : {S : Type 0} → Reader → List (Writer S) → S → Result (Unit {0}) × S
copy_to_writers r [] s = (ok tt, s)
copy_to_writers r (w ∷ ws) s = io_copy w ws r s

-- The Write of sha256.New(): the state is what was written so far.
unfoldable pub hash_write : Writer Bytes
hash_write p s = ((length p, none), s ++ p)

pub record ToBeFetched (U : Urls) : Type 0 where
  pub k : U.Url
  pub v : BlobInfo
  pub new_hash : Bytes

-- The variables of doValidate that the callback of ForEach works on, and the store.
pub record Validation (U : Urls) (S : Store) : Type 0 where
  pub missing_list : List (ToBeFetched U)
  pub wrong_hash_list : List (ToBeFetched U)
  pub blobs : S.State

module _ (P : Platform) (U : Urls) (S : Store) (vctx : ValidateCtx) where
  -- The first deferred function to run: it compares what was hashed.
  unfoldable pub compared : U.Url → BlobInfo → Bytes → Bytes → Validation U S → Validation U S
  compared k v expected hashed s =
      if not (expected == P.sha256 hashed)
      then record s {
        wrong_hash_list =
            s.wrong_hash_list ++ (record { k = k; v = v; new_hash = P.sha256 hashed } ∷ []);
      }
      else s

  -- What follows Get.
  unfoldable pub validated :
      U.Url → BlobInfo → Bytes → Result Reader → Validation U S → Result (Unit {0}) × Validation U S
  validated k v expected (err e) s =
      if errors_is blob_not_exist e
      then (
        ok tt,
        record s { missing_list = s.missing_list ++ (record { k = k; v = v; new_hash = [] } ∷ []) },
      )
      else (err (wrap ("unknown error finding blob for " <> U.to_string k) e), s)
  validated k v expected (ok r) s =
      let closed =
        wrap_err ("error in clean-up close in validate for " <> U.to_string k) r.closing in
      if vctx.validate_sha256
      then (let (x, hashed) = copy_to_writers r (hash_write ∷ []) [] in
          (defer_error x closed, compared k v expected hashed s))
      else (let (x, _) = copy_to_writers {S = Bytes} r [] [] in (defer_error x closed, s))

  -- The callback of ForEach.
  unfoldable pub validate_entry :
      U.Url → BlobInfo → Validation U S → Result (Unit {0}) × Validation U S
  unfolding validated compared copy_to_writers hash_write
  validate_entry k v s = elim (decode v.sha256) [
    | none ↦ (err (message ("error decoding sha key for " <> U.to_string k)), s)
    | some expected ↦
        let (r, b) = S.get expected s.blobs in validated k v expected r (record s { blobs = b })
  ]

-- multierror.Append, of a package that is not in the repository.
abbrev pub MultiError : Type 0
MultiError = Option Error → Error → Error

module _ (multi_append : MultiError) (U : Urls) where
  -- The loop over wrongHashList.
  unfoldable pub report_wrong : List (ToBeFetched U) → Option Error → Option Error
  report_wrong [] rv = rv
  report_wrong (w ∷ ws) rv = report_wrong ws (
      some (
        multi_append rv (
          message (
            "wrong hash for: "
            <> U.redacted w.k
            <> " expected: "
            <> w.v.sha256
            <> " have "
            <> encode w.new_hash))))

-- A Go error that may be nil.
unfoldable pub outcome : Option Error → Result (Unit {0})
outcome none = ok tt
outcome (some e) = err e

module _ {C : Codec} {E : Engine} {S : Store} (multi_append : MultiError) (U : Urls)
    (vctx : ValidateCtx) (client : Client) where
  -- The loop over missingList, with the errors so far.
  unfoldable pub handle_missing :
      List (ToBeFetched U) → Option Error → Site C E S → Result (Option Error) × Site C E S
  handle_missing [] rv site = (ok rv, site)
  handle_missing (m ∷ ms) rv site =
      if vctx.fail_if_missing
      then handle_missing ms
          (some (multi_append rv (message ("missing asset: " <> U.redacted m.k)))) site
      else if vctx.fetch_if_missing
      then (let (r, site', _) =
            fetch_and_save_blob U vctx.headers_to_cache client "GET" m.k (ok []) site none in
          elim r [
            | err e ↦ (err (wrap ("error fetching " <> U.redacted m.k) e), site')
            | ok _ ↦ handle_missing ms rv site'
          ])
      else handle_missing ms rv site

  unfoldable pub concluded :
      List (ToBeFetched U) → Result (Option Error) × Site C E S → Result (Unit {0}) × Site C E S
  concluded wrong (err e, site) = (err e, site)
  concluded wrong (ok rv, site) = (outcome (report_wrong multi_append U wrong rv), site)

  -- What follows ForEach.
  unfoldable pub reported :
      Result (Unit {0}) × Validation U S → Site C E S → Result (Unit {0}) × Site C E S
  unfolding concluded handle_missing report_wrong outcome
  reported (err e, v) site = (err (wrap "error in verification" e), record site { blobs = v.blobs })
  reported (ok _, v) site =
      concluded v.wrong_hash_list
        (handle_missing v.missing_list none (record site { blobs = v.blobs }))

  -- doValidate
  unfoldable pub do_validate : Platform → Site C E S → Result (Unit {0}) × Site C E S
  unfolding reported
  do_validate P site =
      reported
        (for_each U (validate_entry P U S vctx) site.assets
          (record { missing_list = []; wrong_hash_list = []; blobs = site.blobs }))
        site
