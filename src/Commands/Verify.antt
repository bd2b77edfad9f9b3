-- ===== src/Commands/Verify.antt =====
-- cli/internal/htvend/command_verify.go: Execute.
use htvend.Base.{◌||◌, ◌&&◌, not, Bool, true, none, some}
use htvend.Base.{nat_eq}
use htvend.Base.Error.{wrap, Result, ok, err, defer_error}
use htvend.Platform.{Platform}
use htvend.Re.{Engine}
use htvend.Lockfile.{Codec, File, Place, Outcome, returns, panics, Urls}
use htvend.Lockfile.Ops.{close}
use htvend.Blobstore.{Store}
use htvend.Listener.{Client, Site}
use htvend.Verify.{ValidateCtx, MultiError, do_validate}
use htvend.Commands.{
  ManifestOptions, FetchOptions, Surroundings, Backend, make_blob_store, cache_header_map,
  make_manifest_file,
}
use htvend.Commands.Run.{closed, Executed}

pub record VerifyCommand : Type 0 where
  pub manifest : ManifestOptions
  pub fetch_options : FetchOptions
  pub fetch : Bool
  pub repair : Bool

abbrev pub validate_ctx : Surroundings → VerifyCommand → ValidateCtx
validate_ctx X rc = record {
  headers_to_cache = cache_header_map X rc.fetch_options.cache_header;
  fail_if_missing = not rc.fetch && not rc.repair;
  fetch_if_missing = rc.fetch || rc.repair;
  repair_if_wrong = rc.repair;
  validate_sha256 = true;
}

module _ {C : Codec} (E : Engine) (U : Urls) (X : Surroundings) (client : Client) (P : Platform)
    (multi_append : MultiError) (stores : Backend → Store) where
  -- From the outcome of MakeBlobStore on.
  unfoldable pub verified :
      VerifyCommand
      → Result Backend
      → File E
      → Place C
      → ((b : Backend) → (stores b).State)
      → Executed C stores
  verified rc (err e) f p s =
      let (x, _, p') = close f p in
      record {
        result = returns (defer_error (err (wrap "error creating blob store" e)) x);
        place = p';
        used = none;
      }
  verified rc (ok b) f p s =
      let site : Site C E (stores b) = record { assets = f; place = p; blobs = s b } in
      let (r, p', s') = closed (do_validate multi_append U (validate_ctx X rc) client P site) in
      record { result = r; place = p'; used = some (b, s') }

  -- From the outcome of MakeManifestFile on.
  unfoldable pub manifest_opened :
      VerifyCommand
      → Outcome (Result (File E)) × Place C
      → ((b : Backend) → (stores b).State)
      → Executed C stores
  manifest_opened rc (panics, p) s = record { result = panics; place = p; used = none }
  manifest_opened rc (returns (err e), p) s = record {
    result = returns (err (wrap "error getting manifest file" e));
    place = p;
    used = none;
  }
  manifest_opened rc (returns (ok f), p) s =
      verified rc (make_blob_store X rc.manifest.cache rc.fetch) f p s

  -- VerifyCommand.Execute
  unfoldable pub verify_execute :
      VerifyCommand → Place C → ((b : Backend) → (stores b).State) → Executed C stores
  verify_execute rc p s =
      manifest_opened rc
        (make_manifest_file E rc.manifest
          (record {
            writable = rc.repair;
            allow_overwrite = rc.repair;
            no_cache_list = rc.fetch_options.no_cache;
          })
          p)
        s
