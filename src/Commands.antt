-- ===== src/Commands.antt =====
-- cli/internal/htvend/flags_manifest.go, and the options of cli/internal/htvend/command_build.go: the
-- manifest and the blob store that a command asks for.
pub mod Run
pub mod Session
pub mod Build
pub mod Interleaved
pub mod Offline
pub mod Verify
pub mod Unrepaired
pub mod Export
pub mod Exported
use htvend.Base.{String, Bool, Option, none, some, List, [], ◌∷◌, ◌<>◌, ◌==◌}
use htvend.Base.{string_eq, nat_eq, if◌then◌else◌}
use htvend.Base.Error.{message, wrap, Result, ok, err}
use htvend.Re.{Engine, new_multi_regex_matcher}
use htvend.Lockfile.{Codec, MapFileOptions, File, Place, Outcome, returns}
use htvend.Lockfile.Ops.{new_map_file}
use htvend.Base.Text.{cut_prefix}

pub record CacheOptions : Type 0 where
  pub blobs_backend : String
  pub blobs_registry : String
  pub blobs_dir : String
  pub blobs_bucket : String
  pub blobs_prefix : String

pub record ManifestOptions : Type 0 where
  pub cache : CacheOptions
  pub manifest_file : String

pub record ManifestContextOptions : Type 0 where
  pub writable : Bool
  pub allow_overwrite : Bool
  pub no_cache_list : List String

pub record FetchOptions : Type 0 where
  pub no_cache : List String
  pub cache_header : List String

-- What the options are handed to: xdg.DataFile, textproto.CanonicalMIMEHeaderKey, and
-- config.LoadDefaultConfig of the AWS SDK, which NewS3Store calls.
pub record Surroundings : Type 0 where
  pub data_file : String → Result String
  pub canonical_header_key : String → String
  pub load_s3_config : Result (Unit {0})

-- NewDirectoryStore(dir, writable), NewRegistryStore(url, writable) and NewS3Store of a bucket and a
-- prefix.
pub data Backend : Type 0 where
  directory registry : String → Bool → Backend
  s3 : String → String → Backend

module _ (X : Surroundings) where
  unfoldable pub xdg_it : String → Result String
  xdg_it orig_path = elim (cut_prefix "${XDG_DATA_HOME}/" orig_path) [
    | none ↦ ok orig_path
    | some rem_path ↦ elim (X.data_file rem_path) [
      | err e ↦ err (wrap ("error getting path with xdg (" <> orig_path <> ")") e)
      | ok d ↦ ok d
    ]
  ]

  in_dir : Bool → Result String → Result Backend
  in_dir writable (err e) = err (wrap "error getting blob store with xdg" e)
  in_dir writable (ok d) = ok (directory d writable)

  in_bucket : CacheOptions → Result (Unit {0}) → Result Backend
  in_bucket o (err e) = err (wrap "err creating s3 context" e)
  in_bucket o (ok _) = ok (s3 o.blobs_bucket o.blobs_prefix)

  -- MakeBlobStore
  unfoldable pub make_blob_store : CacheOptions → Bool → Result Backend
  unfolding in_dir in_bucket
  make_blob_store o writable =
      if o.blobs_backend == "filesystem"
      then in_dir writable (xdg_it o.blobs_dir)
      else if o.blobs_backend == "registry"
      then ok (registry o.blobs_registry writable)
      else if o.blobs_backend == "s3"
      then in_bucket o X.load_s3_config
      else err (message ("bad blob store type: " <> o.blobs_backend))

  -- CacheHeaderMap, as the list of its keys
  unfoldable pub cache_header_map : List String → List String
  cache_header_map [] = []
  cache_header_map (h ∷ hs) = X.canonical_header_key h ∷ cache_header_map hs

module _ {C : Codec} (E : Engine) where
  -- MakeManifestFile
  unfoldable pub make_manifest_file :
      ManifestOptions → ManifestContextOptions → Place C → Outcome (Result (File E)) × Place C
  make_manifest_file o opts p = elim (new_multi_regex_matcher E opts.no_cache_list) [
    | err e ↦ (returns (err (wrap "error creating no-cache regex matcher" e)), p)
    | ok no_cache ↦
        new_map_file
          (record {
            path = o.manifest_file;
            writable = opts.writable;
            allow_overwrite = opts.allow_overwrite;
            no_cache = no_cache;
          })
          p
  ]
