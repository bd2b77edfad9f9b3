-- ===== src/Commands/Export.antt =====
-- cli/internal/htvend/command_export.go: Execute. The jobs run in any order, so that what it comes to is
-- a relation.
use htvend.Base.{◌≡◌, String, true, false, Option, none, some, List, [], ◌∷◌}
use htvend.Base.{Bytes, string_eq}
use htvend.Base.Hex.{decode}
use htvend.Base.Error.{Error, message, wrap, Result, ok, err, defer_error}
use htvend.Re.{Engine}
use htvend.Lockfile.{Codec, File, Place, Outcome, returns, panics, Urls}
use htvend.Lockfile.Ops.{for_each, close}
use htvend.Blobstore.{Store}
use htvend.Verify.{outcome}
use htvend.Jobs.{MultiTasker, Reach, Waits}
use htvend.Export.{need, export_job}
use htvend.Commands.{
  ManifestOptions, CacheOptions, Surroundings, Backend, make_blob_store, make_manifest_file,
}

pub record ExportCommand : Type 0 where
  pub manifest : ManifestOptions
  pub dest : CacheOptions

-- The loop over neededCanonShas: the digests whose jobs are queued, and whether one cannot be decoded.
unfoldable pub queue_all : List String → Result (Unit {0}) × List Bytes
queue_all [] = (ok tt, [])
queue_all (canon_sha ∷ shas) = elim (decode canon_sha) [
  | none ↦ (err (message "error decoding hash"), [])
  | some k ↦ let (r, ks) = queue_all shas in (r, k ∷ ks)
]

-- The two stores: `state` of the source and of the destination.
module _ (U : Urls) (S D : Store) where
  -- The end of Execute, from the loop over the manifest on: what it returns, and the stores then.
  pub data Exports {E : Engine} (f : File E) (s : S.State) (d : D.State)
      : Result (Unit {0}) → S.State × D.State → Type 0 where
    not_iterated :
        (e : Error)
        → (for_each U (need U) f []).0 ≡ err e
        → Exports f s d (err (wrap "error iterating blobs" e)) (s, d)
    -- The jobs that were queued before are not waited for.
    not_decoded :
        (e : Error) (m : MultiTasker Bytes (S.State × D.State))
        → (for_each U (need U) f []).0 ≡ ok tt
        → (queue_all (for_each U (need U) f []).1).0 ≡ err e
        → Reach (export_job S D) (queue_all (for_each U (need U) f []).1).1 (s, d) m
        → Exports f s d (err e) m.state
    waited :
        (rv : Option Error) (sd : S.State × D.State)
        → (for_each U (need U) f []).0 ≡ ok tt
        → (queue_all (for_each U (need U) f []).1).0 ≡ ok tt
        → Waits (export_job S D) (queue_all (for_each U (need U) f []).1).1 (s, d) rv sd
        → Exports f s d (outcome rv) sd

module _ (X : Surroundings) where
  -- The two back ends that Execute opens, once the manifest is open.
  unfoldable pub export_stores : ExportCommand → Result (Backend × Backend)
  export_stores rc = elim (make_blob_store X rc.manifest.cache false) [
    | err e ↦ err (wrap "error creating source blob store" e)
    | ok src ↦ elim (make_blob_store X rc.dest true) [
      | err e ↦ err (wrap "error creating destination blob store" e)
      | ok dst ↦ ok (src, dst)
    ]
  ]

module _ {C : Codec} (E : Engine) where
  -- From MakeManifestFile: the manifest is read only.
  abbrev pub export_manifest : ExportCommand → Place C → Outcome (Result (File E)) × Place C
  export_manifest rc p =
      make_manifest_file E rc.manifest
        (record { writable = false; allow_overwrite = false; no_cache_list = [] }) p

module _ {C : Codec} (E : Engine) (U : Urls) (X : Surroundings) (stores : Backend → Store) where
  -- ExportCommand.Execute: what it returns, the manifest's path, and the destination as it leaves it.
  -- The source and the destination are different stores.
  pub data Executes (rc : ExportCommand) (p : Place C) (s d : (b : Backend) → (stores b).State)
      : Outcome (Result (Unit {0}))
        → Place C
        → Option ((b : Backend) × (stores b).State)
        → Type 0 where
    panicked :
        (export_manifest E rc p).0 ≡ panics
        → Executes rc p s d panics (export_manifest E rc p).1 none
    unopened :
        (e : Error)
        → (export_manifest E rc p).0 ≡ returns (err e)
        → Executes rc p s d
            (returns (err (wrap "error getting manifest file" e)))
            (export_manifest E rc p).1
            none
    storeless :
        (f : File E) (e : Error)
        → (export_manifest E rc p).0 ≡ returns (ok f)
        → export_stores X rc ≡ err e
        → Executes rc p s d
            (returns (defer_error (err e) (close f (export_manifest E rc p).1).0))
            (close f (export_manifest E rc p).1).2
            none
    exported :
        (f : File E) (src dst : Backend) (r : Result (Unit {0})) (s' : (stores src).State)
        (d' : (stores dst).State)
        → (export_manifest E rc p).0 ≡ returns (ok f)
        → export_stores X rc ≡ ok (src, dst)
        → Exports U (stores src) (stores dst) f (s src) (d dst) r (s', d')
        → Executes rc p s d
            (returns (defer_error r (close f (export_manifest E rc p).1).0))
            (close f (export_manifest E rc p).1).2
            (some (dst, d'))
