-- ===== src/Export.antt =====
-- cli/internal/htvend/command_export.go: ensureBlobExported, and the jobs that Execute queues.
pub mod Exported
pub mod Waited
pub mod Needed
use htvend.Base.{◌<>◌, ◌==◌, Option, none, some, List, [], ◌∷◌, contains}
use htvend.Base.{Bytes, list_eq, nat_eq, string_eq, if◌then◌else◌}
use htvend.Base.Hex.{encode, decode}
use htvend.Base.Error.{message, wrap, Result, ok, err, defer_error, wrap_err}
use htvend.Base.{String, Bool, true, false}
use htvend.Stream.{Reader, io_copy}
use htvend.Lockfile.{BlobInfo, Urls}
use htvend.Blobstore.{Store}
use htvend.Listener.Fetch.{Copying, write_blob}

module _ (D : Store) (expected : Bytes) where
  abbrev pub differs : Bytes → Result (Unit {0})
  differs actual =
      if expected == actual
      then ok tt
      else err (
          message (
            "actual hash ("
            <> encode actual
            <> ") received differs from desired hash ("
            <> encode expected
            <> ") for blob"))

  -- From Commit on.
  unfoldable pub committed : Result (Unit {0}) × Copying D → Result (Unit {0}) × Copying D
  committed (err e, c) = (err (wrap "error reading from src to dst" e), c)
  committed (ok _, c) =
      let (d, b, s) = D.commit c.blob c.state in
      (
        elim d [
          | err e ↦ err (wrap "error comming destination blob" e)
          | ok actual ↦ differs actual
        ],
        record c { blob = b; state = s },
      )

  -- The deferred Cleanup.
  abbrev pub cleaned : Result (Unit {0}) × Copying D → Result (Unit {0}) × D.State
  cleaned (r, c) =
      let (x, _, s) = D.cleanup c.blob c.state in
      (defer_error r (wrap_err "error committing to dest" x), s)

  -- From Put on, for a blob that was found at the source.
  unfoldable pub copied : Reader → Result D.Blob × D.State → Result (Unit {0}) × D.State
  copied src (err e, s) = (err (wrap "error creating destination blobstore to write" e), s)
  copied src (ok b, s) =
      cleaned
        (committed (io_copy (write_blob D) [] src (record { reply = none; blob = b; state = s })))

module _ (S D : Store) (expected : Bytes) where
  -- From Get on.
  unfoldable pub fetched : Result Reader × S.State → D.State → Result (Unit {0}) × S.State × D.State
  fetched (err e, s) d = (err (wrap "error fetching from upstream blobstore" e), s, d)
  fetched (ok r, s) d = let (x, d') = copied D expected r (D.put d) in (x, s, d')

  unfoldable pub checked : Result Bool × D.State → S.State → Result (Unit {0}) × S.State × D.State
  checked (err e, d) s = (err (wrap "error checking if destination exists" e), s, d)
  checked (ok true, d) s = (ok tt, s, d)
  checked (ok false, d) s = fetched (S.get expected s) d

  -- ensureBlobExported
  unfoldable pub ensure_blob_exported : S.State → D.State → Result (Unit {0}) × S.State × D.State
  unfolding checked fetched copied committed
  ensure_blob_exported s d = checked (D.exists expected d) s

module _ (S D : Store) where
  -- The job that Execute queues for a digest.
  unfoldable pub export_job : Bytes → S.State × D.State → Result (Unit {0}) × (S.State × D.State)
  export_job k (s, d) = let (r, s', d') = ensure_blob_exported S D k s d in (r, (s', d'))

-- The callback of ForEach: neededCanonShas, as a list without duplicates.
unfoldable pub need : (U : Urls) → U.Url → BlobInfo → List String → Result (Unit {0}) × List String
need U k v needed = elim (decode v.sha256) [
  | none ↦ (err (message "error decoding hash"), needed)
  | some h ↦ (ok tt, if contains needed (encode h) then needed else encode h ∷ needed)
]
