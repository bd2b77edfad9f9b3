-- ===== src/Tests/Exports.antt =====
-- A whole export of one entry.
use htvend.Base.{
  ◌≡◌, refl, ℕ, Bool, true, false, String, Option, none, some, List, [], ◌∷◌, string_eq, nat_eq,
  list_eq, arith,
}
use htvend.Base.{Bytes}
use htvend.Base.Error.{Result, ok}
use htvend.Lockfile.{File, Place, returns}
use htvend.Blobstore.{Store, IsLawful}
use htvend.Blobstore.Disk.{Disk}
use htvend.Verify.{outcome}
use htvend.Jobs.{queued, later, here, run_one, received}
use htvend.Export.{export_job, ensure_blob_exported, need}
use htvend.Commands.{
  ManifestOptions, Surroundings, Backend, directory, make_blob_store, make_manifest_file,
}
use htvend.Commands.Export.{ExportCommand, queue_all, waited, export_stores, exported}
use htvend.Commands.Exported.{HasBlob, Executes-HasBlob}
use htvend.Tests.Setup.{test_platform, test_platform-IsPlatform, test_codec, test_engine, test_urls}
use htvend.Tests.Site.{store, lawful, disk, info}
use htvend.Tests.Sessions.{manifest, surroundings}

abbrev stores : Backend → Store
stores b = store

abbrev command : ExportCommand
command = record { manifest = manifest; dest = manifest.cache }

abbrev written : Place test_codec
written = record { content = some (("https://a/b", info) ∷ []); locked = false; faults = [] }

abbrev file : File test_engine
file = record {
  options = record {
    path = "assets.json";
    writable = false;
    allow_overwrite = false;
    no_cache = some [];
  };
  blobs = ("https://a/b", info) ∷ [];
  previous_blobs = [];
  dirty = false;
}

abbrev empty_disk : Disk
empty_disk = record { dir = some []; faults = [] }

abbrev five : Bytes
five = 5 ∷ []

five-ne-nil : five ≡ [] → ⊥
five-ne-nil h = cc

Executes-HasBlob_example :
    HasBlob stores
      (λ b. lawful)
      (some (directory "/blobs" true, (export_job store store (5 ∷ []) (disk, empty_disk)).1.1))
      (5 ∷ [])
unfolding make_manifest_file htvend.Re.new_multi_regex_matcher htvend.Lockfile.Ops.new_map_file
    htvend.Lockfile.Ops.load htvend.Lockfile.Ops.close htvend.Lockfile.Ops.for_each need queue_all
    export_stores make_blob_store htvend.Commands.xdg_it htvend.Base.Text.cut_prefix outcome run_one
    received export_job ensure_blob_exported htvend.Blobstore.Directory.exists string_eq list_eq
    nat_eq htvend.Base.Hex.encode htvend.Base.Hex.decode htvend.Blobstore.Disk.open_file
    htvend.Base.Dict.lookup htvend.Base.Dict.insert htvend.Base.Dict.erase
    htvend.Base.Error.errors_is htvend.Blobstore.Directory.get htvend.Blobstore.Directory.put
    htvend.Stream.copy_chunks htvend.Stream.copy_one htvend.Stream.copy_chunk htvend.Stream.tee_all
    htvend.Listener.Fetch.write_blob htvend.Blobstore.Caf.write htvend.Blobstore.Caf.commit
    htvend.Blobstore.Caf.cleanup htvend.Blobstore.Disk.create_temp htvend.Blobstore.Disk.mkdir_all
    htvend.Blobstore.Disk.write_file htvend.Blobstore.Disk.close_file htvend.Blobstore.Disk.rename
    htvend.Blobstore.Disk.remove htvend.Tests.Setup.joined htvend.Blobstore.Caf.write_always
    htvend.Blobstore.Caf.ensure_open htvend.Blobstore.Caf.write_open htvend.Blobstore.Caf.finish
Executes-HasBlob_example =
    Executes-HasBlob test_platform-IsPlatform test_engine test_urls surroundings stores
      (λ b. lawful) command written written (λ b. disk) (λ b. empty_disk) (returns (ok tt)) _
      (exported file (directory "/blobs" false) (directory "/blobs" true) (ok tt) _ _ refl refl
        (waited none _ refl refl (later _ (5 ∷ []) [] queued here)))
      refl (5 ∷ []) (file, "https://a/b", info, refl, refl, refl) (omega arith, tt) five-ne-nil
