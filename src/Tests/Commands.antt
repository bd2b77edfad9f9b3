-- ===== src/Tests/Commands.antt =====
-- The commands, on stores and answers that are written out.
use htvend.Base.{
  ◌≡◌, refl, ℕ, Bool, true, false, String, Option, none, some, List, [], ◌∷◌, ◌⊎◌, inl, inr,
  string_eq, nat_eq, list_eq, arith,
}
use htvend.Base.{Bytes, IsBytes, if◌then◌else◌}
use htvend.Base.Error.{Result, ok}
use htvend.Lockfile.{BlobMap}
use htvend.Blobstore.Disk.{Disk}
use htvend.Listener.{Site}
use htvend.Listener.Backed.{IsMapBacked}
use htvend.Verify.{ValidateCtx, MultiError, do_validate}
use htvend.Verify.Sound.{do_validate-IsMapBacked}
use htvend.Lockfile.Ops.{for_each}
use htvend.Download.{Descriptor, Runtime, Getter, ImageCodec, Split}
use htvend.Download.Images.{main, IsImage, all_asked, AnyFailed, main-IsImage}
use htvend.App.{returns, fatal}
use htvend.Base.{All}
use htvend.Base.Error.{Error}
use htvend.Tests.Setup.{test_platform, test_platform-IsPlatform, test_codec, test_engine, test_urls}
use htvend.Tests.Site.{store, lawful, disk, info, site, client, answer}

-- htvend verify, on one entry that is in the store
abbrev full_site : Site test_codec test_engine store
full_site = record site {
  assets = record site.assets { blobs = ("https://a/b", info) ∷ [] };
  blobs = disk;
}

abbrev only_check : ValidateCtx
only_check = record {
  headers_to_cache = [];
  fail_if_missing = true;
  fetch_if_missing = false;
  repair_if_wrong = false;
  validate_sha256 = true;
}

abbrev last_error : MultiError
last_error rv e = e

do_validate-IsMapBacked_example :
    IsMapBacked lawful
      (do_validate last_error test_urls only_check client test_platform full_site).1.blobs
      (("https://a/b", info) ∷ [])
    × ((do_validate last_error test_urls only_check client test_platform full_site).1.assets
        ≡ full_site.assets)
unfolding do_validate htvend.Lockfile.Ops.for_each htvend.Verify.validate_entry
    htvend.Base.Hex.decode htvend.Blobstore.Directory.get string_eq htvend.Base.Hex.encode
    htvend.Blobstore.Disk.open_file htvend.Base.Dict.lookup htvend.Stream.copy_chunks
    htvend.Stream.copy_one htvend.Stream.copy_chunk htvend.Stream.tee_all list_eq nat_eq
do_validate-IsMapBacked_example =
    do_validate-IsMapBacked last_error test_urls only_check client test_platform-IsPlatform lawful
      full_site refl refl refl

-- Jobs that note their number.
abbrev note : ℕ → List ℕ → Result (Unit {0}) × List ℕ
note k s = (ok tt, k ∷ s)

abbrev empty_disk : Disk
empty_disk = record { dir = some []; faults = [] }

abbrev five : Bytes
five = 5 ∷ []

five-ne-nil : five ≡ [] → ⊥
five-ne-nil h = cc

abbrev host : Runtime
host = record { goos = "linux"; goarch = "amd64" }

abbrev index : List Descriptor
index =
    record { digest = "d0"; platform = none }
    ∷ record {
      digest = "d1";
      platform = some (record { os = "linux"; architecture = "amd64"; variant = "" });
    }
    ∷ []

-- The name has no separators.
abbrev whole : Split
whole s sep = s ∷ []

abbrev get : Getter
get url = ok (record { status_code = 200; headers = []; body = answer })

abbrev images : ImageCodec
images = record {
  parse_index = λ b. some index;
  parse_manifest = λ b. some ("c", "l1" ∷ "l2" ∷ []);
}

main-IsImage_example :
    let (end, log) =
      main last_error whole test_platform images host get ("busybox" ∷ "alpine" ∷ []) in
    (log ≡ all_asked last_error whole test_platform images host get ("busybox" ∷ "alpine" ∷ []))
    × (((end ≡ returns)
          × All
              (IsImage last_error whole test_platform images host get)
              ("busybox" ∷ "alpine" ∷ []))
        ⊎ ((e : Error) × (end ≡ fatal e)
            × AnyFailed last_error whole test_platform images host get ("busybox" ∷ "alpine" ∷ [])))
main-IsImage_example =
    main-IsImage last_error whole test_platform images host get ("busybox" ∷ "alpine" ∷ [])
