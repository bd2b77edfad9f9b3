-- ===== src/Tests/Manifest.antt =====
-- The manifest, on a file with one entry.
use htvend.Base.{◌≡◌, refl, true, false, String, none, some, [], ◌∷◌, string_eq, nat_eq, list_eq}
use htvend.Base.Dict.{lookup}
use htvend.Base.Error.{ok}
use htvend.Lockfile.{BlobInfo, blob_equals, BlobMap, Codec, MapFileOptions, File, Place, returns}
use htvend.Lockfile.Ops.{save, close, add_blob, new_map_file}
use htvend.Lockfile.Laws.{SameInfo, lookup-add_blob}
use htvend.Lockfile.Saved.{IsSynced}
use htvend.Lockfile.Opened.{new_map_file-close}
use htvend.Re.{matches}
use htvend.Tests.Setup.{test_codec, test_codec-IsCodec, test_engine, test_urls}

abbrev options : MapFileOptions test_engine
options = record { path = "assets.json"; writable = true; allow_overwrite = false; no_cache = none }

abbrev info : BlobInfo
info = record { sha256 = "05"; headers = [] }

abbrev other_info : BlobInfo
other_info = record { sha256 = "06"; headers = [] }

abbrev one_entry : BlobMap
one_entry = ("https://a/b", info) ∷ []

abbrev file : File test_engine
file = record { options = options; blobs = one_entry; previous_blobs = []; dirty = true }

abbrev place : Place test_codec
place = record { content = none; locked = true; faults = [] }

abbrev saved_place : Place test_codec
saved_place = record { content = some one_entry; locked = false; faults = [] }

file-IsSynced : IsSynced file place
file-IsSynced = record { stored = λ h. absurd (cc) }

-- The entry is there with another digest, and stays.
lookup-add_blob_example :
    lookup "https://a/b" (add_blob test_urls "https://a/b" other_info file place).1.blobs
    ≡ some info
unfolding matches string_eq lookup blob_equals
lookup-add_blob_example =
    lookup-add_blob test_urls "https://a/b" "https://a/b" other_info file place

new_map_file-close_example :
    (g : File test_engine) × ((new_map_file options (close file place).2).0 ≡ returns (ok g))
    × ((k : String) → SameInfo (lookup k g.blobs) (lookup k one_entry))
unfolding close save
new_map_file-close_example =
    new_map_file-close test_codec-IsCodec file place options refl file-IsSynced refl refl

-- A codec that can read nothing.
abbrev bad_codec : Codec
bad_codec = record { Content = String; marshal = λ m. none; unmarshal = λ c. none }

abbrev bad_place : Place bad_codec
bad_place = record { content = some "{"; locked = false; faults = [] }
