-- ===== src/Tests/Concurrent.antt =====
-- Two handlers over one directory store.
use htvend.Base.{◌≡◌, refl, true, none, some, [], ◌∷◌, ◌++◌, string_eq, nat_eq, list_eq, arith}
use htvend.Base.{Bytes}
use htvend.Base.Dict.{lookup, lookup-cons, lookup-nil}
use htvend.Base.Hex.{encode, decode}
use htvend.Base.Error.{ok}
use htvend.Lockfile.{BlobInfo, File}
use htvend.Re.{matches}
use htvend.Blobstore.Disk.{open_file}
use htvend.Blobstore.Directory.{directory_store, get}
use htvend.Blobstore.Directory.Laws.Apart.{directory_store-IsShared}
use htvend.Blobstore.Growth.{IsBacked}
use htvend.Blobstore.Shared.{IsShared}
use htvend.Listener.{Request, Site}
use htvend.Listener.Reply.{Reply}
use htvend.Listener.Handle.{handler}
use htvend.Listener.Backed.{IsSiteBacked, IsMapBacked}
use htvend.Listener.Concurrent.{Handler, Proxied, arrived, found, ended, step, turn, interleaved}
use htvend.Listener.Concurrent.Interleaved.{
  IsConsistent, started-IsConsistent, interleaved-IsConsistent,
}
use htvend.Listener.Concurrent.Kept.{HasEntry, interleaved-HasEntry, interleaved-digest}
use htvend.Tests.Setup.{test_platform, test_platform-IsPlatform, test_codec, test_engine, test_urls}
use htvend.Tests.Site.{store, disk, info, reply, site, client, request, lctx}

pub shared : IsShared test_platform store
shared = directory_store-IsShared test_platform test_platform-IsPlatform true

directory_store-IsShared_example : IsShared test_platform (directory_store test_platform true)
directory_store-IsShared_example =
    directory_store-IsShared test_platform test_platform-IsPlatform true

empty-IsSiteBacked : IsSiteBacked shared.lawful site
empty-IsSiteBacked = record { blobs = empty; previous = empty }
  where
    empty : IsMapBacked shared.lawful site.blobs []
    empty = record { entry = λ k v e. absurd (let q = lookup-nil {V = BlobInfo} k in cc) }

-- Both fetch the same URL.
abbrev started : Proxied test_codec test_engine store test_urls
started = record { site = site; handlers = λ i. arrived request reply }

interleaved-IsConsistent_example :
    IsConsistent shared
      (interleaved test_urls lctx client (0 ∷ 1 ∷ 0 ∷ 1 ∷ 0 ∷ 1 ∷ 0 ∷ 1 ∷ 1 ∷ 0 ∷ []) started)
interleaved-IsConsistent_example =
    interleaved-IsConsistent test_platform-IsPlatform shared test_urls lctx client
      (0 ∷ 1 ∷ 0 ∷ 1 ∷ 0 ∷ 1 ∷ 0 ∷ 1 ∷ 1 ∷ 0 ∷ []) started
      (started-IsConsistent shared site (λ i. request) (λ i. reply) empty-IsSiteBacked)

-- A manifest with the entry, whose bytes are there.
abbrev recorded_site : Site test_codec test_engine store
recorded_site = record site {
  assets = record site.assets { blobs = ("https://a/b", info) ∷ [] };
  blobs = disk;
}

abbrev served : Proxied test_codec test_engine store test_urls
served = record { site = recorded_site; handlers = λ i. arrived request reply }

disk-IsBacked : IsBacked shared.lawful disk "05"
unfolding decode encode get open_file string_eq lookup
disk-IsBacked = record {
  key = 5 ∷ [];
  content = 2 ∷ 3 ∷ [];
  decoded = refl;
  bytes = (omega arith, tt);
  held =
      shared.lawful.get_ok (5 ∷ []) disk
        (record { chunks = (2 ∷ 3 ∷ []) ∷ []; broken = none; closing = ok tt }) refl refl;
  digest = refl;
}

recorded_site-IsSiteBacked : IsSiteBacked shared.lawful recorded_site
recorded_site-IsSiteBacked = record {
  blobs = record {
    entry = λ k v e.
        let same : info ≡ v =
          ground (arith, lookup-cons k "https://a/b" info [], lookup-nil {V = BlobInfo} k) in
        rw⁻¹ same disk-IsBacked;
  };
  previous = record { entry = λ k v e. absurd (let q = lookup-nil {V = BlobInfo} k in cc) };
}

interleaved-HasEntry_example :
    let later = (interleaved test_urls lctx client (0 ∷ 1 ∷ 0 ∷ []) served).site in
    HasEntry "https://a/b" info later.assets later.place
    × ((step test_urls lctx client (arrived request reply) later).0 ≡ found info reply)
unfolding lookup string_eq matches htvend.Listener.extract_req_from_url
interleaved-HasEntry_example =
    interleaved-HasEntry test_urls lctx client (0 ∷ 1 ∷ 0 ∷ []) served request reply info refl
      (refl, refl, refl)

interleaved-digest_example :
    (c : Bytes) × (decode "05" ≡ some (test_platform.sha256 c)) × ((2 ∷ 3 ∷ []) ≡ [] ++ c)
unfolding interleaved turn step htvend.Listener.Concurrent.returned
    htvend.Listener.Concurrent.after_lookup lookup string_eq nat_eq matches
    htvend.Listener.extract_req_from_url htvend.Lockfile.Ops.get_blob
    htvend.Listener.Handle.serve_found_blob decode encode get open_file htvend.Stream.copy_chunks
    htvend.Stream.copy_one htvend.Stream.copy_chunk htvend.Stream.tee_all
    htvend.Listener.Reply.write_body htvend.Listener.Reply.set_headers
    htvend.Listener.Reply.write_header
interleaved-digest_example =
    interleaved-digest test_platform-IsPlatform shared test_urls lctx client (0 ∷ 1 ∷ 1 ∷ []) served
      0 info reply _ 0
      (started-IsConsistent shared recorded_site (λ i. request) (λ i. reply)
        recorded_site-IsSiteBacked)
      refl refl
