-- ===== src/Tests/Site.antt =====
-- The proxy and its blob store, on a directory with one blob.
use htvend.Base.{
  ◌≡◌, refl, true, false, none, some, [], ◌∷◌, ◌++◌, string_eq, nat_eq, list_eq, arith,
}
use htvend.Base.{Bytes}
use htvend.Base.Dict
use htvend.Base.Dict.{lookup, lookup-nil}
use htvend.Base.Hex.{encode, decode}
use htvend.Base.Error.{ok}
use htvend.Stream.{Reader, copy_chunks, copy_one, tee_all, copy_chunk}
use htvend.Lockfile.{BlobInfo}
use htvend.Blobstore.{Store, IsLawful}
use htvend.Blobstore.Disk.{Disk, open_file}
use htvend.Blobstore.Caf.{new_content_addressable_file}
use htvend.Blobstore.Directory.{directory_store, get}
use htvend.Blobstore.Directory.Laws.{directory_store-IsLawful}
use htvend.Blobstore.Growth.{IsBacked}
use htvend.Listener.{Request, Client, Site, ListenerCtx}
use htvend.Listener.Reply.{Reply, write_body, set_headers}
use htvend.Listener.Fetch.{Copying}
use htvend.Listener.Handle.{serve_found_blob, handler}
use htvend.Listener.Backed.{IsSiteBacked, IsMapBacked}
use htvend.Listener.Handled.{handler-IsSiteBacked}
use htvend.Listener.Served.{serve_found_blob-digest}
use htvend.Tests.Setup.{test_platform, test_platform-IsPlatform, test_codec, test_engine, test_urls}

abbrev pub store : Store
store = directory_store test_platform true

pub lawful : IsLawful test_platform store
lawful = directory_store-IsLawful test_platform test_platform-IsPlatform true

directory_store-IsLawful_example : IsLawful test_platform (directory_store test_platform true)
directory_store-IsLawful_example =
    directory_store-IsLawful test_platform test_platform-IsPlatform true

-- The bytes 2 and 3 under their digest, 05.
abbrev pub disk : Disk
disk = record { dir = some (("05", 2 ∷ 3 ∷ []) ∷ []); faults = [] }

abbrev pub info : BlobInfo
info = record { sha256 = "05"; headers = ("Content-Type", "text/plain") ∷ [] }

abbrev pub reply : Reply
reply = record { header = []; sent = none; body = []; faults = [] }

disk-IsBacked : IsBacked lawful disk "05"
unfolding decode encode get open_file string_eq Dict.lookup
disk-IsBacked = record {
  key = 5 ∷ [];
  content = 2 ∷ 3 ∷ [];
  decoded = refl;
  bytes = (omega arith, tt);
  held =
      lawful.get_ok (5 ∷ []) disk
        (record { chunks = (2 ∷ 3 ∷ []) ∷ []; broken = none; closing = ok tt }) refl refl;
  digest = refl;
}

serve_found_blob-digest_example :
    (c : Bytes) × (decode "05" ≡ some (test_platform.sha256 c))
    × ((serve_found_blob store info disk reply).2.body ≡ [] ++ c)
unfolding serve_found_blob decode get string_eq encode open_file lookup copy_chunks copy_one
    copy_chunk tee_all write_body set_headers
serve_found_blob-digest_example = serve_found_blob-digest lawful info disk reply disk-IsBacked refl

-- A manifest with no entries, and an empty store.
abbrev pub site : Site test_codec test_engine store
site = record {
  assets = record {
    options = record {
      path = "assets.json";
      writable = true;
      allow_overwrite = false;
      no_cache = none;
    };
    blobs = [];
    previous_blobs = [];
    dirty = false;
  };
  place = record { content = none; locked = true; faults = [] };
  blobs = record { dir = some []; faults = [] };
}

empty-IsMapBacked : IsMapBacked lawful site.blobs []
empty-IsMapBacked = record { entry = λ k v e. absurd (let q = lookup-nil {V = BlobInfo} k in cc) }

abbrev pub answer : Reader
answer = record { chunks = (2 ∷ []) ∷ (3 ∷ []) ∷ []; broken = none; closing = ok tt }

-- A server that has one answer.
abbrev pub client : Client
client = record {
  new_request = λ method url. ok tt;
  send = λ method url headers. ok (record { status_code = 200; headers = []; body = answer });
}

abbrev pub request : Request
request = record {
  method = "GET";
  tls = true;
  host = "a";
  path = "/b";
  raw_query = "";
  fragment = "";
  headers = [];
}

abbrev pub lctx : ListenerCtx test_engine
lctx = record {
  fetch_if_missing = true;
  fail_if_missing = false;
  dummy_ok = none;
  headers_to_cache = [];
}

handler-IsSiteBacked_example :
    IsSiteBacked lawful (handler test_urls lctx client request site reply).site
handler-IsSiteBacked_example =
    handler-IsSiteBacked test_platform-IsPlatform lawful test_urls lctx client request site reply
      (record { blobs = empty-IsMapBacked; previous = empty-IsMapBacked })

abbrev copying : Copying store
copying = record { reply = some reply; blob = new_content_addressable_file; state = disk }
