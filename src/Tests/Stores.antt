-- ===== src/Tests/Stores.antt =====
-- The stores in a bucket and in a registry.
use htvend.Base.{
  ◌≡◌, refl, sym, ap, ◌∙◌, ◌==◌, ℕ, true, false, none, some, String, List, [], ◌∷◌, inl, inr,
  string_eq, nat_eq, list_eq, arith, append-nil, ◌++◌,
}
use htvend.Base.{Bytes, contains, length, take, concat, if◌then◌else◌, Option-cases}
use htvend.Base.Dict
use htvend.Base.Dict.{Dict, lookup, lookup-insert}
use htvend.Base.Error.{message, errors_is, Result, ok, err}
use htvend.Stream.{Reader}
use htvend.Listener.{Response, Client, Site}
use htvend.Blobstore.{IsLawful}
use htvend.Blobstore.Disk.{Disk}
use htvend.Blobstore.S3.{S3Client, IsS3Client, s3_store}
use htvend.Blobstore.S3.Laws.{s3_store-IsLawful}
use htvend.Blobstore.Registry.{Network, Log, BlobBeingUploaded, call, write, commit, cleanup}
use htvend.Blobstore.Registry.Uploaded.{
  IsPatient, parts, ranges, write_all, write_all-ranges, commit-write_all,
}
use htvend.Blobstore.Disk.Laws.{file}
use htvend.Blobstore.Directory.{remove_except}
use htvend.Blobstore.Directory.Removal.{remove_except_leaves}
use htvend.Verify.{ValidateCtx, MultiError, do_validate}
use htvend.Verify.OnS3.{do_validate-client}
use htvend.Base.{◌<>◌}
use htvend.Base.Hex.{encode}
use htvend.Blobstore.Registry.{Sent}
use htvend.Tests.Setup.{test_platform, test_platform-IsPlatform, test_codec, test_engine, test_urls}

-- A bucket as a map.
abbrev bucket_client : S3Client
bucket_client = record {
  Bucket = Dict String Bytes;
  get_object = λ n b. (
    elim (lookup n b) [
      | none ↦ err (message "NoSuchKey")
      | some c ↦ ok (record { chunks = c ∷ []; broken = none; closing = ok tt })
    ],
    b,
  );
  head_object = λ n b. (elim (lookup n b) [ none ↦ err (message "NotFound") | some c ↦ ok tt ], b);
  put_object = λ n c b. (ok tt, Dict.insert n c b);
  is_not_found = λ e. true;
}

bucket_client-IsS3Client : IsS3Client bucket_client
unfolding errors_is
bucket_client-IsS3Client = record {
  object = λ b n. lookup n b;
  object-get_object = λ n m b. refl;
  get_object_ok = λ n b r h w. elim (Option-cases (lookup n b)) [
    | inl absent ↦ absurd (ground arith)
    | inr (c, held) ↦
        let same : r ≡ record { chunks = c ∷ []; broken = none; closing = ok tt } = ground arith in
        held ∙ ap some (sym (append-nil c)) ∙ ap (λ (x : Reader). some (concat x.chunks)) (sym same)
  ];
  get_object_err = λ n b e h. elim (Option-cases (lookup n b)) [
    | inl absent ↦ ground arith
    | inr (c, held) ↦ absurd (ground arith)
  ];
  object-head_object = λ n m b. refl;
  head_object_ok = λ n b h. elim (Option-cases (lookup n b)) [
    | inl absent ↦ absurd (ground arith)
    | inr (c, held) ↦ (c, held)
  ];
  put_object_ok = λ n m c b h. lookup-insert m n c b;
  put_object_err = λ n m c b e h. absurd (cc);
}

s3_store-IsLawful_example : IsLawful test_platform (s3_store bucket_client test_platform "blobs/")
s3_store-IsLawful_example =
    s3_store-IsLawful bucket_client-IsS3Client test_platform "blobs/" test_platform-IsPlatform

-- A registry that takes everything.
abbrev status_for : String → ℕ
status_for method = if method == "PUT" then 201 else if method == "DELETE" then 204 else 202

abbrev network : Network
network = record {
  answer = λ log r. (
    length r.body,
    ok (record {
      status_code = status_for r.method;
      headers = ("Location", ("/next?x=1", [])) ∷ [];
      body = record { chunks = []; broken = none; closing = ok tt };
    }),
  );
  new_request = λ url. ok tt;
  decimal = λ n. "n";
}

take_all : (b : Bytes) → take (length b) b ≡ b
take_all [] = refl
take_all (x ∷ b) = ap (λ (l : Bytes). x ∷ l) (take_all b)

network-IsPatient : IsPatient network
network-IsPatient = record {
  read = λ log r n resp e h.
      ap (λ (x : ℕ × Result Response). take x.0 r.body) (sym e) ∙ take_all r.body;
}

abbrev blob : BlobBeingUploaded
blob = record { url = "/start?x=0"; digest = some []; bw = 0 }

abbrev pieces : List Bytes
pieces = (1 ∷ 2 ∷ []) ∷ ([] ∷ ((3 ∷ []) ∷ []))

write_all-ranges_example :
    let (fine, b, log) = write_all network pieces blob [] in
    (b.digest ≡ some (1 ∷ 2 ∷ 3 ∷ []))
    × (b.bw ≡ 3)
    × (new : Log) × (log ≡ new)
    × (parts new ≡ ranges network 0 pieces)
unfolding write_all write nat_eq string_eq call htvend.Auth.get_header lookup
write_all-ranges_example = write_all-ranges network network-IsPatient pieces [] blob [] refl refl

commit-write_all_example :
    let (fine, b1, log1) = write_all network pieces blob [] in
    let (r, b2, log2) = commit network test_platform b1 log1 in
    (6 ∷ [] ≡ test_platform.sha256 (1 ∷ 2 ∷ 3 ∷ []))
    × (put : Sent) × (log2 ≡ log1 ++ (put ∷ []))
    × (put.method ≡ "PUT")
    × (put.url ≡ b1.url <> ("&digest=sha256:" <> encode (test_platform.sha256 (1 ∷ 2 ∷ 3 ∷ []))))
    × (put.body ≡ [])
    × (cleanup network b2 log2 ≡ (ok tt, b2, log2))
unfolding write_all write nat_eq string_eq call htvend.Auth.get_header lookup commit
commit-write_all_example =
    commit-write_all network test_platform network-IsPatient pieces blob [] (6 ∷ []) refl refl refl

abbrev failing_disk : Disk
failing_disk = record { dir = some []; faults = htvend.Blobstore.Disk.fail 0 ∷ [] }

-- A verification of one entry that the bucket lacks.
abbrev s3_site : Site test_codec test_engine (s3_store bucket_client test_platform "")
s3_site = record {
  assets = record {
    options = record {
      path = "assets.json";
      writable = true;
      allow_overwrite = true;
      no_cache = none;
    };
    blobs = ("https://a/b", record { sha256 = "05"; headers = [] }) ∷ [];
    previous_blobs = [];
    dirty = false;
  };
  place = record { content = none; locked = true; faults = [] };
  blobs = record { bucket = []; faults = [] };
}

abbrev repair : ValidateCtx
repair = record {
  headers_to_cache = [];
  fail_if_missing = false;
  fetch_if_missing = true;
  repair_if_wrong = true;
  validate_sha256 = true;
}

abbrev no_network : Client
no_network = record {
  new_request = λ method url. ok tt;
  send = λ method url headers. err (message "no network");
}

abbrev network_client : Client
network_client = record {
  new_request = λ method url. ok tt;
  send = λ method url headers. ok (record {
    status_code = 200;
    headers = [];
    body = record { chunks = (5 ∷ []) ∷ []; broken = none; closing = ok tt };
  });
}

abbrev last_error : MultiError
last_error rv e = e

do_validate-client_example :
    do_validate last_error test_urls repair network_client test_platform s3_site
    ≡ do_validate last_error test_urls repair no_network test_platform s3_site
do_validate-client_example =
    do_validate-client bucket_client-IsS3Client test_platform "" last_error test_urls repair
      network_client no_network s3_site

-- A store with three files, of which one is to be kept.
abbrev full_disk : Disk
full_disk = record {
  dir = some (("05", 2 ∷ 3 ∷ []) ∷ (("tmp1", []) ∷ (("07", 7 ∷ []) ∷ [])));
  faults = [];
}

remove_except_leaves_example : file "07" (remove_except true ("05" ∷ []) full_disk).1 ≡ none
unfolding remove_except string_eq lookup htvend.Base.Dict.erase htvend.Blobstore.Disk.read_dir
    htvend.Blobstore.Disk.remove
remove_except_leaves_example = remove_except_leaves ("05" ∷ []) full_disk "07" refl
