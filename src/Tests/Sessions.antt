-- ===== src/Tests/Sessions.antt =====
-- Whole commands, with one request.
use htvend.Base.{
  ◌≡◌, refl, ℕ, zero, suc, true, false, Bool, Option, none, some, String, List, [], ◌∷◌, ◌++◌,
  string_eq, nat_eq, list_eq, arith,
}
use htvend.Base.{Bytes}
use htvend.Base.Dict.{lookup, insert}
use htvend.Base.Hex.{encode, decode}
use htvend.Base.Error.{Error, message, Result, ok, err}
use htvend.Re.{matches, new_multi_regex_matcher}
use htvend.Re.Laws.{fits_any, matches-fits_any}
use htvend.Lockfile.{BlobMap, Place, returns}
use htvend.Blobstore.{Store}
use htvend.Blobstore.Directory.{directory_store}
use htvend.Listener.{Request, Client, Site, filter_headers}
use htvend.Listener.Fetch.{fetch_and_save_blob}
use htvend.Listener.Handle.{handle_main_server_request}
use htvend.Listener.Recording.{IsSaved, fetch_and_save_blob-IsSaved}
use htvend.Listener.Replay.{handle_twice}
use htvend.Commands.{ManifestOptions, FetchOptions, Surroundings, Backend}
use htvend.Commands.Run.{Traffic, BuildCommand, OfflineCommand, offline_in, offline_execute}
use htvend.Commands.Offline.{offline_execute-client, offline_in-Untouched}
use htvend.Commands.Verify.{VerifyCommand, validate_ctx}
use htvend.Commands.Unrepaired.{SameManifest, do_validate-unfetched}
use htvend.Verify.{do_validate, MultiError}
use htvend.Tests.Setup.{
  test_platform, test_platform-IsPlatform, test_codec, test_codec-IsCodec, test_engine, test_urls,
}
use htvend.Tests.Site.{store, lawful, site, client, answer, reply, request, lctx}

abbrev offline_client : Client
offline_client = record {
  new_request = λ method url. ok tt;
  send = λ method url headers. err (message "no network");
}

matches-fits_any_example :
    matches test_engine (some ("a" ∷ ("b" ∷ []))) "b" ≡ fits_any test_engine ("a" ∷ ("b" ∷ [])) "b"
unfolding new_multi_regex_matcher
matches-fits_any_example =
    matches-fits_any test_engine ("a" ∷ ("b" ∷ [])) (some ("a" ∷ ("b" ∷ []))) "b" refl

fetch_and_save_blob-IsSaved_example :
    let site' = (fetch_and_save_blob test_urls [] client "GET" "https://a/b" (ok []) site none).1 in
    IsSaved lawful test_urls [] "https://a/b" [] (2 ∷ 3 ∷ []) site'.assets site'.blobs
unfolding matches lookup insert htvend.Base.Dict.erase nat_eq string_eq list_eq fetch_and_save_blob
    htvend.Listener.Fetch.save_response htvend.Listener.Fetch.commit_copied
    htvend.Listener.Fetch.copy_body htvend.Listener.Fetch.write_blob htvend.Listener.Fetch.recorded
    htvend.Listener.Fetch.write_reply htvend.Stream.copy_chunks htvend.Stream.copy_one
    htvend.Stream.copy_chunk htvend.Stream.tee_all htvend.Blobstore.Caf.write
    htvend.Blobstore.Caf.write_always htvend.Blobstore.Caf.ensure_open
    htvend.Blobstore.Caf.write_open htvend.Blobstore.Caf.commit htvend.Blobstore.Caf.finish
    htvend.Blobstore.Caf.cleanup htvend.Blobstore.Disk.mkdir_all htvend.Blobstore.Disk.create_temp
    htvend.Blobstore.Disk.write_file htvend.Blobstore.Disk.close_file htvend.Blobstore.Disk.rename
    htvend.Blobstore.Disk.remove htvend.Blobstore.Disk.open_file htvend.Lockfile.Ops.skip_save
    htvend.Lockfile.Ops.add_blob htvend.Lockfile.Ops.internal_add_blob htvend.Lockfile.Ops.save
    htvend.Blobstore.Directory.put htvend.Tests.Setup.joined encode htvend.Lockfile.blob_equals
fetch_and_save_blob-IsSaved_example =
    fetch_and_save_blob-IsSaved test_platform-IsPlatform lawful test_urls [] client "GET"
      "https://a/b" [] (record { status_code = 200; headers = []; body = answer }) site none refl
      refl refl refl refl

handle_twice_example :
    let first = handle_main_server_request test_urls lctx client request site reply in
    let second =
      handle_main_server_request test_urls lctx offline_client request first.site reply in
    (second.reply.body ≡ [] ++ (2 ∷ 3 ∷ []))
    × (second.site.assets ≡ first.site.assets)
    × (second.missing ≡ 0)
unfolding matches lookup insert htvend.Base.Dict.erase nat_eq string_eq list_eq fetch_and_save_blob
    htvend.Listener.Fetch.save_response htvend.Listener.Fetch.commit_copied
    htvend.Listener.Fetch.copy_body htvend.Listener.Fetch.write_blob htvend.Listener.Fetch.recorded
    htvend.Listener.Fetch.write_reply htvend.Stream.copy_chunks htvend.Stream.copy_one
    htvend.Stream.copy_chunk htvend.Stream.tee_all htvend.Blobstore.Caf.write
    htvend.Blobstore.Caf.write_always htvend.Blobstore.Caf.ensure_open
    htvend.Blobstore.Caf.write_open htvend.Blobstore.Caf.commit htvend.Blobstore.Caf.finish
    htvend.Blobstore.Caf.cleanup htvend.Blobstore.Disk.mkdir_all htvend.Blobstore.Disk.create_temp
    htvend.Blobstore.Disk.write_file htvend.Blobstore.Disk.close_file htvend.Blobstore.Disk.rename
    htvend.Blobstore.Disk.remove htvend.Blobstore.Disk.open_file htvend.Lockfile.Ops.skip_save
    htvend.Lockfile.Ops.add_blob htvend.Lockfile.Ops.internal_add_blob htvend.Lockfile.Ops.save
    htvend.Blobstore.Directory.put htvend.Tests.Setup.joined encode htvend.Lockfile.blob_equals
    htvend.Listener.Handle.handle_main_server_request htvend.Listener.Handle.looked_up
    htvend.Listener.Handle.serve_found_blob htvend.Blobstore.Directory.get decode
    htvend.Lockfile.Ops.get_blob htvend.Listener.Reply.write_body htvend.Listener.Reply.write_header
    htvend.Listener.Reply.set_headers htvend.Listener.Reply.add_headers
    htvend.Listener.extract_req_from_url filter_headers
handle_twice_example =
    handle_twice test_platform-IsPlatform lawful test_urls lctx client offline_client request
      (record { status_code = 200; headers = []; body = answer }) site reply reply refl refl refl
      refl refl refl refl refl refl

abbrev pub manifest : ManifestOptions
manifest = record {
  cache = record {
    blobs_backend = "filesystem";
    blobs_registry = "";
    blobs_dir = "/blobs";
    blobs_bucket = "";
    blobs_prefix = "";
  };
  manifest_file = "assets.json";
}

abbrev pub surroundings : Surroundings
surroundings = record {
  data_file = λ s. ok s;
  canonical_header_key = λ s. s;
  load_s3_config = ok tt;
}

abbrev fetch_options : FetchOptions
fetch_options = record { no_cache = []; cache_header = [] }

abbrev pub build : BuildCommand
build = record { manifest = manifest; fetch = fetch_options; force_refresh = false }

abbrev traffic : Traffic
traffic = record { requests = (request, reply) ∷ []; ended = ok tt }

abbrev pub place : Place test_codec
place = record { content = none; locked = false; faults = [] }

abbrev offline : OfflineCommand
offline = record { manifest = manifest; dummy_ok = [] }

abbrev stores : Backend → Store
stores b = store

offline_execute-client_example :
    offline_execute stores test_engine test_urls surroundings client traffic offline place
      (λ b. site.blobs)
    ≡ offline_execute stores test_engine test_urls surroundings offline_client traffic offline place
        (λ b. site.blobs)
offline_execute-client_example =
    offline_execute-client test_engine test_urls surroundings client offline_client traffic stores
      offline place (λ b. site.blobs)

offline_in-Untouched_example :
    let (_, p', _) =
      offline_in test_engine test_urls surroundings client store traffic offline place site.blobs in
    (p'.content ≡ none) × (p'.locked ≡ false)
offline_in-Untouched_example =
    offline_in-Untouched test_engine store test_urls surroundings client traffic offline place
      site.blobs

abbrev verify : VerifyCommand
verify = record { manifest = manifest; fetch_options = fetch_options; fetch = false; repair = true }

abbrev last_error : MultiError
last_error rv e = e

-- A store that may not be written, and a manifest with an entry that it lacks.
abbrev lacking : Site test_codec test_engine (directory_store test_platform false)
lacking = record {
  assets = record site.assets {
    blobs = ("https://a/b", record { sha256 = "05"; headers = [] }) ∷ [];
  };
  place = site.place;
  blobs = site.blobs;
}

do_validate-unfetched_example :
    SameManifest lacking
      (do_validate last_error test_urls
        (validate_ctx surroundings verify)
        client
        test_platform
        lacking).1
do_validate-unfetched_example =
    do_validate-unfetched test_platform last_error test_urls surroundings client verify refl lacking

-- Jobs that fail, but for the number 0.
abbrev job : ℕ → ℕ → Result (Unit {0}) × ℕ
job k s = (elim k [ zero ↦ ok tt | suc _ ↦ err (message "failed") ], s)
