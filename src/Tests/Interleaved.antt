-- ===== src/Tests/Interleaved.antt =====
-- A build with two requests at the same time.
use htvend.Base.{◌≡◌, refl, true, false, [], ◌∷◌, string_eq, nat_eq, list_eq}
use htvend.Base.Dict.{lookup, insert}
use htvend.Base.Hex.{encode, decode}
use htvend.Base.Error.{ok}
use htvend.Re.{matches, new_multi_regex_matcher}
use htvend.Listener.Fetch.{fetch_and_save_blob}
use htvend.Listener.Concurrent.{
  interleaved, turn, step, returned, after_lookup, after_request, after_response, after_put,
  after_round,
}
use htvend.Commands.Build.{IsPublished}
use htvend.Commands.Run.{build_running}
use htvend.Commands.Interleaved.{
  Schedule, run_interleaved, build_interleaved, build_interleaved-IsPublished,
}
use htvend.Tests.Setup.{
  test_platform, test_platform-IsPlatform, test_codec-IsCodec, test_engine, test_urls,
}
use htvend.Tests.Concurrent.{shared}
use htvend.Tests.Site.{store, site, client, reply, request}
use htvend.Tests.Sessions.{surroundings, build, place}

-- The first handler has two turns after the second has begun to copy, and does not return.
abbrev schedule : Schedule
schedule = record {
  requests = λ i. request;
  replies = λ i. reply;
  order = 0 ∷ 1 ∷ 1 ∷ 1 ∷ 0 ∷ 1 ∷ 0 ∷ 1 ∷ 1 ∷ 1 ∷ 1 ∷ 1 ∷ 1 ∷ [];
  ended = ok tt;
}

build_interleaved-IsPublished_example :
    let (_, p', s') =
      build_interleaved test_engine test_urls surroundings client store schedule build place
        site.blobs in
    IsPublished shared.lawful p' s' × (p'.locked ≡ false)
unfolding build_interleaved run_interleaved build_running htvend.Commands.make_manifest_file
    htvend.Commands.Run.with_manifest htvend.Commands.Run.closed htvend.Commands.Run.build_session
    htvend.Commands.Run.listened interleaved turn step returned after_lookup after_request
    after_response after_put after_round htvend.Listener.Concurrent.closed
    htvend.Listener.Handle.handler matches lookup insert htvend.Base.Dict.erase nat_eq string_eq
    list_eq fetch_and_save_blob htvend.Listener.Fetch.save_response
    htvend.Listener.Fetch.commit_copied htvend.Listener.Fetch.copy_body
    htvend.Listener.Fetch.write_blob htvend.Listener.Fetch.recorded
    htvend.Listener.Fetch.write_reply htvend.Stream.copy_chunks htvend.Stream.copy_one
    htvend.Stream.copy_chunk htvend.Stream.tee_all htvend.Blobstore.Caf.write
    htvend.Blobstore.Caf.write_always htvend.Blobstore.Caf.ensure_open
    htvend.Blobstore.Caf.write_open htvend.Blobstore.Caf.commit htvend.Blobstore.Caf.finish
    htvend.Blobstore.Caf.cleanup htvend.Blobstore.Disk.mkdir_all htvend.Blobstore.Disk.create_temp
    htvend.Blobstore.Disk.write_file htvend.Blobstore.Disk.close_file htvend.Blobstore.Disk.rename
    htvend.Blobstore.Disk.remove htvend.Blobstore.Disk.open_file htvend.Lockfile.Ops.skip_save
    htvend.Lockfile.Ops.add_blob htvend.Lockfile.Ops.internal_add_blob htvend.Lockfile.Ops.save
    htvend.Blobstore.Directory.put htvend.Tests.Setup.joined encode htvend.Lockfile.blob_equals
    htvend.Listener.Handle.handle_main_server_request htvend.Listener.Handle.looked_up
    htvend.Listener.Handle.serve_found_blob htvend.Blobstore.Directory.get decode
    htvend.Lockfile.Ops.get_blob htvend.Listener.Reply.write_body htvend.Listener.Reply.write_header
    htvend.Listener.Reply.set_headers htvend.Listener.Reply.add_headers
    htvend.Lockfile.Ops.new_map_file htvend.Lockfile.Ops.lock htvend.Lockfile.Ops.load
    htvend.Lockfile.Ops.reset htvend.Lockfile.Ops.close new_multi_regex_matcher
    htvend.Base.Error.errors_is
build_interleaved-IsPublished_example =
    build_interleaved-IsPublished test_platform-IsPlatform test_engine shared test_urls surroundings
      client schedule test_codec-IsCodec build place site.blobs (λ c m e d. absurd (cc)) refl
