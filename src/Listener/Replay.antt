-- ===== src/Listener/Replay.antt =====
-- A URL that was fetched and recorded, asked for again.
use htvend.Base.{◌≡◌, refl, sym, subst, ap, ◌∙◌, ◌==◌, true, false, Option, none, some, ◌++◌, arith}
use htvend.Base.{Bytes, concat, nat_eq, string_eq, some-injective}
use htvend.Base.Dict.{lookup}
use htvend.Base.Hex.{encode, decode-encode}
use htvend.Base.Error.{Result, ok}
use htvend.Platform.{Platform, IsPlatform}
use htvend.Lockfile.{BlobInfo, Codec, File, Place, Urls}
use htvend.Lockfile.Ops.{get_blob}
use htvend.Re.{Engine, matches}
use htvend.Blobstore.{Store, IsLawful}
use htvend.Listener.{
  Request, Response, Client, Site, ListenerCtx, Headers, filter_headers, extract_req_from_url,
  status_ok,
}
use htvend.Listener.Reply.{Reply}
use htvend.Listener.Fetch.{fetch_and_save_blob}
use htvend.Listener.Handle.{fetched, looked_up, handle_main_server_request}
use htvend.Listener.Served.{serve_found_blob-view}
use htvend.Listener.Recording.{IsSaved, fetch_and_save_blob-IsSaved}

module _ {C : Codec} {E : Engine} (U : Urls) where
  pub get_blob_hit :
      (u : U.Url) (f : File E) (p : Place C) (bi : BlobInfo)
      → matches E f.options.no_cache (U.redacted u) ≡ false
      → lookup (U.redacted u) f.blobs ≡ some bi
      → get_blob U u f p ≡ (ok (some bi), f, p)
  unfolding get_blob
  get_blob_hit u f p bi cache hit = rw (cache, hit) refl

  get_blob_miss :
      (u : U.Url) (f : File E) (p : Place C)
      → lookup (U.redacted u) f.blobs ≡ none
      → lookup (U.redacted u) f.previous_blobs ≡ none
      → get_blob U u f p ≡ (ok none, f, p)
  unfolding get_blob
  get_blob_miss u f p fresh new = ground arith

module _ {C : Codec} {E : Engine} {S : Store} (U : Urls) (lctx : ListenerCtx E)
    (client : Client) where
  fetched_same :
      (o : Result (Unit {0}) × Site C E S × Option Reply) (w : Reply)
      → ((fetched U lctx client o w).result ≡ o.0) × ((fetched U lctx client o w).site ≡ o.1)
  fetched_same (r, site, none) w = (refl, refl)
  fetched_same (r, site, some w') w = (refl, refl)

  handle-fetched :
      (r : Request) (site : Site C E S) (w : Reply)
      → let u = extract_req_from_url U r in
        matches E lctx.dummy_ok (U.redacted u) ≡ false
        → lctx.fetch_if_missing ≡ true
        → lookup (U.redacted u) site.assets.blobs ≡ none
        → lookup (U.redacted u) site.assets.previous_blobs ≡ none
        → let o =
            fetch_and_save_blob U lctx.headers_to_cache client r.method u
              (ok r.headers)
              site
              (some w) in
          let h = handle_main_server_request U lctx client r site w in
          (h.result ≡ o.0) × (h.site ≡ o.1)
  unfolding handle_main_server_request looked_up
  handle-fetched r site w dummy fetch fresh new =
      let u = extract_req_from_url U r in
      let miss = get_blob_miss U u site.assets site.place fresh new in
      let o =
        fetch_and_save_blob U lctx.headers_to_cache client r.method u (ok r.headers) site
          (some w) in
      simp (dummy, miss, fetch) (fetched_same o w)

module _ {P : Platform} (LP : IsPlatform P) {S : Store} (L : IsLawful P S) {C : Codec} {E : Engine}
    (U : Urls) (lctx : ListenerCtx E) (client : Client) where
  -- An entry that is there with its bytes is served without the client.
  handle-IsSaved :
      (r : Request) (header : Headers) (c : Bytes) (site : Site C E S) (w : Reply)
      → let u = extract_req_from_url U r in
        matches E lctx.dummy_ok (U.redacted u) ≡ false
        → IsSaved L U lctx.headers_to_cache u header c site.assets site.blobs
        → (handle_main_server_request U lctx client r site w).result ≡ ok tt
        → ((handle_main_server_request U lctx client r site w).reply.body ≡ w.body ++ c)
          × ((handle_main_server_request U lctx client r site w).site.assets ≡ site.assets)
          × ((handle_main_server_request U lctx client r site w).missing ≡ 0)
  unfolding handle_main_server_request looked_up
  handle-IsSaved r header c site w dummy k h =
      let u = extract_req_from_url U r in
      let bi : BlobInfo = record {
        sha256 = encode (P.sha256 c);
        headers = filter_headers lctx.headers_to_cache header;
      } in
      let hit = get_blob_hit U u site.assets site.place bi k.cacheable k.entry in
      let h' = rw (dummy, hit) at h in
      let (c', held, sent) =
        serve_found_blob-view L bi site.blobs w (P.sha256 c)
          (decode-encode (P.sha256 c) (LP.sha256_bytes c)) h' in
      rw (dummy, hit)
        (
          sent ∙ ap (λ (b : Bytes). w.body ++ b) (some-injective c' c (sym held ∙ k.held)),
          refl,
          refl,
        )

module _ {P : Platform} (LP : IsPlatform P) {S : Store} (L : IsLawful P S) {C : Codec} {E : Engine}
    (U : Urls) (lctx : ListenerCtx E) where
  -- For a request whose URL is not on the list of dummy answers nor on the no-cache list and that
  -- the manifest does not have, when missing assets are fetched: if the handler returns nil and the
  -- upstream has answered 200, and if handling the same request next, with whatever client, returns
  -- nil too, then the second call has sent exactly the body that the upstream sent, has left the
  -- manifest as it was and has counted no missing asset.
  pub handle_twice :
      (client later : Client) (r : Request) (resp : Response) (site : Site C E S) (w w' : Reply)
      → let u = extract_req_from_url U r in
        matches E lctx.dummy_ok (U.redacted u) ≡ false
        → lctx.fetch_if_missing ≡ true
        → matches E site.assets.options.no_cache (U.redacted u) ≡ false
        → lookup (U.redacted u) site.assets.blobs ≡ none
        → lookup (U.redacted u) site.assets.previous_blobs ≡ none
        → client.send r.method (U.to_string u) r.headers ≡ ok resp
        → (resp.status_code == status_ok) ≡ true
        → let first = handle_main_server_request U lctx client r site w in
          first.result ≡ ok tt
          → let second = handle_main_server_request U lctx later r first.site w' in
            second.result ≡ ok tt
            → (second.reply.body ≡ w'.body ++ concat resp.body.chunks)
              × (second.site.assets ≡ first.site.assets)
              × (second.missing ≡ 0)
  handle_twice client later r resp site w w' dummy fetch cache fresh new sent fine done again =
      let u = extract_req_from_url U r in
      let (result, same) = handle-fetched U lctx client r site w dummy fetch fresh new in
      let k =
        fetch_and_save_blob-IsSaved LP L U lctx.headers_to_cache client r.method u r.headers resp
          site (some w) fresh cache sent fine (sym result ∙ done) in
      handle-IsSaved LP L U lctx later r resp.headers (concat resp.body.chunks)
        (handle_main_server_request U lctx client r site w).site w' dummy
        (subst
          (λ (x : Site C E S).
            IsSaved L U lctx.headers_to_cache u resp.headers (concat resp.body.chunks) x.assets
              x.blobs)
          (sym same) k)
        again
