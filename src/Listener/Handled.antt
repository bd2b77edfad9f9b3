-- ===== src/Listener/Handled.antt =====
-- The handlers and the entries of the manifest that the store backs.
use htvend.Base.{◌≡◌, refl, sym, subst, Option, none, some, arith, inl, inr}
use htvend.Base.{Option-cases, if_both}
use htvend.Base.Hex.{decode}
use htvend.Base.Error.{Result, ok, err}
use htvend.Platform.{Platform, IsPlatform}
use htvend.Lockfile.{BlobInfo, Codec, File, Place, Urls}
use htvend.Lockfile.Ops.{get_blob}
use htvend.Re.{Engine, matches}
use htvend.Blobstore.{Store, IsLawful}
use htvend.Blobstore.Growth.{Grows, Grows-same, Grows-get}
use htvend.Listener.{Request, Client, Site, ListenerCtx, extract_req_from_url, status_ok}
use htvend.Listener.Reply.{Reply, write_header}
use htvend.Listener.Fetch.{fetch_and_save_blob}
use htvend.Listener.Handle.{
  Handled, fetched, unfetched, looked_up, serve_found_blob, handle_main_server_request, handler,
}
use htvend.Listener.Backed.{IsMapBacked-Grows, IsSiteBacked}
use htvend.Listener.Recorded.{get_blob-IsSiteBacked, fetch_and_save_blob-IsSiteBacked}

module _ {P : Platform} {S : Store} (L : IsLawful P S) where
  pub serve_found_blob-Grows :
      (bi : BlobInfo) (s : S.State) (w : Reply) → Grows L s (serve_found_blob S bi s w).1
  unfolding serve_found_blob
  serve_found_blob-Grows bi s w = elim (Option-cases (decode bi.sha256)) [
    | inl bad ↦ rw (bad, serve_found_blob) (Grows-same L s s (λ j _. refl))
    | inr (k, e) ↦ rw (e, serve_found_blob) (Grows-get L k s)
  ]

module _ {C : Codec} {E : Engine} {S : Store} (U : Urls) (lctx : ListenerCtx E)
    (client : Client) where
  -- The answer to an error changes nothing but the reply.
  pub handler_site :
      (r : Request) (site : Site C E S) (w : Reply)
      → (handler U lctx client r site w).site
        ≡ (handle_main_server_request U lctx client r site w).site
  unfolding handler
  handler_site r site w = ground arith

module _ {P : Platform} (LP : IsPlatform P) {S : Store} (L : IsLawful P S) where
  module _ {C : Codec} {E : Engine} (U : Urls) (lctx : ListenerCtx E) (client : Client) where
    fetched-IsSiteBacked :
        (o : Result (Unit {0}) × Site C E S × Option Reply) (w : Reply)
        → IsSiteBacked L o.1
        → IsSiteBacked L (fetched U lctx client o w).site
    fetched-IsSiteBacked (r, site, some w') w h = h
    fetched-IsSiteBacked (r, site, none) w h = h

    looked_up-IsSiteBacked :
        (r : Request) (u : U.Url) (x : Result (Option BlobInfo)) (f : File E) (p : Place C)
        (s : S.State) (w : Reply)
        → IsSiteBacked L (record { assets = f; place = p; blobs = s })
        → IsSiteBacked L (looked_up U lctx client r u (x, f, p) s w).site
    unfolding looked_up
    looked_up-IsSiteBacked r u (err e) f p s w h = h
    looked_up-IsSiteBacked r u (ok (some bi)) f p s w h =
        let g = serve_found_blob-Grows L bi s w in
        record {
          blobs = IsMapBacked-Grows L s (serve_found_blob S bi s w).1 f.blobs g h.blobs;
          previous =
              IsMapBacked-Grows L s (serve_found_blob S bi s w).1 f.previous_blobs g h.previous;
        }
    looked_up-IsSiteBacked r u (ok none) f p s w h =
        if_both (λ (o : Handled C E S). IsSiteBacked L o.site) lctx.fetch_if_missing
          (fetched U lctx client
            (fetch_and_save_blob U lctx.headers_to_cache client r.method u (ok r.headers)
              (record { assets = f; place = p; blobs = s }) (some w))
            w)
          (unfetched U lctx client f p s w)
          (fetched-IsSiteBacked
            (fetch_and_save_blob U lctx.headers_to_cache client r.method u (ok r.headers)
              (record { assets = f; place = p; blobs = s }) (some w))
            w
            (fetch_and_save_blob-IsSiteBacked LP L U lctx.headers_to_cache client r.method u
              (ok r.headers) (record { assets = f; place = p; blobs = s }) (some w) h))
          (ground (arith, h))

    -- The same for the handler without its answer to errors.
    pub handle_main_server_request-IsSiteBacked :
        (r : Request) (site : Site C E S) (w : Reply)
        → IsSiteBacked L site
        → IsSiteBacked L (handle_main_server_request U lctx client r site w).site
    unfolding handle_main_server_request
    handle_main_server_request-IsSiteBacked r site w h =
        let u = extract_req_from_url U r in
        let (x, f, p) = get_blob U u site.assets site.place in
        if_both (λ (o : Handled C E S). IsSiteBacked L o.site)
          (matches E lctx.dummy_ok (U.redacted u))
          (record { result = ok tt; site = site; reply = write_header status_ok w; missing = 0 })
          (looked_up U lctx client r u (x, f, p) site.blobs w) h
          (looked_up-IsSiteBacked r u x f p site.blobs w
            (get_blob-IsSiteBacked LP L U lctx.headers_to_cache u site h))

    -- If every entry of the manifest, of this run and of the previous one, names bytes that the
    -- store holds under their own digest, then this is so after any request, whatever the request,
    -- the options and the upstream's answer are and whichever reads, writes and calls on the disk
    -- fail.
    pub handler-IsSiteBacked :
        (r : Request) (site : Site C E S) (w : Reply)
        → IsSiteBacked L site
        → IsSiteBacked L (handler U lctx client r site w).site
    unfolding handler
    handler-IsSiteBacked r site w h =
        subst (IsSiteBacked L) (sym (handler_site U lctx client r site w))
          (handle_main_server_request-IsSiteBacked r site w h)
