-- ===== src/Listener/Unfetched.antt =====
-- A proxy that does not fetch what is missing.
use htvend.Base.{◌≡◌, refl, ap, false, none, some}
use htvend.Base.Error.{Result, ok, err}
use htvend.Lockfile.{BlobInfo, Codec, File, Place, Urls}
use htvend.Base.{Option}
use htvend.Lockfile.Ops.{get_blob}
use htvend.Re.{Engine}
use htvend.Blobstore.{Store}
use htvend.Listener.{Request, Client, Site, ListenerCtx, extract_req_from_url}
use htvend.Listener.Reply.{Reply}
use htvend.Listener.Handle.{with_error_page, looked_up, handle_main_server_request, handler}

module _ {C : Codec} {E : Engine} {S : Store} (U : Urls) (lctx : ListenerCtx E)
    (client other : Client) where
  looked_up-client :
      (r : Request) (u : U.Url) (x : Result (Option BlobInfo)) (f : File E) (p : Place C)
      (s : S.State) (w : Reply)
      → lctx.fetch_if_missing ≡ false
      → looked_up {S = S} U lctx client r u (x, f, p) s w ≡ looked_up U lctx other r u (x, f, p) s w
  unfolding looked_up
  looked_up-client r u (err e) f p s w h = refl
  looked_up-client r u (ok (some bi)) f p s w h = refl
  looked_up-client r u (ok none) f p s w h = simp h refl

  handle-client :
      (r : Request) (site : Site C E S) (w : Reply)
      → lctx.fetch_if_missing ≡ false
      → handle_main_server_request U lctx client r site w
        ≡ handle_main_server_request U lctx other r site w
  unfolding handle_main_server_request
  handle-client r site w h =
      let u = extract_req_from_url U r in
      let (x, f, p) = get_blob U u site.assets site.place in
      rw (looked_up-client r u x f p site.blobs w h) refl

  -- If missing assets are not fetched, then what the handler answers, and what it does to the
  -- manifest, its file and the store, is the same whatever the network would have answered.
  pub handler-client :
      (r : Request) (site : Site C E S) (w : Reply)
      → lctx.fetch_if_missing ≡ false
      → handler U lctx client r site w ≡ handler U lctx other r site w
  unfolding handler
  handler-client r site w h = ap with_error_page (handle-client r site w h)
