-- ===== src/Listener/Kept.antt =====
-- What GetBlob and AddBlob keep of the manifest and its file, the handlers keep.
use htvend.Base.{sym, subst, ◌==◌, ◌||◌, not, String, Option, none, some, List, arith}
use htvend.Base.{Bytes, nat_eq, if_both}
use htvend.Base.Error.{Result, ok, err}
use htvend.Lockfile.{BlobInfo, Codec, File, Place, Urls}
use htvend.Lockfile.Ops.{get_blob, add_blob, skip_save}
use htvend.Re.{Engine, matches}
use htvend.Blobstore.{Store}
use htvend.Listener.{
  Request, Response, Client, Site, ListenerCtx, Headers, extract_req_from_url, status_ok,
}
use htvend.Listener.Reply.{Reply, write_header}
use htvend.Listener.Fetch.{
  Copying, copy_body, copy_out, recorded, commit_copied, answered, save_into, save_response,
  responded, requested, fetch_and_save_blob,
}
use htvend.Listener.Handle.{
  Handled, fetched, unfetched, looked_up, handle_main_server_request, handler,
}
use htvend.Listener.Handled.{handler_site}

-- A property of a manifest and its file that GetBlob and AddBlob keep.
pub record IsKept {C : Codec} {E : Engine} (U : Urls) (Q : File E → Place C → Type 0) : Type 0 where
  pub by_get :
      (u : U.Url) (f : File E) (p : Place C) → Q f p → Q (get_blob U u f p).1 (get_blob U u f p).2
  pub by_add :
      (u : U.Url) (info : BlobInfo) (f : File E) (p : Place C)
      → Q f p
      → Q (add_blob U u info f p).1 (add_blob U u info f p).2

module _ {C : Codec} {E : Engine} (U : Urls) (Q : File E → Place C → Type 0) (K : IsKept U Q)
    (headers_to_cache : List String) where
  pub recorded_keeps :
      (u : U.Url) (header : Headers) (d : Result Bytes) (f : File E) (p : Place C)
      → Q f p
      → Q
          (recorded U headers_to_cache u header d f p).1
          (recorded U headers_to_cache u header d f p).2
  unfolding recorded
  recorded_keeps u header (err e) f p q = q
  recorded_keeps u header (ok digest) f p q = K.by_add u _ f p q

module _ {C : Codec} {E : Engine} {S : Store} (U : Urls) (Q : File E → Place C → Type 0)
    (K : IsKept U Q) (headers_to_cache : List String) where
  abbrev HasSite : Site C E S → Type 0
  HasSite site = Q site.assets site.place

  commit_copied_keeps :
      (u : U.Url) (header : Headers) (r : Result (Unit {0})) (c : Copying S) (f : File E)
      (p : Place C)
      → Q f p
      → let o = commit_copied U headers_to_cache u header (r, c) f p in Q o.2 o.3
  unfolding commit_copied
  commit_copied_keeps u header (err e) c f p q = q
  commit_copied_keeps u header (ok _) c f p q =
      recorded_keeps U Q K headers_to_cache u header (S.commit c.blob c.state).0 f p q

  save_into_keeps :
      (u : U.Url) (resp : Response) (r : Result S.Blob) (s : S.State) (site : Site C E S)
      (w : Option Reply)
      → HasSite site
      → HasSite (save_into U headers_to_cache u resp (r, s) site w).1
  unfolding save_into
  save_into_keeps u resp (err e) s site w q = q
  save_into_keeps u resp (ok b) s site w q =
      let c : Copying S = record { reply = w; blob = b; state = s } in
      commit_copied_keeps u resp.headers (copy_body S resp.body c).0 (copy_body S resp.body c).1
        site.assets site.place q

  save_response_keeps :
      (u : U.Url) (resp : Response) (site : Site C E S) (w : Option Reply)
      → HasSite site
      → HasSite (save_response U headers_to_cache u resp site w).1
  unfolding save_response
  save_response_keeps u resp site w q =
      if_both (λ (o : Result (Unit {0}) × Site C E S × Option Reply). HasSite o.1)
        (skip_save U site.assets u || not (resp.status_code == status_ok))
        (let (r, w') = copy_out S resp.body w in (r, site, w'))
        (save_into U headers_to_cache u resp (S.put site.blobs) site w) q
        (save_into_keeps u resp (S.put site.blobs).0 (S.put site.blobs).1 site w q)

  responded_keeps :
      (u : U.Url) (r : Result Response) (site : Site C E S) (w : Option Reply)
      → HasSite site
      → HasSite (responded U headers_to_cache u r site w).1
  unfolding responded
  responded_keeps u (err e) site w q = q
  responded_keeps u (ok resp) site w q = save_response_keeps u resp site (answered resp w) q

  requested_keeps :
      (client : Client) (method : String) (u : U.Url) (r : Result (Unit {0}))
      (preprocess : Result Headers) (site : Site C E S) (w : Option Reply)
      → HasSite site
      → HasSite (requested U headers_to_cache client method u r preprocess site w).1
  unfolding requested
  requested_keeps client method u (err e) preprocess site w q = q
  requested_keeps client method u (ok _) (err e) site w q = q
  requested_keeps client method u (ok _) (ok headers) site w q =
      responded_keeps u (client.send method (U.to_string u) headers) site w q

  pub fetch_and_save_blob_keeps :
      (client : Client) (method : String) (u : U.Url) (preprocess : Result Headers)
      (site : Site C E S) (w : Option Reply)
      → HasSite site
      → HasSite (fetch_and_save_blob U headers_to_cache client method u preprocess site w).1
  unfolding fetch_and_save_blob
  fetch_and_save_blob_keeps client method u preprocess site w q =
      requested_keeps client method u (client.new_request method (U.to_string u)) preprocess site w
        q

module _ {C : Codec} {E : Engine} {S : Store} (U : Urls) (Q : File E → Place C → Type 0)
    (K : IsKept U Q) (lctx : ListenerCtx E) (client : Client) where
  fetched_keeps :
      (o : Result (Unit {0}) × Site C E S × Option Reply) (w : Reply)
      → Q o.1.assets o.1.place
      → let h = fetched U lctx client o w in Q h.site.assets h.site.place
  fetched_keeps (r, site, some w') w q = q
  fetched_keeps (r, site, none) w q = q

module _ {C : Codec} {E : Engine} (U : Urls) (Q : File E → Place C → Type 0) (K : IsKept U Q)
    (lctx : ListenerCtx E) (client : Client) where
  looked_up_keeps :
      (S : Store) (r : Request) (u : U.Url) (x : Result (Option BlobInfo)) (f : File E)
      (p : Place C) (s : S.State) (w : Reply)
      → Q f p
      → let h = looked_up {S = S} U lctx client r u (x, f, p) s w in Q h.site.assets h.site.place
  unfolding looked_up
  looked_up_keeps S r u (err e) f p s w q = q
  looked_up_keeps S r u (ok (some bi)) f p s w q = q
  looked_up_keeps S r u (ok none) f p s w q =
      let site : Site C E S = record { assets = f; place = p; blobs = s } in
      let o =
        fetch_and_save_blob U lctx.headers_to_cache client r.method u (ok r.headers) site
          (some w) in
      if_both (λ (h : Handled C E S). Q h.site.assets h.site.place) lctx.fetch_if_missing
        (fetched U lctx client o w) (unfetched U lctx client f p s w)
        (fetched_keeps U Q K lctx client o w (
          fetch_and_save_blob_keeps U Q K lctx.headers_to_cache client r.method u (ok r.headers)
            site (some w) q))
        (ground (arith, q))

module _ {C : Codec} {E : Engine} {S : Store} (U : Urls) (Q : File E → Place C → Type 0)
    (K : IsKept U Q) (lctx : ListenerCtx E) (client : Client) where
  handle_main_server_request_keeps :
      (r : Request) (site : Site C E S) (w : Reply)
      → Q site.assets site.place
      → let h = handle_main_server_request U lctx client r site w in Q h.site.assets h.site.place
  unfolding handle_main_server_request
  handle_main_server_request_keeps r site w q =
      let u = extract_req_from_url U r in
      let (x, f, p) = get_blob U u site.assets site.place in
      if_both (λ (h : Handled C E S). Q h.site.assets h.site.place)
        (matches E lctx.dummy_ok (U.redacted u))
        (record { result = ok tt; site = site; reply = write_header status_ok w; missing = 0 })
        (looked_up U lctx client r u (x, f, p) site.blobs w) q
        (looked_up_keeps U Q K lctx client S r u x f p site.blobs w
          (K.by_get u site.assets site.place q))

  pub handler_keeps :
      (r : Request) (site : Site C E S) (w : Reply)
      → Q site.assets site.place
      → let h = handler U lctx client r site w in Q h.site.assets h.site.place
  handler_keeps r site w q =
      subst (λ (x : Site C E S). Q x.assets x.place) (sym (handler_site U lctx client r site w))
        (handle_main_server_request_keeps r site w q)
