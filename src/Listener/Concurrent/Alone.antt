-- ===== src/Listener/Concurrent/Alone.antt =====
-- A handler whose steps no other interrupts, against the handler as one function.
use htvend.Base.{
  ◌≡◌, refl, sym, ◌∙◌, subst, ◌==◌, ◌||◌, not, nat_eq, Option, none, some, [], ◌∷◌, inl, inr, ℕ,
  if◌then◌else◌, Bool-cases,
}
use htvend.Base.Error.{Result, ok, err, message, wrap_err}
use htvend.Stream.{copy_chunks}
use htvend.Lockfile.{BlobInfo, Codec, File, Place, Urls}
use htvend.Lockfile.Ops.{get_blob, skip_save}
use htvend.Re.{Engine, matches}
use htvend.Blobstore.{Store}
use htvend.Listener.{
  Request, Response, Client, Site, ListenerCtx, status_ok, status_not_found, extract_req_from_url,
}
use htvend.Listener.Reply.{Reply, http_error, write_header, add_headers}
use htvend.Listener.Fetch.{
  Copying, write_reply, write_blob, copy_body, copy_out, commit_copied, cleaned, closing, save_into,
  save_response, responded, requested, fetch_and_save_blob,
}
use htvend.Listener.Handle.{
  Handled, fetched, unfetched, looked_up, handle_main_server_request, handler,
}
use htvend.Listener.Concurrent.{
  Handler, arrived, asking, answering, ended, step, returned, closed, after_lookup, after_request,
  after_response, after_put,
}
use htvend.Listener.Concurrent.Uninterrupted.{
  alone, Reaches, next, outcome, outcome_lem, if_pair, copied, copied-Reaches, at_work,
  copying-Reaches,
}

module _ {C : Codec} {E : Engine} {S : Store} (U : Urls) (lctx : ListenerCtx E)
    (client : Client) where
  -- From Put on.
  after_put-Reaches :
      (u : U.Url) (resp : Response) (x : Result S.Blob) (s : S.State) (v w : Reply)
      (site : Site C E S)
      → Reaches U lctx client
          (after_put u resp x v, record site { blobs = s })
          (outcome U lctx client (
            fetched U lctx client
              (closing U lctx.headers_to_cache resp.body
                (save_into U lctx.headers_to_cache u resp (x, s) site (some v)))
              w))
  unfolding alone after_put save_into closed copy_body
  after_put-Reaches u resp (err e) s v w site = (0, refl)
  after_put-Reaches u resp (ok b) s v w site =
      let (r, c) =
        copy_chunks (write_reply S) (write_blob S ∷ []) resp.body.chunks resp.body.broken
          (at_work S v b s) in
      copying-Reaches U lctx client u resp resp.body.chunks v b s site _ (λ v' e.
        let same : c ≡ at_work S v' c.blob c.state =
          λ i. record { reply = e i; blob = c.blob; state = c.state } in
        subst
          (λ (x : Copying S).
            Reaches U lctx client (copied u resp r v' x.blob, record site { blobs = x.state })
              (outcome U lctx client (
                fetched U lctx client
                  (closing U lctx.headers_to_cache resp.body (
                    cleaned U lctx.headers_to_cache (
                      commit_copied U lctx.headers_to_cache u resp.headers
                        (wrap_err "error copying response via tee" r, x) site.assets site.place)))
                  w)))
          (sym same) (copied-Reaches U lctx client u resp r v' w c.blob c.state site))

  -- The response is there.
  answering-Reaches :
      (u : U.Url) (resp : Response) (v w : Reply) (site : Site C E S)
      → Reaches U lctx client
          (answering u resp v, site)
          (outcome U lctx client (
            fetched U lctx client
              (closing U lctx.headers_to_cache resp.body
                (save_response U lctx.headers_to_cache u resp site (some v)))
              w))
  unfolding alone step save_response copy_out closed
  answering-Reaches u resp v w site =
      let skip = skip_save U site.assets u || not (resp.status_code == status_ok) in
      elim (Bool-cases skip) [
        | inl e ↦ (1, rw (e, step, save_response) refl)
        | inr e ↦ next U lctx client (answering u resp v) site _ (
            rw (e, step, save_response)
              (after_put-Reaches u resp (S.put site.blobs).0 (S.put site.blobs).1 v w site))
      ]

  after_response-Reaches :
      (u : U.Url) (y : Result Response) (w : Reply) (site : Site C E S)
      → Reaches U lctx client
          (after_response u y w, site)
          (outcome U lctx client
            (fetched U lctx client (responded U lctx.headers_to_cache u y site (some w)) w))
  unfolding alone after_response responded
  after_response-Reaches u (err e) w site = (0, refl)
  after_response-Reaches u (ok resp) w site =
      answering-Reaches u resp (write_header resp.status_code (add_headers resp.headers w)) w site

  after_request-Reaches :
      (r : Request) (u : U.Url) (x : Result (Unit {0})) (w : Reply) (site : Site C E S)
      → Reaches U lctx client
          (after_request client r u x w, site)
          (outcome U lctx client (
            fetched U lctx client
              (requested U lctx.headers_to_cache client r.method u x (ok r.headers) site (some w))
              w))
  unfolding alone after_request requested
  after_request-Reaches r u (err e) w site = (0, refl)
  after_request-Reaches r u (ok _) w site =
      after_response-Reaches u (client.send r.method (U.to_string u) r.headers) w site

  asking-Reaches :
      (r : Request) (u : U.Url) (w : Reply) (site : Site C E S)
      → Reaches U lctx client
          (asking r u w, site)
          (outcome U lctx client (
            fetched U lctx client
              (fetch_and_save_blob U lctx.headers_to_cache client r.method u
                (ok r.headers)
                site
                (some w))
              w))
  unfolding step fetch_and_save_blob
  asking-Reaches r u w site =
      next U lctx client (asking r u w) site _
        (after_request-Reaches r u (client.new_request r.method (U.to_string u)) w site)

  after_lookup-Reaches :
      (r : Request) (u : U.Url) (x : Result (Option BlobInfo)) (f : File E) (p : Place C)
      (s : S.State) (w : Reply)
      → let site : Site C E S = record { assets = f; place = p; blobs = s } in
        Reaches U lctx client
          (after_lookup lctx r u x w, site)
          (outcome U lctx client (looked_up U lctx client r u (x, f, p) s w))
  unfolding alone step after_lookup looked_up
  after_lookup-Reaches r u (err e) f p s w = (0, refl)
  after_lookup-Reaches r u (ok (some bi)) f p s w = (1, refl)
  after_lookup-Reaches r u (ok none) f p s w =
      let site : Site C E S = record { assets = f; place = p; blobs = s } in
      let Q : Handler S U → Handled C E S → Type 0 =
        λ h m. Reaches U lctx client (h, site) (outcome U lctx client m) in
      let missing : Result (Unit {0}) =
        err (message "missing logic path - should not have gotten here") in
      let page = http_error "missing asset" status_not_found w in
      let refused : Handler S U =
        if lctx.fail_if_missing then returned (ok tt) page 1 else returned missing w 1 in
      let o =
        fetch_and_save_blob U lctx.headers_to_cache client r.method u (ok r.headers) site
          (some w) in
      if_pair Q lctx.fetch_if_missing (asking r u w) refused (fetched U lctx client o w)
        (unfetched U lctx client f p s w) (asking-Reaches r u w site)
        (if_pair Q lctx.fail_if_missing (returned (ok tt) page 1) (returned missing w 1)
          (record { result = ok tt; site = site; reply = page; missing = 1 })
          (record { result = missing; site = site; reply = w; missing = 1 }) (0, refl) (0, refl))

  -- A handler of which no step is interrupted by another handler ends, after some number of its
  -- steps, with the result, the reply, the count of missing assets and the site that `handler`
  -- gives as one function, whatever the request, the upstream's answer and the failures are.
  pub alone-handler :
      (r : Request) (w : Reply) (site : Site C E S)
      → let h = handler U lctx client r site w in
        (n : ℕ) × (alone U lctx client n (arrived r w, site)
          ≡ (ended h.result h.reply h.missing, h.site))
  unfolding step handler handle_main_server_request alone
  alone-handler r w site =
      let u = extract_req_from_url U r in
      let (x, f, p) = get_blob U u site.assets site.place in
      let (n, e) : Reaches U lctx client (arrived r w, site)
          (outcome U lctx client (handle_main_server_request U lctx client r site w)) =
        elim (Bool-cases (matches E lctx.dummy_ok (U.redacted u))) [
          | inl dummy ↦
              next U lctx client (arrived r w) site _
                (rw (dummy, step, handle_main_server_request) (0, refl))
          | inr real ↦ next U lctx client (arrived r w) site _ (
              rw (real, step, handle_main_server_request)
                (after_lookup-Reaches r u x f p site.blobs w))
        ] in
      (n, e ∙ outcome_lem U lctx client (handle_main_server_request U lctx client r site w))
