-- ===== src/Listener/Concurrent.antt =====
-- Handlers that run at the same time (flags_listener.go): what each does between two points at which
-- another may run. A call of the manifest or of the store, and a round of io.Copy, is one step.

pub mod Invariant
pub mod Steps
pub mod Writing
pub mod Interleaved
pub mod Uninterrupted
pub mod Alone
pub mod Kept
use htvend.Base.{ℕ, ◌==◌, ◌||◌, ◌<>◌, String, not, Option, none, some, List, [], ◌∷◌, nat_eq}
use htvend.Base.{Bytes, if◌then◌else◌}
use htvend.Base.Error.{message, wrap, Result, ok, err, defer_error, wrap_err}
use htvend.Stream.{copy_one}
use htvend.Lockfile.{BlobInfo, Codec, Urls}
use htvend.Lockfile.Ops.{get_blob, skip_save}
use htvend.Re.{Engine, matches}
use htvend.Blobstore.{Store}
use htvend.Listener.{
  Request, Response, Client, Site, ListenerCtx, status_ok, status_not_found,
  status_internal_server_error, extract_req_from_url,
}
use htvend.Listener.Reply.{Reply, write_header, write_body, http_error, add_headers}
use htvend.Listener.Fetch.{Copying, write_reply, write_blob, copy_out, recorded}
use htvend.Listener.Handle.{serve_found_blob}

-- Where a handler stands. `found` has its entry; `asking` has none and goes upstream; from
-- `answering` on the response is there; `copying` has these chunks left; `ended` has returned.
pub data Handler (S : Store) (U : Urls) : Type 0 where
  arrived : Request → Reply → Handler S U
  found : BlobInfo → Reply → Handler S U
  asking : Request → U.Url → Reply → Handler S U
  answering : U.Url → Response → Reply → Handler S U
  copying : U.Url → Response → List Bytes → S.Blob → Reply → Handler S U
  committing : U.Url → Response → S.Blob → Reply → Handler S U
  recording : U.Url → Response → Result Bytes → S.Blob → Reply → Handler S U
  cleaning : Response → Result (Unit {0}) → S.Blob → Reply → Handler S U
  ended : Result (Unit {0}) → Reply → ℕ → Handler S U

abbrev pub client_of : Reply → Option Reply → Reply
client_of w none = w
client_of w (some w') = w'

module _ {S : Store} {U : Urls} where
  -- The handler's return, which answers 500 to an error.
  unfoldable pub returned : Result (Unit {0}) → Reply → ℕ → Handler S U
  returned (ok _) w missing = ended (ok tt) w missing
  returned (err e) w missing =
      ended (err e) (http_error "see proxy server log for details" status_internal_server_error w)
        missing

  -- The deferred Close of the response.
  unfoldable pub closed : Response → Result (Unit {0}) → Reply → Handler S U
  unfolding returned
  closed resp r w =
      returned (defer_error r (wrap_err "error closing response" resp.body.closing)) w 1

  unfoldable pub after_response : U.Url → Result Response → Reply → Handler S U
  unfolding returned
  after_response u (err e) w =
      returned (err (wrap ("error performing request (" <> U.to_string u <> ")") e)) w 1
  after_response u (ok resp) w =
      answering u resp (write_header resp.status_code (add_headers resp.headers w))

  unfoldable pub after_put : U.Url → Response → Result S.Blob → Reply → Handler S U
  unfolding closed
  after_put u resp (err e) w = closed resp (err (wrap "error creating caf to put" e)) w
  after_put u resp (ok b) w = copying u resp resp.body.chunks b w

  unfoldable pub after_round :
      U.Url → Response → List Bytes → Reply → Result (Unit {0}) → Copying S → Handler S U
  after_round u resp ps w (ok _) c = copying u resp ps c.blob (client_of w c.reply)
  after_round u resp ps w (err x) c =
      cleaning resp (err (wrap "error copying response via tee" x)) c.blob (client_of w c.reply)

module _ {E : Engine} {S : Store} {U : Urls} (lctx : ListenerCtx E) where
  unfoldable pub after_lookup : Request → U.Url → Result (Option BlobInfo) → Reply → Handler S U
  unfolding returned
  after_lookup r u (err e) w = returned (err (wrap "error looking up asset" e)) w 0
  after_lookup r u (ok (some bi)) w = found bi w
  after_lookup r u (ok none) w =
      if lctx.fetch_if_missing
      then asking r u w
      else if lctx.fail_if_missing
      then returned (ok tt) (http_error "missing asset" status_not_found w) 1
      else returned (err (message "missing logic path - should not have gotten here")) w 1

module _ {S : Store} {U : Urls} (client : Client) where
  unfoldable pub after_request : Request → U.Url → Result (Unit {0}) → Reply → Handler S U
  unfolding returned after_response
  after_request r u (err e) w = returned (err (wrap "error making request object" e)) w 1
  after_request r u (ok _) w = after_response u (client.send r.method (U.to_string u) r.headers) w

module _ {C : Codec} {E : Engine} {S : Store} (U : Urls) (lctx : ListenerCtx E)
    (client : Client) where
  -- One step of a handler.
  unfoldable pub step : Handler S U → Site C E S → Handler S U × Site C E S
  unfolding returned closed after_lookup after_request after_put after_round
  step (arrived r w) site =
      let u = extract_req_from_url U r in
      if matches E lctx.dummy_ok (U.redacted u)
      then (returned (ok tt) (write_header status_ok w) 0, site)
      else (let (x, f, p) = get_blob U u site.assets site.place in
          (after_lookup lctx r u x w, record site { assets = f; place = p }))
  step (found bi w) site =
      let (x, s, w') = serve_found_blob S bi site.blobs w in
      (returned x w' 0, record site { blobs = s })
  step (asking r u w) site =
      (after_request client r u (client.new_request r.method (U.to_string u)) w, site)
  step (answering u resp w) site =
      if skip_save U site.assets u || not (resp.status_code == status_ok)
      then (let (r, w') = copy_out S resp.body (some w) in (closed resp r (client_of w w'), site))
      else (let (r, s) = S.put site.blobs in (after_put u resp r w, record site { blobs = s }))
  step (copying u resp [] b w) site = elim resp.body.broken [
    | none ↦ (committing u resp b w, site)
    | some x ↦ (cleaning resp (err (wrap "error copying response via tee" x)) b w, site)
  ]
  step (copying u resp (p ∷ ps) b w) site =
      let c : Copying S = record { reply = some w; blob = b; state = site.blobs } in
      let (r, c') = copy_one (write_reply S) (write_blob S ∷ []) p c in
      (after_round u resp ps w r c', record site { blobs = c'.state })
  step (committing u resp b w) site =
      let (d, b', s) = S.commit b site.blobs in (recording u resp d b' w, record site { blobs = s })
  step (recording u resp d b w) site =
      let (r, f, p) = recorded U lctx.headers_to_cache u resp.headers d site.assets site.place in
      (cleaning resp r b w, record site { assets = f; place = p })
  step (cleaning resp r b w) site =
      let (x, b', s) = S.cleanup b site.blobs in
      (closed resp (defer_error r x) w, record site { blobs = s })
  step (ended r w missing) site = (ended r w missing, site)

-- All handlers, by number, and the site that they share.
pub record Proxied (C : Codec) (E : Engine) (S : Store) (U : Urls) : Type 0 where
  pub site : Site C E S
  pub handlers : ℕ → Handler S U

module _ {C : Codec} {E : Engine} {S : Store} (U : Urls) (lctx : ListenerCtx E)
    (client : Client) where
  -- Handler i makes one step.
  unfoldable pub turn : ℕ → Proxied C E S U → Proxied C E S U
  turn i p =
      let (h, site) = step U lctx client (p.handlers i) p.site in
      record { site = site; handlers = λ j. if j == i then h else p.handlers j }

  -- The handlers make steps in the given order.
  unfoldable pub interleaved : List ℕ → Proxied C E S U → Proxied C E S U
  interleaved [] p = p
  interleaved (i ∷ is) p = interleaved is (turn i p)
