-- ===== src/Listener/Handle.antt =====
-- handleMainServerRequest and serveFoundBlob, and the handler that answers 500 on an error.
use htvend.Base.{Option, none, some, [], ℕ}
use htvend.Base.{if◌then◌else◌}
use htvend.Base.Hex.{decode}
use htvend.Base.Error.{message, wrap, Result, ok, err, defer_error}
use htvend.Stream.{Reader, io_copy}
use htvend.Lockfile.{BlobInfo, Codec, File, Place, Urls}
use htvend.Lockfile.Ops.{get_blob}
use htvend.Re.{Engine, matches}
use htvend.Blobstore.{Store}
use htvend.Listener.{
  Request, Client, Site, ListenerCtx, status_ok, status_not_found, status_internal_server_error,
  extract_req_from_url,
}
use htvend.Listener.Reply.{Reply, write_header, write_body, http_error, set_headers}
use htvend.Listener.Fetch.{fetch_and_save_blob}

-- What is left of a handler's call: its error, the site, the answer, and by how much the counter of
-- missing assets has grown.
pub record Handled (C : Codec) (E : Engine) (S : Store) : Type 0 where
  pub result : Result (Unit {0})
  pub site : Site C E S
  pub reply : Reply
  pub missing : ℕ

-- The reply to an error of a handler.
abbrev pub with_error_page : {C : Codec} {E : Engine} {S : Store} → Handled C E S → Handled C E S
with_error_page h = elim h.result [
  | ok _ ↦ h
  | err _ ↦ record h {
    reply = http_error "see proxy server log for details" status_internal_server_error h.reply;
  }
]

unfoldable pub served : BlobInfo → Result Reader → Reply → Result (Unit {0}) × Reply
served bi (err e) w = (err (wrap "error opening blob" e), w)
served bi (ok br) w =
    let (r, w') = io_copy write_body [] br (set_headers bi.headers w) in
    (defer_error r br.closing, w')

module _ (S : Store) where
  -- serveFoundBlob
  unfoldable pub serve_found_blob : BlobInfo → S.State → Reply → Result (Unit {0}) × S.State × Reply
  unfolding served
  serve_found_blob bi s w = elim (decode bi.sha256) [
    | none ↦ (err (message "bad hex key"), s, w)
    | some k ↦ let (r, s') = S.get k s in let (x, w') = served bi r w in (x, s', w')
  ]

module _ {C : Codec} {E : Engine} {S : Store} (U : Urls) (lctx : ListenerCtx E)
    (client : Client) where
  abbrev pub fetched : Result (Unit {0}) × Site C E S × Option Reply → Reply → Handled C E S
  fetched (r, site, some w') w = record { result = r; site = site; reply = w'; missing = 1 }
  fetched (r, site, none) w = record { result = r; site = site; reply = w; missing = 1 }

  -- A blob that is missing and is not fetched.
  abbrev pub unfetched : File E → Place C → S.State → Reply → Handled C E S
  unfetched f p s w =
      let site : Site C E S = record { assets = f; place = p; blobs = s } in
      if lctx.fail_if_missing
      then record {
        result = ok tt;
        site = site;
        reply = http_error "missing asset" status_not_found w;
        missing = 1;
      }
      else record {
        result = err (message "missing logic path - should not have gotten here");
        site = site;
        reply = w;
        missing = 1;
      }

  -- What follows GetBlob.
  unfoldable pub looked_up :
      Request
      → U.Url
      → Result (Option BlobInfo) × File E × Place C
      → S.State
      → Reply
      → Handled C E S
  looked_up r u (err e, f, p) s w = record {
    result = err (wrap "error looking up asset" e);
    site = record { assets = f; place = p; blobs = s };
    reply = w;
    missing = 0;
  }
  looked_up r u (ok (some bi), f, p) s w =
      let (x, s', w') = serve_found_blob S bi s w in
      record {
        result = x;
        site = record { assets = f; place = p; blobs = s' };
        reply = w';
        missing = 0;
      }
  looked_up r u (ok none, f, p) s w =
      let site : Site C E S = record { assets = f; place = p; blobs = s } in
      if lctx.fetch_if_missing
      then fetched
          (fetch_and_save_blob U lctx.headers_to_cache client r.method u (ok r.headers) site
            (some w))
          w
      else unfetched f p s w

  -- handleMainServerRequest
  unfoldable pub handle_main_server_request : Request → Site C E S → Reply → Handled C E S
  unfolding looked_up
  handle_main_server_request r site w =
      let u = extract_req_from_url U r in
      if matches E lctx.dummy_ok (U.redacted u)
      then record { result = ok tt; site = site; reply = write_header status_ok w; missing = 0 }
      else looked_up r u (get_blob U u site.assets site.place) site.blobs w

  -- The Handler of RunListenerWithSubprocess.
  unfoldable pub handler : Request → Site C E S → Reply → Handled C E S
  handler r site w = with_error_page (handle_main_server_request r site w)
