-- ===== src/Listener/Fetch.antt =====
-- fetchAndSaveBlob: the request goes upstream; a cacheable answer is copied to the client and to a
-- new blob at once, committed, and recorded in the manifest.
use htvend.Base.{◌==◌, ◌<>◌, String, not, ◌||◌, Option, none, some, List, [], ◌∷◌}
use htvend.Base.{Bytes, nat_eq, if◌then◌else◌}
use htvend.Base.Hex.{encode}
use htvend.Base.Error.{message, wrap, Result, ok, err, defer_error, wrap_err}
use htvend.Stream.{Reader, Writer, io_copy}
use htvend.Lockfile.{BlobInfo, Codec, File, Place, Urls}
use htvend.Lockfile.Ops.{skip_save, add_blob}
use htvend.Re.{Engine}
use htvend.Blobstore.{Store}
use htvend.Listener.{Headers, Response, Client, Site, status_ok, filter_headers}
use htvend.Listener.Reply.{Reply, write_header, write_body, add_headers}

module _ (S : Store) where
  -- What a copy of the answer's body works on: the client, if there is one, and the blob.
  pub record Copying : Type 0 where
    pub reply : Option Reply
    pub blob : S.Blob
    pub state : S.State

  unfoldable pub write_reply : Writer Copying
  write_reply p c = elim c.reply [
    | none ↦ ((0, some (message "no client")), c)
    | some w ↦ let (r, w') = write_body p w in (r, record c { reply = some w' })
  ]

  unfoldable pub write_blob : Writer Copying
  write_blob p c = let (r, b, s) = S.write p c.blob c.state in (r, record c { blob = b; state = s })

  -- io.Copy(w, io.TeeReader(resp.Body, caf)), or io.Copy(caf, resp.Body) without a client
  unfoldable pub copy_body : Reader → Copying → Result (Unit {0}) × Copying
  copy_body body c = elim c.reply [
    | none ↦
        let (r, c') = io_copy write_blob [] body c in
        (wrap_err "error copying response direct to CAF" r, c')
    | some _ ↦
        let (r, c') = io_copy write_reply (write_blob ∷ []) body c in
        (wrap_err "error copying response via tee" r, c')
  ]

  -- io.Copy(w, resp.Body)
  unfoldable pub copy_out : Reader → Option Reply → Result (Unit {0}) × Option Reply
  copy_out body none = (ok tt, none)
  copy_out body (some w) = let (r, w') = io_copy write_body [] body w in (r, some w')

module _ {C : Codec} {E : Engine} (U : Urls) (headers_to_cache : List String) where
  -- From caf.Commit on: the digest is recorded in the manifest.
  unfoldable pub recorded :
      U.Url → Headers → Result Bytes → File E → Place C → Result (Unit {0}) × File E × Place C
  recorded u header (err e) f p =
      (err (wrap ("error committing blob (url " <> U.redacted u <> ")") e), f, p)
  recorded u header (ok digest) f p =
      let info : BlobInfo = record {
        sha256 = encode digest;
        headers = filter_headers headers_to_cache header;
      } in
      let (r, f', p') = add_blob U u info f p in (wrap_err "error updating asset file" r, f', p')

abbrev pub answered : Response → Option Reply → Option Reply
answered resp none = none
answered resp (some w) = some (write_header resp.status_code (add_headers resp.headers w))

module _ {C : Codec} {E : Engine} {S : Store} (U : Urls) (headers_to_cache : List String) where
  unfoldable pub commit_copied :
      U.Url
      → Headers
      → Result (Unit {0}) × Copying S
      → File E
      → Place C
      → Result (Unit {0}) × Copying S × File E × Place C
  commit_copied u header (err e, c) f p = (err e, c, f, p)
  commit_copied u header (ok _, c) f p =
      let (d, b, s) = S.commit c.blob c.state in
      let (r, f', p') = recorded U headers_to_cache u header d f p in
      (r, record c { blob = b; state = s }, f', p')

  -- The deferred caf.Cleanup().
  abbrev pub cleaned :
      Result (Unit {0}) × Copying S × File E × Place C
      → Result (Unit {0}) × Site C E S × Option Reply
  cleaned (r, c, f, p) =
      let (x, b, s) = S.cleanup c.blob c.state in
      (defer_error r x, record { assets = f; place = p; blobs = s }, c.reply)

  unfoldable pub save_into :
      U.Url
      → Response
      → Result S.Blob × S.State
      → Site C E S
      → Option Reply
      → Result (Unit {0}) × Site C E S × Option Reply
  save_into u resp (err e, s) site w =
      (err (wrap "error creating caf to put" e), record site { blobs = s }, w)
  save_into u resp (ok b, s) site w =
      let c : Copying S = record { reply = w; blob = b; state = s } in
      cleaned (commit_copied u resp.headers (copy_body S resp.body c) site.assets site.place)

  -- The body of the function once the response is there, but the deferred Close.
  unfoldable pub save_response :
      U.Url → Response → Site C E S → Option Reply → Result (Unit {0}) × Site C E S × Option Reply
  unfolding save_into
  save_response u resp site w =
      if skip_save U site.assets u || not (resp.status_code == status_ok)
      then (let (r, w') = copy_out S resp.body w in (r, site, w'))
      else save_into u resp (S.put site.blobs) site w

  abbrev pub closing :
      Reader
      → Result (Unit {0}) × Site C E S × Option Reply
      → Result (Unit {0}) × Site C E S × Option Reply
  closing body (r, site, w) =
      (defer_error r (wrap_err "error closing response" body.closing), site, w)

  unfoldable pub responded :
      U.Url
      → Result Response
      → Site C E S
      → Option Reply
      → Result (Unit {0}) × Site C E S × Option Reply
  responded u (err e) site w =
      (err (wrap ("error performing request (" <> U.to_string u <> ")") e), site, w)
  responded u (ok resp) site w = closing resp.body (save_response u resp site (answered resp w))

  -- From the outcomes of http.NewRequest and of `preprocess` on
  unfoldable pub requested :
      Client
      → String
      → U.Url
      → Result (Unit {0})
      → Result Headers
      → Site C E S
      → Option Reply
      → Result (Unit {0}) × Site C E S × Option Reply
  requested client method u (err e) preprocess site w =
      (err (wrap "error making request object" e), site, w)
  requested client method u (ok _) (err e) site w =
      (err (wrap ("error preprocessing request (" <> U.to_string u <> ")") e), site, w)
  requested client method u (ok _) (ok headers) site w =
      responded u (client.send method (U.to_string u) headers) site w

  -- fetchAndSaveBlob. `preprocess` gives the headers of the new request.
  unfoldable pub fetch_and_save_blob :
      Client
      → String
      → U.Url
      → Result Headers
      → Site C E S
      → Option Reply
      → Result (Unit {0}) × Site C E S × Option Reply
  unfolding requested responded
  fetch_and_save_blob client method u preprocess site w =
      requested client method u (client.new_request method (U.to_string u)) preprocess site w
