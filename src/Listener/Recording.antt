-- ===== src/Listener/Recording.antt =====
-- A request that was fetched and saved, and the same URL asked again.
use htvend.Base.{◌≡◌, refl, ap, ◌∙◌, ◌==◌, String, true, false, Option, none, some, List, [], arith}
use htvend.Base.{Bytes, concat, string_eq, list_eq, nat_eq, ==_refl}
use htvend.Base.Dict.{lookup}
use htvend.Base.Hex.{encode}
use htvend.Base.Error.{wrap_err, Result, ok, err, defer_error_ok}
use htvend.Platform.{Platform, IsPlatform}
use htvend.Lockfile.{BlobInfo, Codec, File, Place, Urls}
use htvend.Lockfile.Ops.{skip_save}
use htvend.Lockfile.Laws.{lookup-add_blob, add_blob-options}
use htvend.Re.{Engine, matches}
use htvend.Blobstore.{Store, IsLawful}
use htvend.Blobstore.Growth.{Grows-same}
use htvend.Listener.{Response, Client, Site, Headers, filter_headers, status_ok}
use htvend.Listener.Reply.{Reply}
use htvend.Listener.Fetch.{
  Copying, copy_body, recorded, commit_copied, cleaned, answered, save_into, save_response,
  responded, requested, fetch_and_save_blob,
}
use htvend.Listener.Copied.{copy_body-IsCopying, copy_body-Holds}

-- The manifest has the digest of the bytes and the headers for the URL, which it may save, and the
-- store has the bytes.
pub record IsSaved {P : Platform} {S : Store} (L : IsLawful P S) {E : Engine} (U : Urls)
    (headers_to_cache : List String) (u : U.Url) (header : Headers) (c : Bytes) (f : File E)
    (s : S.State) : Type 0 where
  pub entry :
      lookup (U.redacted u) f.blobs
      ≡ some (record {
        sha256 = encode (P.sha256 c);
        headers = filter_headers headers_to_cache header;
      })
  pub held : L.view s (P.sha256 c) ≡ some c
  pub cacheable : matches E f.options.no_cache (U.redacted u) ≡ false

module _ {P : Platform} (LP : IsPlatform P) {S : Store} (L : IsLawful P S) {C : Codec} {E : Engine}
    (U : Urls) (headers_to_cache : List String) where
  recorded_ok :
      (u : U.Url) (header : Headers) (d : Result Bytes) (f : File E) (p : Place C)
      → lookup (U.redacted u) f.blobs ≡ none
      → matches E f.options.no_cache (U.redacted u) ≡ false
      → (recorded U headers_to_cache u header d f p).0 ≡ ok tt
      → (k : Bytes) × (d ≡ ok k)
        × (lookup (U.redacted u) (recorded U headers_to_cache u header d f p).1.blobs
            ≡ some (record { sha256 = encode k; headers = filter_headers headers_to_cache header }))
        × (matches E (recorded U headers_to_cache u header d f p).1.options.no_cache (U.redacted u)
            ≡ false)
  unfolding recorded
  recorded_ok u header (err e) f p fresh cache h = absurd (cc)
  recorded_ok u header (ok k) f p fresh cache h =
      let info : BlobInfo = record {
        sha256 = encode k;
        headers = filter_headers headers_to_cache header;
      } in
      let e = lookup-add_blob U u (U.redacted u) info f p in
      (
        k,
        refl,
        rw (cache, fresh, ==_refl) at e,
        ap (λ o. matches E o.no_cache (U.redacted u)) (add_blob-options U u info f p) ∙ cache,
      )

  commit_copied-IsSaved :
      (u : U.Url) (header : Headers) (r : Result (Unit {0})) (c : Copying S) (f : File E)
      (p : Place C) (b : Bytes)
      → lookup (U.redacted u) f.blobs ≡ none
      → matches E f.options.no_cache (U.redacted u) ≡ false
      → L.IsLive c.blob
      → (r ≡ ok tt → L.Holds c.blob c.state b)
      → (commit_copied U headers_to_cache u header (r, c) f p).0 ≡ ok tt
      → IsSaved L U headers_to_cache u header b
          (commit_copied U headers_to_cache u header (r, c) f p).2
          (commit_copied U headers_to_cache u header (r, c) f p).1.state
  unfolding commit_copied
  commit_copied-IsSaved u header (err e) c f p b fresh cache live held h = absurd (cc)
  commit_copied-IsSaved u header (ok _) c f p b fresh cache live held h =
      let (k, committed, entry, cacheable) =
        recorded_ok u header (S.commit c.blob c.state).0 f p fresh cache h in
      let bytes = LP.sha256_bytes b in
      let (digest, view) =
        L.commit_ok c.blob c.state b k (P.sha256 b) bytes live (held refl) committed in
      record {
        entry = rw digest at entry;
        held = rw (digest, ==_refl) at view;
        cacheable = cacheable;
      }

  commit_copied-IsLive :
      (u : U.Url) (header : Headers) (r : Result (Unit {0})) (c : Copying S) (f : File E)
      (p : Place C)
      → L.IsLive c.blob
      → L.IsLive (commit_copied U headers_to_cache u header (r, c) f p).1.blob
  unfolding commit_copied
  commit_copied-IsLive u header (err e) c f p live = live
  commit_copied-IsLive u header (ok _) c f p live = L.commit_live c.blob c.state live

  cleaned-IsSaved :
      (u : U.Url) (header : Headers) (o : Result (Unit {0}) × Copying S × File E × Place C)
      (c : Bytes)
      → L.IsLive o.1.blob
      → (o.0 ≡ ok tt → IsSaved L U headers_to_cache u header c o.2 o.1.state)
      → (cleaned U headers_to_cache o).0 ≡ ok tt
      → IsSaved L U headers_to_cache u header c
          (cleaned U headers_to_cache o).1.assets
          (cleaned U headers_to_cache o).1.blobs
  cleaned-IsSaved u header o c live saved h =
      let k = saved (defer_error_ok o.0 (S.cleanup o.1.blob o.1.state).0 h) in
      record {
        entry = k.entry;
        held = L.view-cleanup o.1.blob o.1.state (P.sha256 c) (LP.sha256_bytes c) live ∙ k.held;
        cacheable = k.cacheable;
      }

  save_into-IsSaved :
      (u : U.Url) (resp : Response) (x : Result S.Blob) (s : S.State) (site : Site C E S)
      (w : Option Reply)
      → lookup (U.redacted u) site.assets.blobs ≡ none
      → matches E site.assets.options.no_cache (U.redacted u) ≡ false
      → ((b : S.Blob) → x ≡ ok b → L.IsLive b × L.Holds b s [])
      → (save_into U headers_to_cache u resp (x, s) site w).0 ≡ ok tt
      → let site' = (save_into U headers_to_cache u resp (x, s) site w).1 in
        IsSaved L U headers_to_cache u resp.headers
          (concat resp.body.chunks)
          site'.assets
          site'.blobs
  unfolding save_into
  save_into-IsSaved u resp (err e) s site w fresh cache new h = absurd (cc)
  save_into-IsSaved u resp (ok b) s site w fresh cache new h =
      let (live, held) = new b refl in
      let c0 : Copying S = record { reply = w; blob = b; state = s } in
      let (r, c) = copy_body S resp.body c0 in
      let k =
        copy_body-IsCopying L s resp.body c0
          (record { live = live; grown = Grows-same L s s (λ j _. refl) }) in
      cleaned-IsSaved u resp.headers
        (commit_copied U headers_to_cache u resp.headers (copy_body S resp.body c0) site.assets
          site.place)
        (concat resp.body.chunks)
        (commit_copied-IsLive u resp.headers r c site.assets site.place k.live)
        (commit_copied-IsSaved u resp.headers r c site.assets site.place (concat resp.body.chunks)
          fresh cache k.live (λ e. (copy_body-Holds L resp.body [] c0 held e).0))
        h

  save_response-save_into :
      (u : U.Url) (resp : Response) (site : Site C E S) (w : Option Reply)
      → matches E site.assets.options.no_cache (U.redacted u) ≡ false
      → (resp.status_code == status_ok) ≡ true
      → save_response U headers_to_cache u resp site w
        ≡ save_into U headers_to_cache u resp (S.put site.blobs) site w
  unfolding save_response skip_save
  save_response-save_into u resp site w cache fine = rw (cache, fine) refl

  responded-IsSaved :
      (u : U.Url) (resp : Response) (site : Site C E S) (w : Option Reply)
      → lookup (U.redacted u) site.assets.blobs ≡ none
      → matches E site.assets.options.no_cache (U.redacted u) ≡ false
      → (resp.status_code == status_ok) ≡ true
      → (responded U headers_to_cache u (ok resp) site w).0 ≡ ok tt
      → let site' = (responded U headers_to_cache u (ok resp) site w).1 in
        IsSaved L U headers_to_cache u resp.headers
          (concat resp.body.chunks)
          site'.assets
          site'.blobs
  unfolding responded
  responded-IsSaved u resp site w fresh cache fine h =
      let same = save_response-save_into u resp site (answered resp w) cache fine in
      let done =
        defer_error_ok (save_response U headers_to_cache u resp site (answered resp w)).0
          (wrap_err "error closing response" resp.body.closing) h in
      let k =
        save_into-IsSaved u resp (S.put site.blobs).0 (S.put site.blobs).1 site (answered resp w)
          fresh cache (λ b e. L.put_live site.blobs b e) (rw same at done) in
      rw same k

  requested-IsSaved :
      (client : Client) (method : String) (u : U.Url) (header : Headers) (resp : Response)
      (r : Result (Unit {0})) (site : Site C E S) (w : Option Reply)
      → lookup (U.redacted u) site.assets.blobs ≡ none
      → matches E site.assets.options.no_cache (U.redacted u) ≡ false
      → client.send method (U.to_string u) header ≡ ok resp
      → (resp.status_code == status_ok) ≡ true
      → (requested U headers_to_cache client method u r (ok header) site w).0 ≡ ok tt
      → let site' = (requested U headers_to_cache client method u r (ok header) site w).1 in
        IsSaved L U headers_to_cache u resp.headers
          (concat resp.body.chunks)
          site'.assets
          site'.blobs
  unfolding requested
  requested-IsSaved client method u header resp (err e) site w fresh cache sent fine h =
      absurd (ground arith)
  requested-IsSaved client method u header resp (ok _) site w fresh cache sent fine h =
      rw sent (responded-IsSaved u resp site w fresh cache fine (rw sent at h))

  -- For a cacheable URL that the manifest does not have: if fetchAndSaveBlob returns nil and the
  -- upstream has answered 200, then the manifest has the SHA-256 of the answer's body, in hex, and
  -- its wanted headers for the URL, the URL is still no URL of the no-cache list, and the store holds the whole body under that digest.
  pub fetch_and_save_blob-IsSaved :
      (client : Client) (method : String) (u : U.Url) (header : Headers) (resp : Response)
      (site : Site C E S) (w : Option Reply)
      → lookup (U.redacted u) site.assets.blobs ≡ none
      → matches E site.assets.options.no_cache (U.redacted u) ≡ false
      → client.send method (U.to_string u) header ≡ ok resp
      → (resp.status_code == status_ok) ≡ true
      → (fetch_and_save_blob U headers_to_cache client method u (ok header) site w).0 ≡ ok tt
      → let site' = (fetch_and_save_blob U headers_to_cache client method u (ok header) site w).1 in
        IsSaved L U headers_to_cache u resp.headers
          (concat resp.body.chunks)
          site'.assets
          site'.blobs
  unfolding fetch_and_save_blob
  fetch_and_save_blob-IsSaved client method u header resp site w fresh cache sent fine h =
      requested-IsSaved client method u header resp (client.new_request method (U.to_string u)) site
        w fresh cache sent fine h
