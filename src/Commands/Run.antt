-- ===== src/Commands/Run.antt =====
-- cli/internal/htvend/command_build.go and command_offline.go: Execute, for any way in which the proxy
-- serves a build's requests, and with the requests one after the other.
use htvend.Base.{String, Bool, true, false, Option, none, some, List, [], ◌∷◌}
use htvend.Base.Error.{wrap, Result, ok, err, defer_error}
use htvend.Re.{Engine, new_multi_regex_matcher, MultiRegexMatcher}
use htvend.Lockfile.{Codec, File, Place, Outcome, returns, panics, Urls}
use htvend.Lockfile.Ops.{close, reset}
use htvend.Blobstore.{Store}
use htvend.Listener.{Request, Client, Site, ListenerCtx}
use htvend.Listener.Reply.{Reply}
use htvend.Listener.Handle.{handler}
use htvend.Commands.{
  ManifestOptions, FetchOptions, Surroundings, Backend, make_blob_store, cache_header_map,
  make_manifest_file,
}

-- What proxyserver.ServeUntilDone does with a handler: the requests that it gets, with the replies
-- that they write to, and what it returns in the end.
pub record Traffic : Type 0 where
  pub requests : List (Request × Reply)
  pub ended : Result (Unit {0})

module _ {C : Codec} {E : Engine} {S : Store} (U : Urls) (lctx : ListenerCtx E)
    (client : Client) where
  unfoldable pub serve_all : List (Request × Reply) → Site C E S → Site C E S
  serve_all [] site = site
  serve_all ((r, w) ∷ rs) site = serve_all rs (handler U lctx client r site w).site

  -- RunListenerWithSubprocess
  unfoldable pub run_listener_with_subprocess :
      Traffic → Site C E S → Result (Unit {0}) × Site C E S
  run_listener_with_subprocess t site = (t.ended, serve_all t.requests site)

pub record BuildCommand : Type 0 where
  pub manifest : ManifestOptions
  pub fetch : FetchOptions
  pub force_refresh : Bool

pub record OfflineCommand : Type 0 where
  pub manifest : ManifestOptions
  pub dummy_ok : List String

module _ {E : Engine} where
  abbrev pub build_ctx : Surroundings → BuildCommand → ListenerCtx E
  build_ctx X rc = record {
    fetch_if_missing = true;
    fail_if_missing = false;
    dummy_ok = none;
    headers_to_cache = cache_header_map X rc.fetch.cache_header;
  }

  abbrev pub offline_ctx : MultiRegexMatcher E → ListenerCtx E
  offline_ctx dummy_ok = record {
    fetch_if_missing = false;
    fail_if_missing = true;
    dummy_ok = dummy_ok;
    headers_to_cache = [];
  }

-- What a command leaves: what it returns, if it does, the manifest's path, and the store.
abbrev pub Ended : Codec → Store → Type 0
Ended C S = Outcome (Result (Unit {0})) × Place C × S.State

module _ {C : Codec} {E : Engine} {S : Store} where
  -- The deferred mf.Close().
  unfoldable pub closed : Result (Unit {0}) × Site C E S → Ended C S
  closed (r, site) =
      let (x, _, p) = close site.assets site.place in (returns (defer_error r x), p, site.blobs)

  -- From the outcome of MakeManifestFile on.
  unfoldable pub with_manifest :
      Outcome (Result (File E)) × Place C
      → S.State
      → (Site C E S → Result (Unit {0}) × Site C E S)
      → Ended C S
  with_manifest (panics, p) s body = (panics, p, s)
  with_manifest (returns (err e), p) s body =
      (returns (err (wrap "error getting manifest file" e)), p, s)
  with_manifest (returns (ok f), p) s body =
      closed (body (record { assets = f; place = p; blobs = s }))

-- RunListenerWithSubprocess, once its handler, its requests and its subprocess are given.
abbrev pub Running : Codec → Engine → Store → Type 0
Running C E S = ListenerCtx E → Site C E S → Result (Unit {0}) × Site C E S

module _ {C : Codec} (E : Engine) (X : Surroundings) (S : Store) (run : Running C E S) where
  unfoldable pub listened :
      BuildCommand → Result (Unit {0}) × File E × Place C → S.State → Result (Unit {0}) × Site C E S
  listened rc (err e, f, p) s =
      (err (wrap "error resetting manifest file" e), record { assets = f; place = p; blobs = s })
  listened rc (ok _, f, p) s = run (build_ctx X rc) (record { assets = f; place = p; blobs = s })

  -- What follows the opening of the manifest in BuildCommand.Execute, but the deferred Close.
  unfoldable pub build_session : BuildCommand → Site C E S → Result (Unit {0}) × Site C E S
  unfolding listened
  build_session rc site = listened rc (reset rc.force_refresh site.assets site.place) site.blobs

  -- BuildCommand.Execute once MakeBlobStore has made the store
  unfoldable pub build_running : BuildCommand → Place C → S.State → Ended C S
  build_running rc p s =
      with_manifest
        (make_manifest_file E rc.manifest
          (record { writable = true; allow_overwrite = false; no_cache_list = rc.fetch.no_cache })
          p)
        s (build_session rc)

module _ {C : Codec} (E : Engine) (U : Urls) (X : Surroundings) (client : Client) (S : Store)
    (t : Traffic) where
  -- So, with the requests one after the other.
  unfoldable pub build_in : BuildCommand → Place C → S.State → Ended C S
  build_in = build_running E X S (λ lctx. run_listener_with_subprocess U lctx client t)

  -- What follows the opening of the manifest in OfflineCommand.Execute, but the deferred Close.
  unfoldable pub offline_session : OfflineCommand → Site C E S → Result (Unit {0}) × Site C E S
  offline_session rc site = elim (new_multi_regex_matcher E rc.dummy_ok) [
    | err e ↦ (err (wrap "error creating dummy OK regex matcher" e), site)
    | ok dummy_ok ↦ run_listener_with_subprocess U (offline_ctx dummy_ok) client t site
  ]

  -- OfflineCommand.Execute once MakeBlobStore has made the store
  unfoldable pub offline_in : OfflineCommand → Place C → S.State → Ended C S
  offline_in rc p s =
      with_manifest
        (make_manifest_file E rc.manifest
          (record { writable = false; allow_overwrite = false; no_cache_list = [] }) p)
        s (offline_session rc)

-- A command as a whole: the back end that it has made, with what it leaves there.
pub record Executed (C : Codec) (stores : Backend → Store) : Type 0 where
  pub result : Outcome (Result (Unit {0}))
  pub place : Place C
  pub used : Option ((b : Backend) × (stores b).State)

module _ {C : Codec} (stores : Backend → Store) where
  -- From the outcome of MakeBlobStore on.
  unfoldable pub with_store :
      Result Backend
      → ((b : Backend) → Place C → (stores b).State → Ended C (stores b))
      → Place C
      → ((b : Backend) → (stores b).State)
      → Executed C stores
  with_store (err e) body p s = record {
    result = returns (err (wrap "error making directory blob store" e));
    place = p;
    used = none;
  }
  with_store (ok b) body p s =
      let (r, p', s') = body b p (s b) in record { result = r; place = p'; used = some (b, s') }

  -- BuildCommand.Execute
  unfoldable pub build_execute :
      Engine
      → Urls
      → Surroundings
      → Client
      → Traffic
      → BuildCommand
      → Place C
      → ((b : Backend) → (stores b).State)
      → Executed C stores
  build_execute E U X client t rc =
      with_store (make_blob_store X rc.manifest.cache true)
        (λ b. build_in E U X client (stores b) t rc)

  -- OfflineCommand.Execute
  unfoldable pub offline_execute :
      Engine
      → Urls
      → Surroundings
      → Client
      → Traffic
      → OfflineCommand
      → Place C
      → ((b : Backend) → (stores b).State)
      → Executed C stores
  offline_execute E U X client t rc =
      with_store (make_blob_store X rc.manifest.cache false)
        (λ b. offline_in E U X client (stores b) t rc)
