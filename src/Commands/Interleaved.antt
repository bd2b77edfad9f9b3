-- ===== src/Commands/Interleaved.antt =====
-- BuildCommand.Execute (cli/internal/htvend/command_build.go) with requests that are handled at the
-- same time.
use htvend.Base.{◌≡◌, ℕ, some, List, false}
use htvend.Base.Error.{Result, ok}
use htvend.Platform.{Platform, IsPlatform}
use htvend.Re.{Engine}
use htvend.Lockfile.{BlobMap, Codec, Place, returns, Urls}
use htvend.Lockfile.Saved.{IsCodec}
use htvend.Blobstore.{Store}
use htvend.Blobstore.Shared.{IsShared}
use htvend.Listener.{Request, Client, Site, ListenerCtx}
use htvend.Listener.Reply.{Reply}
use htvend.Listener.Backed.{IsMapBacked}
use htvend.Listener.Concurrent.{Proxied, arrived, interleaved}
use htvend.Listener.Concurrent.Interleaved.{started-IsConsistent, interleaved-IsConsistent}
use htvend.Listener.Concurrent.Kept.{interleaved_keeps}
use htvend.Commands.{Surroundings}
use htvend.Commands.Run.{Ended, BuildCommand, Running, build_running}
use htvend.Commands.Session.{IsOpen, IsOpen-IsKept}
use htvend.Commands.Build.{IsGood, IsPublished, build_running-IsPublished}

-- The requests by number, the order of the steps of their handlers until the server is stopped, and
-- what the server returns. A handler that has no turn is a request that did not come, and one that
-- has too few has not returned by then.
pub record Schedule : Type 0 where
  pub requests : ℕ → Request
  pub replies : ℕ → Reply
  pub order : List ℕ
  pub ended : Result (Unit {0})

module _ {C : Codec} {E : Engine} {S : Store} (U : Urls) (client : Client) (t : Schedule) where
  -- The site and the handlers before their first step.
  abbrev started : Site C E S → Proxied C E S U
  started site = record { site = site; handlers = λ i. arrived (t.requests i) (t.replies i) }

  -- RunListenerWithSubprocess
  unfoldable pub run_interleaved : Running C E S
  run_interleaved lctx site = (t.ended, (interleaved U lctx client t.order (started site)).site)

  run_interleaved-IsGood :
      {P : Platform} (LP : IsPlatform P) (X : IsShared P S) (lctx : ListenerCtx E)
      (site : Site C E S)
      → IsGood X.lawful site
      → IsGood X.lawful (run_interleaved lctx site).1
  unfolding run_interleaved
  run_interleaved-IsGood LP X lctx site (b, q) = (
    (interleaved-IsConsistent LP X U lctx client t.order (started site)
        (started-IsConsistent X site t.requests t.replies b)).backed,
    interleaved_keeps U IsOpen (IsOpen-IsKept U) lctx client t.order (started site) q,
  )

module _ {C : Codec} (E : Engine) (U : Urls) (Y : Surroundings) (client : Client) (S : Store)
    (t : Schedule) where
  -- BuildCommand.Execute once MakeBlobStore has made the store
  unfoldable pub build_interleaved : BuildCommand → Place C → S.State → Ended C S
  build_interleaved = build_running E Y S (run_interleaved U client t)

module _ {P : Platform} (LP : IsPlatform P) {C : Codec} (E : Engine) {S : Store} (X : IsShared P S)
    (U : Urls) (Y : Surroundings) (client : Client) (t : Schedule) where
  -- For a store of which several blobs can be written at a time, and which backs every entry of the
  -- manifest that the disk holds, if it holds one: whatever requests come, in whatever order the
  -- steps of their handlers interleave and however many of them have not returned when the server
  -- is stopped, whatever the upstream answers and whichever calls fail, if the build returns nil,
  -- then the disk holds a manifest that can be decoded, each of its entries names bytes that the
  -- store holds under their own SHA-256, and the manifest's lock is free.
  pub build_interleaved-IsPublished :
      (K : IsCodec C) (rc : BuildCommand) (p : Place C) (s : S.State)
      → ((c : C.Content) (m : BlobMap)
          → p.content ≡ some c
          → C.unmarshal c ≡ some m
          → IsMapBacked X.lawful s m)
      → (build_interleaved E U Y client S t rc p s).0 ≡ returns (ok tt)
      → let (_, p', s') = build_interleaved E U Y client S t rc p s in
        IsPublished X.lawful p' s' × (p'.locked ≡ false)
  unfolding build_interleaved
  build_interleaved-IsPublished K rc p s old h =
      build_running-IsPublished X.lawful Y (run_interleaved U client t)
        (run_interleaved-IsGood U client t LP X) K rc p s old h
