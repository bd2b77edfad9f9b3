-- ===== src/Blobstore.antt =====
-- cli/internal/blobstore/store.go: the interfaces Store and ContentAddressableBlob as a record of
-- operations on a state, and what a client relies on.
pub mod Disk
pub mod Caf
pub mod Directory
pub mod Growth
pub mod Shared
pub mod S3
pub mod Registry
use htvend.Base.{ℕ, ◌≡◌, ◌⊎◌, ◌==◌, String, Bool, true, Option, none, some, List, [], ◌++◌}
use htvend.Base.{Bytes, IsBytes, concat, list_eq, nat_eq, if◌then◌else◌}
use htvend.Base.Error.{Error, blob_not_exist, errors_is, Result, ok, err}
use htvend.Platform.{Platform}
use htvend.Stream.{Reader}

-- `Blob` is the ContentAddressableBlob that Put returns.
pub record Store : Type 1 where
  pub State : Type 0
  pub Blob : Type 0
  pub get : Bytes → State → Result Reader × State
  pub exists : Bytes → State → Result Bool × State
  pub put : State → Result Blob × State
  pub write : Bytes → Blob → State → (ℕ × Option Error) × Blob × State
  pub commit : Blob → State → Result Bytes × Blob × State
  pub cleanup : Blob → State → Result (Unit {0}) × Blob × State
  pub destroy : State → Result (Unit {0}) × State
  pub remove_except : List String → State → Result (Unit {0}) × State

-- What a store holds (`view`), which of its blobs are being written (`IsLive`), and which bytes a
-- blob has taken when no write of it has failed (`Holds`).
pub record IsLawful (P : Platform) (S : Store) : Type 1 where
  pub view : S.State → Bytes → Option Bytes
  pub IsLive : S.Blob → Type 0
  pub Holds : S.Blob → S.State → Bytes → Type 0
  pub view-get : (k j : Bytes) (s : S.State) → view (S.get k s).1 j ≡ view s j
  pub get_ok :
      (k : Bytes) (s : S.State) (r : Reader)
      → (S.get k s).0 ≡ ok r
      → r.broken ≡ none
      → view s k ≡ some (concat r.chunks)
  pub get_missing :
      (k : Bytes) (s : S.State) (e : Error)
      → (S.get k s).0 ≡ err e
      → errors_is blob_not_exist e ≡ true
      → view s k ≡ none
  pub view-exists : (k j : Bytes) (s : S.State) → view (S.exists k s).1 j ≡ view s j
  pub exists_ok :
      (k : Bytes) (s : S.State)
      → (k ≡ [] → ⊥)
      → (S.exists k s).0 ≡ ok true
      → (c : Bytes) × (view s k ≡ some c)
  pub view-put : (j : Bytes) (s : S.State) → view (S.put s).1 j ≡ view s j
  pub put_live : (s : S.State) (b : S.Blob) → (S.put s).0 ≡ ok b → IsLive b × Holds b (S.put s).1 []
  pub write_live : (p : Bytes) (b : S.Blob) (s : S.State) → IsLive b → IsLive (S.write p b s).1
  pub view-write :
      (p : Bytes) (b : S.Blob) (s : S.State) (j : Bytes)
      → IsBytes j
      → IsLive b
      → view (S.write p b s).2 j ≡ view s j
  pub write_holds :
      (p : Bytes) (b : S.Blob) (s : S.State) (c : Bytes)
      → Holds b s c
      → (S.write p b s).0.1 ≡ none
      → Holds (S.write p b s).1 (S.write p b s).2 (c ++ p)
  pub commit_live : (b : S.Blob) (s : S.State) → IsLive b → IsLive (S.commit b s).1
  pub commit_ok :
      (b : S.Blob) (s : S.State) (c d j : Bytes)
      → IsBytes j
      → IsLive b
      → Holds b s c
      → (S.commit b s).0 ≡ ok d
      → (d ≡ P.sha256 c) × (view (S.commit b s).2 j ≡ (if j == d then some c else view s j))
  -- A Commit may fail after the bytes have reached the store.
  pub commit_err :
      (b : S.Blob) (s : S.State) (c : Bytes) (e : Error) (j : Bytes)
      → IsBytes j
      → IsLive b
      → Holds b s c
      → (S.commit b s).0 ≡ err e
      → (view (S.commit b s).2 j ≡ view s j)
        ⊎ ((view (S.commit b s).2 j ≡ some c) × (P.sha256 c ≡ j))
  pub view-cleanup :
      (b : S.Blob) (s : S.State) (j : Bytes)
      → IsBytes j
      → IsLive b
      → view (S.cleanup b s).2 j ≡ view s j
