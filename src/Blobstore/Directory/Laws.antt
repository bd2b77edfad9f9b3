-- ===== src/Blobstore/Directory/Laws.antt =====
-- The operations of directory_store.go against the contract of blobstore.Store.
pub mod Apart
use htvend.Base.{
  ◌≡◌, refl, ◌==◌, Bool, true, Option, none, some, [], arith, string_eq, list_eq, nat_eq,
  append-nil,
}
use htvend.Base.{Bytes, IsBytes, concat, inl, inr, Option-cases, if◌then◌else◌}
use htvend.Base.Dict.{lookup-nil}
use htvend.Base.Hex.{encode, encode_injective, encode-ne-tmp, encode-eq-nil}
use htvend.Base.Error.{Error, blob_not_exist, errors_is, ok, err}
use htvend.Platform.{Platform, IsPlatform}
use htvend.Stream.{Reader}
use htvend.Blobstore.{IsLawful}
use htvend.Blobstore.Disk.{Disk, open_file}
use htvend.Blobstore.Disk.Laws.{file, file-open_file}
use htvend.Blobstore.Caf
use htvend.Blobstore.Caf.{ContentAddressableFile, new_content_addressable_file}
use htvend.Blobstore.Caf.Laws.{
  Avoids, write-Avoids, file-write, commit-Avoids, file-commit_err, file-cleanup,
}
use htvend.Blobstore.Caf.Integrity.{Holds, fresh, write-Holds, commit-Holds}
use htvend.Blobstore.Directory.{get, exists, put, directory_store}

-- The bytes that the store has under a key.
abbrev pub view : Disk → Bytes → Option Bytes
view d k = if encode k == "" then none else file (encode k) d

abbrev bytes_of : Option Bytes → Bytes
bytes_of none = []
bytes_of (some c) = c

view-get : (k j : Bytes) (d : Disk) → view (get k d).1 j ≡ view d j
unfolding get
view-get k j d = ground (arith, file-open_file (encode j) (encode k) d)

get_ok :
    (k : Bytes) (d : Disk) (r : Reader)
    → (get k d).0 ≡ ok r
    → r.broken ≡ none
    → view d k ≡ some (concat r.chunks)
unfolding get open_file
get_ok k d r h w = ground (arith, append-nil (bytes_of (file (encode k) d)))

get_missing :
    (k : Bytes) (d : Disk) (e : Error)
    → (get k d).0 ≡ err e
    → errors_is blob_not_exist e ≡ true
    → view d k ≡ none
unfolding get open_file errors_is
get_missing k d e h m = ground (arith, lookup-nil {V = Bytes} (encode k))

view-exists : (k j : Bytes) (d : Disk) → view (exists k d).1 j ≡ view d j
unfolding exists
view-exists k j d = ground (arith, file-open_file (encode j) (encode k) d)

exists_ok :
    (k : Bytes) (d : Disk)
    → (k ≡ [] → ⊥)
    → (exists k d).0 ≡ ok true
    → (c : Bytes) × (view d k ≡ some c)
unfolding exists open_file
exists_ok k d some_key h = elim (Option-cases (file (encode k) d)) [
  | inl absent ↦ absurd (ground (arith, encode-eq-nil k, lookup-nil {V = Bytes} (encode k)))
  | inr (c, e) ↦ (c, ground (arith, encode-eq-nil k))
]

view-put : (w : Bool) (j : Bytes) (d : Disk) → view (put w d).1 j ≡ view d j
unfolding put
view-put w j d = ground arith

-- A blob of this store writes to no file that stands for a key.
abbrev pub IsLive : ContentAddressableFile → Type 0
IsLive c = (k : Bytes) → IsBytes k → Avoids (encode k) c

view_of_file :
    (k : Bytes) (d d' : Disk) → file (encode k) d ≡ file (encode k) d' → view d k ≡ view d' k
view_of_file k d d' e = ground arith

module _ (w : Bool) (d : Disk) (c : ContentAddressableFile) (new : (put w d).0 ≡ ok c) where
  put_IsLive : IsLive c
  unfolding put
  put_IsLive k bytes t e = ground arith

  put_Holds : Holds c (put w d).1 []
  unfolding put
  put_Holds = fresh (
      let e : c ≡ new_content_addressable_file = ground arith in
      rw e (record { mw = refl; tf = refl; size = refl; bytes = refl }))

module _ (P : Platform) (L : IsPlatform P) where
  commit_ok :
      (c : ContentAddressableFile) (d : Disk) (b rv j : Bytes)
      → IsBytes j
      → IsLive c
      → Holds c d b
      → (Caf.commit P c d).0 ≡ ok rv
      → (rv ≡ P.sha256 b) × (view (Caf.commit P c d).2 j ≡ (if j == rv then some b else view d j))
  commit_ok c d b rv j bytes live h e =
      let (digest, files) =
        commit-Holds P L (encode j) (encode-ne-tmp j bytes) c d b rv (live j bytes) h e in
      (
        digest,
        ground (
          arith,
          L.sha256_nonempty b,
          encode-eq-nil j,
          encode_injective j rv bytes (rw digest (L.sha256_bytes b)),
        ),
      )

  -- A Commit of the directory store that fails leaves every blob as it was, for a blob of which no
  -- write went to a file that stands for a key.
  pub commit_err :
      (c : ContentAddressableFile) (d : Disk) (x : Error) (k : Bytes)
      → IsBytes k
      → IsLive c
      → (Caf.commit P c d).0 ≡ err x
      → view (Caf.commit P c d).2 k ≡ view d k
  commit_err c d x k bytes live e =
      view_of_file k (Caf.commit P c d).2 d
        (file-commit_err P L (encode k) (encode-ne-tmp k bytes) c d x (live k bytes) e)

  -- What the directory store holds, and the laws about it.
  abbrev directory_contract : (w : Bool) → IsLawful P (directory_store P w)
  directory_contract w = record {
    view = view;
    IsLive = IsLive;
    Holds = Holds;
    view-get = view-get;
    get_ok = get_ok;
    get_missing = get_missing;
    view-exists = view-exists;
    exists_ok = exists_ok;
    view-put = view-put w;
    put_live = λ d c e. (put_IsLive w d c e, put_Holds w d c e);
    write_live = λ p c d live k bytes.
        write-Avoids P L (encode k) (encode-ne-tmp k bytes) p c d (live k bytes);
    view-write = λ p c d k bytes live.
        view_of_file k (Caf.write P p c d).2 d
          (file-write P L (encode k) (encode-ne-tmp k bytes) p c d (live k bytes));
    write_holds = λ p c d b h e. write-Holds P L p c d b h e;
    commit_live =
        λ c d live k bytes. commit-Avoids P L (encode k) (encode-ne-tmp k bytes) c d (live k bytes);
    commit_ok = λ c d b rv j bytes live h e. commit_ok c d b rv j bytes live h e;
    commit_err = λ c d b x k bytes live held e. inl (commit_err c d x k bytes live e);
    view-cleanup = λ c d k bytes live.
        view_of_file k (Caf.cleanup c d).2 d
          (file-cleanup P L (encode k) (encode-ne-tmp k bytes) c d (live k bytes));
  }

  -- The directory store, writable or not, meets the contract of a blob store, whichever calls of
  -- package os fail: a Get, Exists, Put, Write or Cleanup changes no blob; a Get that is read to
  -- its end gives the blob; a Commit that succeeds returns the digest of all bytes written and
  -- stores them under it, and one that fails stores nothing, or else these bytes under their digest.
  pub directory_store-IsLawful : (w : Bool) → IsLawful P (directory_store P w)
  directory_store-IsLawful w = directory_contract w
