-- ===== src/Blobstore/Shared.antt =====
-- What clients that write several blobs of one store at a time rely on.
use htvend.Base.{◌≡◌, Bytes}
use htvend.Base.Error.{ok}
use htvend.Platform.{Platform}
use htvend.Blobstore.{Store, IsLawful}

module _ {P : Platform} {S : Store} (L : IsLawful P S) (Owns : S.Blob → S.State → Type 0) where
  -- Whoever writes another blob, `b'`, still owns it and what it holds.
  abbrev pub Undisturbed : S.Blob → S.State → S.State → Type 0
  Undisturbed b' s s1 = Owns b' s1 × ((c : Bytes) → L.Holds b' s c → L.Holds b' s1 c)

-- A lawful store, with what it means that a blob owns what it writes to, and that two blobs share
-- nothing: a new blob is apart from all, and a call on one disturbs none that is apart from it.
pub record IsShared (P : Platform) (S : Store) : Type 1 where
  pub lawful : IsLawful P S
  pub Owns : S.Blob → S.State → Type 0
  pub IsApart : S.Blob → S.Blob → Type 0
  pub sym_apart : (b b' : S.Blob) → IsApart b b' → IsApart b' b
  pub quiet_get :
      (k : Bytes) (s : S.State) (b : S.Blob) → Owns b s → Undisturbed lawful Owns b s (S.get k s).1
  pub quiet_put : (s : S.State) (b : S.Blob) → Owns b s → Undisturbed lawful Owns b s (S.put s).1
  pub put_owns :
      (s : S.State) (b : S.Blob)
      → (S.put s).0 ≡ ok b
      → Owns b (S.put s).1 × ((b' : S.Blob) → IsApart b b')
  pub write_owns :
      (p : Bytes) (b : S.Blob) (s : S.State) → Owns b s → Owns (S.write p b s).1 (S.write p b s).2
  pub write_frame :
      (p : Bytes) (b : S.Blob) (s : S.State) (b' : S.Blob)
      → Owns b' s
      → IsApart b b'
      → IsApart (S.write p b s).1 b' × Undisturbed lawful Owns b' s (S.write p b s).2
  pub commit_owns : (b : S.Blob) (s : S.State) → Owns b s → Owns (S.commit b s).1 (S.commit b s).2
  pub commit_frame :
      (b : S.Blob) (s : S.State) (b' : S.Blob)
      → Owns b' s
      → IsApart b b'
      → IsApart (S.commit b s).1 b' × Undisturbed lawful Owns b' s (S.commit b s).2
  pub cleanup_frame :
      (b : S.Blob) (s : S.State) (b' : S.Blob)
      → Owns b' s
      → IsApart b b'
      → Undisturbed lawful Owns b' s (S.cleanup b s).2
