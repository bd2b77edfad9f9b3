-- ===== src/Blobstore/Directory/Laws/Apart.antt =====
-- Several blobs of the directory store that are written at a time: each has a temporary file of its own.
use htvend.Base.{◌≡◌, sym, ◌∙◌, Bool, none, some, String, arith, string_eq, Option-cases, inl, inr}
use htvend.Base.{Bytes}
use htvend.Base.Hex.{encode}
use htvend.Base.Error.{ok}
use htvend.Platform.{Platform, IsPlatform}
use htvend.Blobstore.Shared.{IsShared}
use htvend.Blobstore.Disk.{Disk}
use htvend.Blobstore.Disk.Laws.{file, file-open_file}
use htvend.Blobstore.Caf
use htvend.Blobstore.Caf.{TempFile, ContentAddressableFile, new_content_addressable_file}
use htvend.Blobstore.Caf.Laws.{Avoids}
use htvend.Blobstore.Caf.Integrity.{Holds, fresh, opened}
use htvend.Blobstore.Caf.Kept.{IsTemp, write_kept, commit_kept, cleanup_kept}
use htvend.Blobstore.Caf.Owned.{Owns, IsApart, write-Owns, commit-Owns}
use htvend.Blobstore.Directory.{get, put, directory_store}
use htvend.Blobstore.Directory.Laws.{directory_contract}

-- A blob holds what it held if its file is as it was.
Holds-file :
    (c : ContentAddressableFile) (d d' : Disk) (b : Bytes)
    → ((t : TempFile) → c.tf ≡ some t → file t.name d' ≡ file t.name d)
    → Holds c d b
    → Holds c d' b
Holds-file c d d' b same (fresh h) = fresh h
Holds-file c d d' b same (opened t h) = opened t (record {
  mw = h.mw;
  tf = h.tf;
  open_file = h.open_file;
  dg = h.dg;
  size = h.size;
  held = same t h.tf ∙ h.held;
})

Owns-file :
    (c : ContentAddressableFile) (d d' : Disk)
    → ((t : TempFile) → c.tf ≡ some t → file t.name d' ≡ file t.name d)
    → Owns c d
    → Owns c d'
Owns-file c d d' same h t e = let (temp, there) = h t e in (temp, λ q. there (sym (same t e) ∙ q))

IsApart-sym : (c c' : ContentAddressableFile) → IsApart c c' → IsApart c' c
IsApart-sym c c' h t e t' e' q = h t' e' t e (sym q)

file-get : (j : String) (k : Bytes) (d : Disk) → file j (get k d).1 ≡ file j d
unfolding get
file-get j k d = ground (arith, file-open_file j (encode k) d)

file-put : (w : Bool) (j : String) (d : Disk) → file j (put w d).1 ≡ file j d
unfolding put
file-put w j d = ground arith

put-new : (w : Bool) (d : Disk) (c : ContentAddressableFile) → (put w d).0 ≡ ok c → c.tf ≡ none
unfolding put
put-new w d c e = ground arith

-- A call on one blob that keeps the file of each blob apart from it.
abbrev IsKeeping : ContentAddressableFile → ContentAddressableFile → Disk → Disk → Type 0
IsKeeping c c1 d d1 =
    (j : String) (x : Bytes)
    → file j d ≡ some x
    → IsTemp j
    → Avoids j c
    → Avoids j c1 × (file j d1 ≡ some x)

abbrev Kept : ContentAddressableFile → Disk → Disk → Type 0
Kept c d d1 = Owns c d1 × ((b : Bytes) → Holds c d b → Holds c d1 b)

framed :
    (c c1 c' : ContentAddressableFile) (d d1 : Disk)
    → IsKeeping c c1 d d1
    → Owns c' d
    → IsApart c c'
    → IsApart c1 c' × Kept c' d d1
framed c c1 c' d d1 keeps own apart = (
  λ t e. (at_file t e).0,
  (
    Owns-file c' d d1 (λ t e. (at_file t e).1) own,
    λ b. Holds-file c' d d1 b (λ t e. (at_file t e).1),
  ),
)
  where
    at_file : (t : TempFile) → c'.tf ≡ some t → Avoids t.name c1 × (file t.name d1 ≡ file t.name d)
    at_file t e =
        let (temp, there) = own t e in
        elim (Option-cases (file t.name d)) [
          | inl gone ↦ absurd (there gone)
          | inr (x, held) ↦
              let (away, kept) = keeps t.name x held temp (apart t e) in (away, kept ∙ sym held)
        ]

module _ (P : Platform) (L : IsPlatform P) (w : Bool) where
  -- The directory store meets its contract in such a way that several blobs can be written at a
  -- time, whichever calls of package os fail: each new blob is apart from all others, and what one
  -- blob writes, commits or removes leaves the temporary file of every other blob as it is, so that
  -- each goes on to hold the bytes that it took.
  pub directory_store-IsShared : IsShared P (directory_store P w)
  directory_store-IsShared = record {
    lawful = directory_contract P L w;
    Owns = Owns;
    IsApart = IsApart;
    sym_apart = IsApart-sym;
    quiet_get = λ k d c own. (
      Owns-file c d (get k d).1 (λ t e. file-get t.name k d) own,
      λ b. Holds-file c d (get k d).1 b (λ t e. file-get t.name k d),
    );
    quiet_put = λ d c own. (
      Owns-file c d (put w d).1 (λ t e. file-put w t.name d) own,
      λ b. Holds-file c d (put w d).1 b (λ t e. file-put w t.name d),
    );
    put_owns =
        λ d c e. let new = put-new w d c e in (λ t h. absurd (cc), λ c' t h t' h'. absurd (cc));
    write_owns = λ p c d own. write-Owns P L p c d own;
    write_frame = λ p c d c'.
        framed c (Caf.write P p c d).1 c' d (Caf.write P p c d).2
          (λ j x h temp. write_kept P L j x p c d h);
    commit_owns = λ c d own. commit-Owns P L c d own;
    commit_frame = λ c d c'.
        framed c (Caf.commit P c d).1 c' d (Caf.commit P c d).2
          (λ j x h temp. commit_kept P L j x c d h temp);
    cleanup_frame = λ c d c' own apart.
        (framed c (Caf.cleanup c d).1 c' d (Caf.cleanup c d).2
          (λ j x h temp. cleanup_kept P L j x c d h) own apart).1;
  }
