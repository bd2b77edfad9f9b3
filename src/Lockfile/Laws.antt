-- ===== src/Lockfile/Laws.antt =====
-- What the methods of the manifest do to its entries and to its file.
use htvend.Base.{◌≡◌, ◌==◌, String, Bool, true, false, Option, none, some, [], arith}
use htvend.Base.{string_eq, ==_sound, if◌then◌else◌}
use htvend.Base.Dict
use htvend.Base.Dict.{lookup, lookup-nil, lookup-insert, lookup-erase}
use htvend.Base.Error.{ok}
use htvend.Re.{Engine, matches}
use htvend.Lockfile.{BlobInfo, blob_equals, Codec, File, Place, Urls}
use htvend.Lockfile.Ops.{save, internal_add_blob, reset, get_blob, add_blob, remove_entry}

-- What an entry becomes when `info` is added under its key.
abbrev pub merged : Bool → BlobInfo → Option BlobInfo → BlobInfo
merged overwrite info none = info
merged overwrite info (some v) = if blob_equals v info then v else if overwrite then info else v

abbrev previous : Option BlobInfo → BlobInfo
previous none = record { sha256 = ""; headers = [] }
previous (some v) = v

-- The entry of this run, else that of the previous run.
abbrev pub found : Option BlobInfo → Option BlobInfo → Option BlobInfo
found none old = old
found (some v) old = some v

-- The same digest, and the same value for every header.
abbrev pub SameInfo : Option BlobInfo → Option BlobInfo → Type 0
SameInfo none none = Unit
SameInfo none (some _) = ⊥
SameInfo (some _) none = ⊥
SameInfo (some v) (some w) =
    (v.sha256 ≡ w.sha256) × ((h : String) → lookup h v.headers ≡ lookup h w.headers)

module _ {C : Codec} {E : Engine} where
  save_blobs : (final : Bool) (f : File E) (p : Place C) → (save final f p).1.blobs ≡ f.blobs
  unfolding save
  save_blobs final f p = ground arith

  -- Only the last save, at Close, touches the disk.
  pub save_place : (f : File E) (p : Place C) → (save false f p).2 ≡ p
  unfolding save
  save_place f p = ground arith

  lookup-internal_add_blob :
      (k j : String) (info : BlobInfo) (f : File E) (p : Place C)
      → lookup j (internal_add_blob k info f p).1.blobs ≡ (
          if j == k
          then some (merged f.options.allow_overwrite info (lookup k f.blobs))
          else lookup j f.blobs)
  unfolding internal_add_blob
  lookup-internal_add_blob k j info f p =
      let f' = record f { blobs = Dict.insert k info f.blobs; dirty = true } in
      ground (arith, save_blobs false f' p, lookup-insert j k info f.blobs)

module _ {C : Codec} {E : Engine} (U : Urls) where
  -- AddBlob, on every branch: for a URL of the no-cache list no entry changes; for any other URL
  -- its entry is the new one if there was none, or if the old one differs and the manifest allows
  -- overwriting, else the old one, and no other entry changes.
  pub lookup-add_blob :
      (u : U.Url) (j : String) (info : BlobInfo) (f : File E) (p : Place C)
      → lookup j (add_blob U u info f p).1.blobs ≡ (
          if matches E f.options.no_cache (U.redacted u)
          then lookup j f.blobs
          else if j == U.redacted u
          then some (merged f.options.allow_overwrite info (lookup (U.redacted u) f.blobs))
          else lookup j f.blobs)
  unfolding add_blob
  lookup-add_blob u j info f p = ground (arith, lookup-internal_add_blob (U.redacted u) j info f p)

  -- GetBlob, on every branch: for a URL of the no-cache list no entry changes; for any other URL
  -- its entry is that of this run, else that of the previous run, else none, and no other entry
  -- changes.
  pub lookup-get_blob :
      (u : U.Url) (j : String) (f : File E) (p : Place C)
      → lookup j (get_blob U u f p).1.blobs ≡ (
          if matches E f.options.no_cache (U.redacted u)
          then lookup j f.blobs
          else if j == U.redacted u
          then found (lookup (U.redacted u) f.blobs) (lookup (U.redacted u) f.previous_blobs)
          else lookup j f.blobs)
  unfolding get_blob internal_add_blob
  lookup-get_blob u j f p =
      let k = U.redacted u in
      let old = previous (lookup k f.previous_blobs) in
      let f' = record f { blobs = Dict.insert k old f.blobs; dirty = true } in
      ground (arith, save_blobs false f' p, lookup-insert j k old f.blobs, ==_sound j k)

  -- The blob that GetBlob answers is the entry of this run, else that of the previous run; a URL of
  -- the no-cache list has none.
  pub get_blob_ok :
      (u : U.Url) (f : File E) (p : Place C) (r : Option BlobInfo)
      → (get_blob U u f p).0 ≡ ok r
      → r ≡ (
          if matches E f.options.no_cache (U.redacted u)
          then none
          else found (lookup (U.redacted u) f.blobs) (lookup (U.redacted u) f.previous_blobs))
  unfolding get_blob internal_add_blob
  get_blob_ok u f p r h = ground arith

  pub get_blob-previous_blobs :
      (u : U.Url) (f : File E) (p : Place C)
      → (get_blob U u f p).1.previous_blobs ≡ f.previous_blobs
  unfolding get_blob internal_add_blob save
  get_blob-previous_blobs u f p = ground arith

  -- GetBlob never writes to the disk.
  pub get_blob-place : (u : U.Url) (f : File E) (p : Place C) → (get_blob U u f p).2 ≡ p
  unfolding get_blob internal_add_blob
  get_blob-place u f p = ground (
    arith,
    save_place
        (record f {
          blobs =
              Dict.insert (U.redacted u) (previous (lookup (U.redacted u) f.previous_blobs))
                f.blobs;
          dirty = true;
        })
        p,
  )

  pub add_blob-place :
      (u : U.Url) (info : BlobInfo) (f : File E) (p : Place C) → (add_blob U u info f p).2 ≡ p
  unfolding add_blob internal_add_blob
  add_blob-place u info f p = ground (
    arith,
    save_place (record f { blobs = Dict.insert (U.redacted u) info f.blobs; dirty = true }) p,
  )

  pub add_blob-previous_blobs :
      (u : U.Url) (info : BlobInfo) (f : File E) (p : Place C)
      → (add_blob U u info f p).1.previous_blobs ≡ f.previous_blobs
  unfolding add_blob internal_add_blob save
  add_blob-previous_blobs u info f p = ground arith

  pub get_blob-options :
      (u : U.Url) (f : File E) (p : Place C) → (get_blob U u f p).1.options ≡ f.options
  unfolding get_blob internal_add_blob save
  get_blob-options u f p = ground arith

  pub add_blob-options :
      (u : U.Url) (info : BlobInfo) (f : File E) (p : Place C)
      → (add_blob U u info f p).1.options ≡ f.options
  unfolding add_blob internal_add_blob save
  add_blob-options u info f p = ground arith

  pub remove_entry-place : (u : U.Url) (f : File E) (p : Place C) → (remove_entry U u f p).2 ≡ p
  unfolding remove_entry
  remove_entry-place u f p =
      ground
        (arith, save_place (record f { blobs = Dict.erase (U.redacted u) f.blobs; dirty = true }) p)

  -- For a writable manifest and a URL that is not on the no-cache list: Reset succeeds, and
  -- GetBlob then answers with the entry from before the Reset, which is an entry of the new run
  -- too; with forgetBlobs there is none.
  pub get_blob-reset :
      (u : U.Url) (forget : Bool) (f : File E) (p : Place C)
      → f.options.writable ≡ true
      → matches E f.options.no_cache (U.redacted u) ≡ false
      → let (r, f1, p1) = reset forget f p in
        let old = if forget then none else lookup (U.redacted u) f.blobs in
        (r ≡ ok tt)
        × ((get_blob U u f1 p1).0 ≡ ok old)
        × (lookup (U.redacted u) (get_blob U u f1 p1).1.blobs ≡ old)
  unfolding reset get_blob save internal_add_blob
  get_blob-reset u forget f p w h =
      let k = U.redacted u in
      ground
        (arith, lookup-nil {V = BlobInfo} k, lookup-insert k k (previous (lookup k f.blobs)) [])
