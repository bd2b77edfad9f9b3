-- ===== src/Lockfile/Saved.antt =====
-- What the file on the disk has of the manifest: at every step, after Close, and when it is opened
-- again.
use htvend.Base.{
  ◌≡◌, refl, sym, subst, subst₂, ◌∙◌, inl, inr, String, Bool, true, false, Option, none, some, [],
  arith,
}
use htvend.Base.{string_eq, if◌then◌else◌, Bool-cases, Option-cases}
use htvend.Base.Dict.{lookup}
use htvend.Base.Error.{ok}
use htvend.Re.{Engine}
use htvend.Lockfile.{BlobInfo, BlobMap, Codec, File, Place, Urls}
use htvend.Lockfile.Ops.{save, internal_add_blob, reset, close, get_blob, add_blob, remove_entry}
use htvend.Lockfile.Laws.{SameInfo, save_place, get_blob-place, add_blob-place, remove_entry-place}

-- What package encoding/json promises: decoding what was encoded gives a map with the same entries.
pub record IsCodec (C : Codec) : Type 0 where
  pub round_trip :
      (m : BlobMap) (c : C.Content)
      → C.marshal m ≡ some c
      → (m' : BlobMap) × (C.unmarshal c ≡ some m')
        × ((k : String) → SameInfo (lookup k m') (lookup k m))

-- The contents of the disk decode to a map with the entries of `m`.
abbrev pub Stores : {C : Codec} → Place C → BlobMap → Type 0
Stores {C} p m =
    (c : C.Content) × (m' : BlobMap) × (p.content ≡ some c)
    × (C.unmarshal c ≡ some m')
    × ((k : String) → SameInfo (lookup k m') (lookup k m))

pub SameInfo-refl : (o : Option BlobInfo) → SameInfo o o
SameInfo-refl none = tt
SameInfo-refl (some v) = (refl, λ h. refl)

-- While a manifest is not dirty, the disk holds its entries.
pub record IsSynced {C : Codec} {E : Engine} (f : File E) (p : Place C) : Type 0 where
  pub stored : f.dirty ≡ false → Stores p f.blobs

module _ {C : Codec} (L : IsCodec C) {E : Engine} where
  save_clean : (f : File E) (p : Place C) → f.dirty ≡ false → (save true f p).2 ≡ p
  unfolding save
  save_clean f p h = ground arith

  save_dirty :
      (f : File E) (p : Place C)
      → f.dirty ≡ true
      → (save true f p).0 ≡ ok tt
      → (c : C.Content) × (C.marshal f.blobs ≡ some c) × ((save true f p).2.content ≡ some c)
  unfolding save
  save_dirty f p d h = elim (Option-cases (C.marshal f.blobs)) [
    | inl bad ↦ absurd (ground arith)
    | inr (c, good) ↦ (c, good, ground arith)
  ]

  save-Stores :
      (f : File E) (p : Place C)
      → IsSynced f p
      → (save true f p).0 ≡ ok tt
      → Stores (save true f p).2 f.blobs
  save-Stores f p s h = elim (Bool-cases f.dirty) [
    | inl d ↦
        let (c, good, held) = save_dirty f p d h in
        let (m, decoded, same) = L.round_trip f.blobs c good in (c, m, held, decoded, same)
    | inr clean ↦
        subst (λ (q : Place C). Stores q f.blobs) (sym (save_clean f p clean)) (s.stored clean)
  ]

  close_parts :
      (f : File E) (p : Place C)
      → f.options.writable ≡ true
      → (close f p).0 ≡ ok tt
      → ((save true f p).0 ≡ ok tt)
        × ((close f p).2.content ≡ (save true f p).2.content)
        × ((close f p).2.locked ≡ false)
  unfolding close
  close_parts f p w h = ground arith

  -- A Close that succeeds leaves the entries on the disk, and the lock is free.
  pub close_ok :
      (f : File E) (p : Place C)
      → f.options.writable ≡ true
      → IsSynced f p
      → (close f p).0 ≡ ok tt
      → Stores (close f p).2 f.blobs × ((close f p).2.locked ≡ false)
  close_ok f p w s h =
      let (done, same, free) = close_parts f p w h in
      let (c, m, held, decoded, alike) = save-Stores f p s done in
      ((c, m, same ∙ held, decoded, alike), free)

module _ {C : Codec} {E : Engine} where
  -- A step that leaves the disk alone, and the entries too unless the manifest is dirty afterwards.
  IsSynced-step :
      (f f' : File E) (p p' : Place C)
      → IsSynced f p
      → p' ≡ p
      → (f'.dirty ≡ false → (f.dirty ≡ false) × (f'.blobs ≡ f.blobs))
      → IsSynced f' p'
  IsSynced-step f f' p p' s same kept = record {
    stored = λ clean.
        let (was, blobs) = kept clean in
        subst₂ (λ (q : Place C) (m : BlobMap). Stores q m) (sym same) (sym blobs) (s.stored was);
  }

  internal_add_blob_clean :
      (k : String) (info : BlobInfo) (f : File E) (p : Place C)
      → (internal_add_blob k info f p).1.dirty ≡ false
      → (f.dirty ≡ false) × ((internal_add_blob k info f p).1.blobs ≡ f.blobs)
  unfolding internal_add_blob save
  internal_add_blob_clean k info f p h = ground arith

  reset-place : (forget : Bool) (f : File E) (p : Place C) → (reset forget f p).2 ≡ p
  unfolding reset
  reset-place forget f p =
      let f' = record f {
        previous_blobs = if forget then [] else f.blobs;
        blobs = [];
        dirty = true;
      } in
      ground (arith, save_place f' p)

  reset_clean :
      (forget : Bool) (f : File E) (p : Place C)
      → (reset forget f p).1.dirty ≡ false
      → (f.dirty ≡ false) × ((reset forget f p).1.blobs ≡ f.blobs)
  unfolding reset save
  reset_clean forget f p h = ground arith

  pub reset-IsSynced :
      (forget : Bool) (f : File E) (p : Place C)
      → IsSynced f p
      → IsSynced (reset forget f p).1 (reset forget f p).2
  reset-IsSynced forget f p s =
      IsSynced-step f (reset forget f p).1 p (reset forget f p).2 s (reset-place forget f p)
        (reset_clean forget f p)

module _ {C : Codec} {E : Engine} (U : Urls) where
  get_blob_clean :
      (u : U.Url) (f : File E) (p : Place C)
      → (get_blob U u f p).1.dirty ≡ false
      → (f.dirty ≡ false) × ((get_blob U u f p).1.blobs ≡ f.blobs)
  unfolding get_blob internal_add_blob save
  get_blob_clean u f p h = ground arith

  add_blob_clean :
      (u : U.Url) (info : BlobInfo) (f : File E) (p : Place C)
      → (add_blob U u info f p).1.dirty ≡ false
      → (f.dirty ≡ false) × ((add_blob U u info f p).1.blobs ≡ f.blobs)
  unfolding add_blob
  add_blob_clean u info f p h = ground (arith, internal_add_blob_clean (U.redacted u) info f p)

  remove_entry_clean :
      (u : U.Url) (f : File E) (p : Place C)
      → (remove_entry U u f p).1.dirty ≡ false
      → (f.dirty ≡ false) × ((remove_entry U u f p).1.blobs ≡ f.blobs)
  unfolding remove_entry save
  remove_entry_clean u f p h = ground arith

  pub get_blob-IsSynced :
      (u : U.Url) (f : File E) (p : Place C)
      → IsSynced f p
      → IsSynced (get_blob U u f p).1 (get_blob U u f p).2
  get_blob-IsSynced u f p s =
      IsSynced-step f (get_blob U u f p).1 p (get_blob U u f p).2 s (get_blob-place U u f p)
        (get_blob_clean u f p)

  pub add_blob-IsSynced :
      (u : U.Url) (info : BlobInfo) (f : File E) (p : Place C)
      → IsSynced f p
      → IsSynced (add_blob U u info f p).1 (add_blob U u info f p).2
  add_blob-IsSynced u info f p s =
      IsSynced-step f (add_blob U u info f p).1 p (add_blob U u info f p).2 s
        (add_blob-place U u info f p) (add_blob_clean u info f p)

  pub remove_entry-IsSynced :
      (u : U.Url) (f : File E) (p : Place C)
      → IsSynced f p
      → IsSynced (remove_entry U u f p).1 (remove_entry U u f p).2
  remove_entry-IsSynced u f p s =
      IsSynced-step f (remove_entry U u f p).1 p (remove_entry U u f p).2 s
        (remove_entry-place U u f p) (remove_entry_clean u f p)
