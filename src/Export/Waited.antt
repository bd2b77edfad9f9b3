-- ===== src/Export/Waited.antt =====
-- The jobs that an export queues, in whatever order they run.
use htvend.Base.{◌≡◌, ◌∙◌, none, some, List, [], inl, inr}
use htvend.Base.{Bytes, IsBytes, list_eq, nat_eq}
use htvend.Base.Error.{ok}
use htvend.Platform.{Platform, IsPlatform}
use htvend.Blobstore.{Store, IsLawful}
use htvend.Export.{export_job}
use htvend.Export.Exported.{IsPresent, ensure_blob_exported-IsExported}
use htvend.Jobs.{Waits}
use htvend.Jobs.Waited.{In, Waits_ok}

module _ {P : Platform} (LP : IsPlatform P) (S : Store) {D : Store} (L : IsLawful P D) where
  -- A key that is the digest of some bytes, and that the destination has.
  abbrev IsThere : Bytes → S.State × D.State → Type 0
  IsThere k (s, d) = IsBytes k → (k ≡ [] → ⊥) → (c : Bytes) × (L.view d k ≡ some c)

  IsThere-export_job :
      (j k : Bytes) (s : S.State × D.State) → IsThere k s → IsThere k (export_job S D j s).1
  unfolding export_job
  IsThere-export_job j k (s, d) there bytes some_key =
      let (c, held) = there bytes some_key in
      let k' = (ensure_blob_exported-IsExported LP S L j s d).grown.at_key k bytes in
      elim k' [ inl same ↦ (c, same ∙ held) | inr (x, new, _) ↦ (x, new) ]

  export_job-IsThere :
      (k : Bytes) (s : S.State × D.State)
      → (export_job S D k s).0 ≡ ok tt
      → IsThere k (export_job S D k s).1
  unfolding export_job IsPresent
  export_job-IsThere k (s, d) h bytes some_key =
      (ensure_blob_exported-IsExported LP S L k s d).present bytes some_key h

  -- The export jobs for some digests, in any order: if Wait returns nil, then the destination has
  -- a blob under each of these digests that is not empty.
  pub export_ok :
      (ks : List Bytes) (s s' : S.State) (d d' : D.State)
      → Waits (export_job S D) ks (s, d) none (s', d')
      → (k : Bytes) → In k ks
      → IsBytes k
      → (k ≡ [] → ⊥)
      → (c : Bytes) × (L.view d' k ≡ some c)
  export_ok ks s s' d d' r k i =
      Waits_ok (export_job S D) IsThere IsThere-export_job export_job-IsThere ks (s, d) (s', d') r k
        i
