-- ===== src/Export/Needed.antt =====
-- The digests that Execute collects from the manifest before it queues the jobs.
use htvend.Base.{◌≡◌, sym, subst, ap, ◌∙◌, ◌==◌, String, true, some, List, [], ◌∷◌, arith, inl, inr}
use htvend.Base.{Bytes, contains, string_eq, ==_refl, Bool-cases, Option-cases}
use htvend.Base.Dict.{lookup}
use htvend.Base.Hex.{encode, decode}
use htvend.Base.Error.{Result, ok}
use htvend.Re.{Engine}
use htvend.Lockfile.{BlobInfo, BlobMap, File, Urls}
use htvend.Lockfile.Ops.{visit, for_each}
use htvend.Verify.Sound.{visit-cons}
use htvend.Export.{need}

module _ (U : Urls) where
  -- A digest that is collected, in canonical hex.
  abbrev pub IsNeeded : BlobInfo → List String → Type 0
  IsNeeded v needed = (h : Bytes) × (decode v.sha256 ≡ some h) × (contains needed (encode h) ≡ true)

  need_keeps :
      (u : U.Url) (v : BlobInfo) (needed : List String) (x : String)
      → contains needed x ≡ true
      → contains (need U u v needed).1 x ≡ true
  unfolding need
  need_keeps u v needed x h = ground arith

  need-IsNeeded :
      (u : U.Url) (v : BlobInfo) (needed : List String)
      → (need U u v needed).0 ≡ ok tt
      → IsNeeded v (need U u v needed).1
  unfolding need
  need-IsNeeded u v needed h = elim (Option-cases (decode v.sha256)) [
    | inl bad ↦ absurd (ground arith)
    | inr (k, e) ↦ elim (Bool-cases (contains needed (encode k))) [
      | inl old ↦ (k, e, ground arith)
      | inr new ↦ (k, e, ground (arith, ==_refl (encode k)))
    ]
  ]

  visit_keeps :
      (m : BlobMap) (needed : List String) (x : String)
      → (visit U (need U) m needed).0 ≡ ok tt
      → contains needed x ≡ true
      → contains (visit U (need U) m needed).1 x ≡ true
  unfolding visit
  visit_keeps [] needed x h c = c
  visit_keeps ((k, v) ∷ m) needed x h c =
      let (u, fine, same) = visit-cons U (need U) k v m needed h in
      let next = (need U u v needed).1 in
      ap (λ (y : Result (Unit {0}) × List String). contains y.1 x) same
      ∙ visit_keeps m next x (sym (ap (λ (y : Result (Unit {0}) × List String). y.0) same) ∙ h)
          (need_keeps u v needed x c)

  visit-IsNeeded :
      (m : BlobMap) (needed : List String)
      → (visit U (need U) m needed).0 ≡ ok tt
      → (k : String) (v : BlobInfo) → lookup k m ≡ some v
      → IsNeeded v (visit U (need U) m needed).1
  unfolding lookup
  visit-IsNeeded [] needed h k v e = absurd (cc)
  visit-IsNeeded ((j, w) ∷ m) needed h k v e =
      let (u, fine, same) = visit-cons U (need U) j w m needed h in
      let next = (need U u w needed).1 in
      let tail = sym (ap (λ (y : Result (Unit {0}) × List String). y.0) same) ∙ h in
      subst (λ (y : Result (Unit {0}) × List String). IsNeeded v y.1) (sym same)
        (elim (Bool-cases (k == j)) [
          | inl here ↦
              let (d, decoded, listed) = need-IsNeeded u w needed fine in
              let found : w ≡ v = ground arith in
              (
                d,
                ap (λ (i : BlobInfo). decode i.sha256) (sym found) ∙ decoded,
                visit_keeps m next (encode d) tail listed,
              )
          | inr other ↦ visit-IsNeeded m next tail k v (ground arith)
        ])

  -- If the ForEach of an export returns nil, then the digest of every entry of the manifest is among
  -- those that are collected, in lower-case hex.
  pub for_each-IsNeeded :
      {E : Engine} (f : File E)
      → (for_each U (need U) f []).0 ≡ ok tt
      → (k : String) (v : BlobInfo) → lookup k f.blobs ≡ some v
      → IsNeeded v (for_each U (need U) f []).1
  unfolding for_each
  for_each-IsNeeded f h k v e = visit-IsNeeded f.blobs [] h k v e
