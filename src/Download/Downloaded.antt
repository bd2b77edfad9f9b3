-- ===== src/Download/Downloaded.antt =====
-- downloadImage as a whole: the order of its requests.
use htvend.Base.{
  none, concat, ◌≡◌, refl, sym, subst, ap, ◌∙◌, ◌==◌, String, some, List, [], ◌∷◌, arith, inl, inr,
}
use htvend.Base.{Bytes, string_eq, list_eq, nat_eq, ==_sound, Option-cases, Bool-cases}
use htvend.Base.Error.{Result, ok, err, Result-cases}
use htvend.Listener.{Response}
use htvend.Platform.{Platform}
use htvend.Download.{
  ImageName, to_manifest_url, to_manifest_url_with_key, to_manifest_url_with_digest, Descriptor,
  Runtime, choose_instance, Getter, pull_manifest, ImageCodec, instance_chosen, pulled_by_sha,
  pulled_by_tag, Split, new_image_name, name_parsed, download_image,
}
use htvend.Download.Asked.{
  IsFirst, choose_instance-IsFirst, blob_urls, platform_manifest_pulled-IsPulled,
}

-- The URL was answered with a body that ends, of these bytes.
pub record Answers (get : Getter) (url : String) (b : Bytes) : Type 0 where
  pub resp : Response
  pub answer : get url ≡ ok resp
  pub whole : resp.body.broken ≡ none
  pub bytes : concat resp.body.chunks ≡ b

pull_manifest_ok :
    (get : Getter) (url : String) (asked : List String) (b : Bytes)
    → (pull_manifest get url asked).0 ≡ ok b
    → Answers get url b
unfolding pull_manifest
pull_manifest_ok get url asked b h = elim (Result-cases (get url)) [
  | inr (e, bad) ↦ absurd (let q = rw (bad, pull_manifest) at h in cc)
  | inl (resp, good) ↦ elim (Option-cases resp.body.broken) [
    | inr (e, broken) ↦ absurd (let q = rw (good, broken, pull_manifest) at h in cc)
    | inl whole ↦
        let q = rw (good, whole, pull_manifest) at h in
        record { resp = resp; answer = good; whole = whole; bytes = cc }
  ]
]

-- All that an image needs was asked for, and the answers tie it together: the index by tag, the same
-- index by its digest, the manifest of the first descriptor for the platform that the index lists,
-- and the blobs of the configuration and of every layer that this manifest names, in this order.
pub record IsDownloaded (P : Platform) (K : ImageCodec) (R : Runtime) (get : Getter)
    (img : ImageName) (log : List String) : Type 0 where
  pub index : Bytes
  pub manifests : List Descriptor
  pub digest : String
  pub manifest : Bytes
  pub config : String
  pub layers : List String
  pub by_tag : Answers get (to_manifest_url img) index
  pub by_key : Answers get (to_manifest_url_with_key img (P.sha256 index)) index
  pub parsed : K.parse_index index ≡ some manifests
  pub first : IsFirst R manifests digest
  pub by_digest : Answers get (to_manifest_url_with_digest img digest) manifest
  pub named : K.parse_manifest manifest ≡ some (config, layers)
  pub asked : log ≡ (
      to_manifest_url img
      ∷ to_manifest_url_with_key img (P.sha256 index)
      ∷ to_manifest_url_with_digest img digest
      ∷ blob_urls P K R get img (config ∷ layers))

module _ (P : Platform) (K : ImageCodec) (R : Runtime) (get : Getter) (img : ImageName) where
  instance_chosen_ok :
      (index : Bytes) (manifests : List Descriptor)
      → Answers get (to_manifest_url img) index
      → Answers get (to_manifest_url_with_key img (P.sha256 index)) index
      → K.parse_index index ≡ some manifests
      → (x : Result String) → choose_instance R manifests ≡ x
      → let log = to_manifest_url img ∷ to_manifest_url_with_key img (P.sha256 index) ∷ [] in
        (instance_chosen P K R get img x log).0 ≡ ok tt
        → IsDownloaded P K R get img (instance_chosen P K R get img x log).1
  unfolding instance_chosen pull_manifest
  instance_chosen_ok index manifests tag key e (err x) c h = absurd (cc)
  instance_chosen_ok index manifests tag key e (ok digest) c h =
      let start = to_manifest_url img ∷ to_manifest_url_with_key img (P.sha256 index) ∷ [] in
      let (x, asked) = pull_manifest get (to_manifest_url_with_digest img digest) start in
      let k = platform_manifest_pulled-IsPulled P K R get img x asked h in
      record {
        index = index;
        manifests = manifests;
        digest = digest;
        manifest = k.bytes;
        config = k.config;
        layers = k.layers;
        by_tag = tag;
        by_key = key;
        parsed = e;
        first = choose_instance-IsFirst R manifests digest c;
        by_digest =
            pull_manifest_ok get (to_manifest_url_with_digest img digest) start k.bytes k.pulled;
        named = k.parsed;
        asked = k.log;
      }

  pulled_by_sha_ok :
      (by_tag : Bytes) (x : Result Bytes)
      → Answers get (to_manifest_url img) by_tag
      → ((b : Bytes) → x ≡ ok b → Answers get (to_manifest_url_with_key img (P.sha256 by_tag)) b)
      → let log = to_manifest_url img ∷ to_manifest_url_with_key img (P.sha256 by_tag) ∷ [] in
        (pulled_by_sha P K R get img by_tag (x, log)).0 ≡ ok tt
        → IsDownloaded P K R get img (pulled_by_sha P K R get img by_tag (x, log)).1
  unfolding pulled_by_sha
  pulled_by_sha_ok by_tag (err x) tag key h = absurd (cc)
  pulled_by_sha_ok by_tag (ok by_sha) tag key h =
      let log = to_manifest_url img ∷ to_manifest_url_with_key img (P.sha256 by_tag) ∷ [] in
      elim (Bool-cases (by_tag == by_sha)) [
        | inr changed ↦ absurd (ground arith)
        | inl same ↦ elim (Option-cases (K.parse_index by_sha)) [
          | inl bad ↦ absurd (ground arith)
          | inr (manifests, e) ↦
              let opened : pulled_by_sha P K R get img by_tag (ok by_sha, log)
                  ≡ instance_chosen P K R get img (choose_instance R manifests) log =
                rw (same, e, pulled_by_sha) refl in
              subst (IsDownloaded P K R get img)
                (sym (ap (λ (y : Result (Unit {0}) × List String). y.1) opened))
                (instance_chosen_ok by_tag manifests tag
                  (subst (Answers get (to_manifest_url_with_key img (P.sha256 by_tag)))
                    (sym (==_sound by_tag by_sha same)) (key by_sha refl))
                  (ap K.parse_index (==_sound by_tag by_sha same) ∙ e) (choose_instance R manifests)
                  refl (sym (ap (λ (y : Result (Unit {0}) × List String). y.0) opened) ∙ h))
        ]
      ]

  pulled_by_tag_ok :
      (x : Result Bytes)
      → ((b : Bytes) → x ≡ ok b → Answers get (to_manifest_url img) b)
      → (pulled_by_tag P K R get img (x, to_manifest_url img ∷ [])).0 ≡ ok tt
      → IsDownloaded P K R get img (pulled_by_tag P K R get img (x, to_manifest_url img ∷ [])).1
  unfolding pulled_by_tag pull_manifest
  pulled_by_tag_ok (err x) tag h = absurd (cc)
  pulled_by_tag_ok (ok by_tag) tag h =
      pulled_by_sha_ok by_tag
        (pull_manifest get (to_manifest_url_with_key img (P.sha256 by_tag))
          (to_manifest_url img ∷ [])).0
        (tag by_tag refl)
        (λ b e.
          pull_manifest_ok get (to_manifest_url_with_key img (P.sha256 by_tag))
            (to_manifest_url img ∷ []) b e)
        h

module _ (split : Split) (P : Platform) (K : ImageCodec) (R : Runtime) (get : Getter) where
  name_parsed_ok :
      (x : Result ImageName)
      → (name_parsed split P K R get x).0 ≡ ok tt
      → (img : ImageName) × (x ≡ ok img)
        × IsDownloaded P K R get img (name_parsed split P K R get x).1
  unfolding name_parsed pull_manifest
  name_parsed_ok (err e) h = absurd (cc)
  name_parsed_ok (ok img) h = (
    img,
    refl,
    pulled_by_tag_ok P K R get img (pull_manifest get (to_manifest_url img) []).0
        (λ b e. pull_manifest_ok get (to_manifest_url img) [] b e) h,
  )

  -- If downloadImage returns nil, then the name was parsed, and it has asked for the index by tag,
  -- the same index by its digest, the manifest of the first descriptor for the platform, and the
  -- blobs of the configuration and of each layer that this manifest names, in this order and
  -- nothing else.
  pub download_image-IsDownloaded :
      (name : String)
      → (download_image split P K R get name).0 ≡ ok tt
      → (img : ImageName) × (new_image_name split name ≡ ok img)
        × IsDownloaded P K R get img (download_image split P K R get name).1
  unfolding download_image
  download_image-IsDownloaded name h = name_parsed_ok (new_image_name split name) h
