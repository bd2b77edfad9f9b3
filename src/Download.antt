-- ===== src/Download.antt =====
-- cli/cmd/download-image/download_image_main.go: the image name, the URLs of a registry, the choice
-- of the platform's manifest, and downloadImage.
pub mod Asked
pub mod Downloaded
pub mod Images
use htvend.Base.{
  ◌==◌, ◌<>◌, ◌&&◌, ◌||◌, not, String, Bool, true, false, Option, none, some, List, [], ◌∷◌, ◌++◌,
}
use htvend.Base.{Bytes, concat, string_eq, list_eq, nat_eq, if◌then◌else◌}
use htvend.Base.Hex.{encode}
use htvend.Base.Error.{Error, message, wrap, Result, ok, err}
use htvend.Platform.{Platform}
use htvend.Stream.{Reader}
use htvend.Listener.{Response}

pub record ImageName : Type 0 where
  pub host : String
  pub org : String
  pub name : String
  pub tag : String

-- ToManifestURL
unfoldable pub to_manifest_url : ImageName → String
to_manifest_url i =
    "https://" <> i.host <> "/v2/" <> i.org <> "/" <> i.name <> "/manifests/" <> i.tag

-- ToManifestUrlWithKey
unfoldable pub to_manifest_url_with_key : ImageName → Bytes → String
to_manifest_url_with_key i key =
    "https://" <> i.host <> "/v2/" <> i.org <> "/" <> i.name <> "/manifests/sha256:" <> encode key

-- ToManifestUrlWithDigest
unfoldable pub to_manifest_url_with_digest : ImageName → String → String
to_manifest_url_with_digest i digest =
    "https://" <> i.host <> "/v2/" <> i.org <> "/" <> i.name <> "/manifests/" <> digest

-- ToBlobUrlWithDigest
unfoldable pub to_blob_url_with_digest : ImageName → String → String
to_blob_url_with_digest i digest =
    "https://" <> i.host <> "/v2/" <> i.org <> "/" <> i.name <> "/blobs/" <> digest

-- What chooseInstance reads of an imgspecv1.Descriptor and of its Platform.
pub record OciPlatform : Type 0 where
  pub os : String
  pub architecture : String
  pub variant : String

pub record Descriptor : Type 0 where
  pub digest : String
  pub platform : Option OciPlatform

-- runtime.GOOS and runtime.GOARCH
pub record Runtime : Type 0 where
  pub goos : String
  pub goarch : String

unfoldable pub want_variant : Runtime → String
want_variant r = if r.goarch == "arm" then "v7" else ""

-- Whether the loop of chooseInstance returns at this descriptor, and does not `continue`.
unfoldable pub chosen : Runtime → Option OciPlatform → Bool
unfolding want_variant
chosen r none = false
chosen r (some p) =
    if not (p.os == r.goos) || not (p.architecture == r.goarch)
    then false
    else not
        (not (want_variant r == "") && not (p.variant == "") && not (p.variant == want_variant r))

-- chooseInstance
unfoldable pub choose_instance : Runtime → List Descriptor → Result String
choose_instance r [] = err (message ("no image found for " <> r.goos <> "/" <> r.goarch))
choose_instance r (m ∷ ms) =
    let rest = choose_instance r ms in if chosen r m.platform then ok m.digest else rest

-- The client as the program uses it here: client.Get. What follows keeps the URLs that were asked
-- for, the oldest first.
abbrev pub Getter : Type 0
Getter = String → Result Response

-- pullManifest: the bytes
unfoldable pub pull_manifest : Getter → String → List String → Result Bytes × List String
pull_manifest get url asked = (
  elim (get url) [
    | err e ↦ err (wrap "error in GET" e)
    | ok resp ↦ elim resp.body.broken [ none ↦ ok (concat resp.body.chunks) | some e ↦ err e ]
  ],
  asked ++ (url ∷ []),
)

-- pullBlob
unfoldable pub pull_blob : Getter → String → List String → Result (Unit {0}) × List String
pull_blob get url asked = (
  elim (get url) [
    | err e ↦ err (wrap "error in GET" e)
    | ok resp ↦ elim resp.body.broken [ none ↦ ok tt | some e ↦ err e ]
  ],
  asked ++ (url ∷ []),
)

-- Package encoding/json on an imgspecv1.Index, as its manifests, and on an imgspecv1.Manifest, as the
-- digests of its configuration and of its layers.
pub record ImageCodec : Type 0 where
  pub parse_index : Bytes → Option (List Descriptor)
  pub parse_manifest : Bytes → Option (String × List String)

module _ (P : Platform) (K : ImageCodec) (R : Runtime) (get : Getter) (img : ImageName) where
  -- The loop over the layers.
  unfoldable pub pull_layers : List String → List String → Result (Unit {0}) × List String
  pull_layers [] asked = (ok tt, asked)
  pull_layers (l ∷ ls) asked =
      let (r, asked') = pull_blob get (to_blob_url_with_digest img l) asked in
      elim r [ ok _ ↦ pull_layers ls asked' | err e ↦ (err (wrap "error pulling layer" e), asked') ]

  unfoldable pub config_pulled :
      List String → Result (Unit {0}) × List String → Result (Unit {0}) × List String
  unfolding pull_layers
  config_pulled layers (err e, asked) = (err (wrap "error pulling config" e), asked)
  config_pulled layers (ok _, asked) = pull_layers layers asked

  unfoldable pub platform_manifest_pulled :
      Result Bytes × List String → Result (Unit {0}) × List String
  unfolding config_pulled
  platform_manifest_pulled (err e, asked) =
      (err (wrap "can't pull actual platform manifest" e), asked)
  platform_manifest_pulled (ok bytes, asked) = elim (K.parse_manifest bytes) [
    | none ↦ (err (message "can't parse platform manifest"), asked)
    | some (config, layers) ↦
        config_pulled layers (pull_blob get (to_blob_url_with_digest img config) asked)
  ]

  unfoldable pub instance_chosen : Result String → List String → Result (Unit {0}) × List String
  unfolding platform_manifest_pulled
  instance_chosen (err e) asked = (err (wrap "error choosing operating system digest" e), asked)
  instance_chosen (ok digest) asked =
      platform_manifest_pulled (pull_manifest get (to_manifest_url_with_digest img digest) asked)

  unfoldable pub pulled_by_sha :
      Bytes → Result Bytes × List String → Result (Unit {0}) × List String
  unfolding instance_chosen
  pulled_by_sha by_tag (err e, asked) = (err (wrap "error pulling manifest by tag" e), asked)
  pulled_by_sha by_tag (ok by_sha, asked) =
      if not (by_tag == by_sha)
      then (err (message "that's weird, manifest changed!"), asked)
      else elim (K.parse_index by_sha) [
        | none ↦ (err (message "error parsing manifest list"), asked)
        | some manifests ↦ instance_chosen (choose_instance R manifests) asked
      ]

  unfoldable pub pulled_by_tag : Result Bytes × List String → Result (Unit {0}) × List String
  unfolding pulled_by_sha
  pulled_by_tag (err e, asked) = (err (wrap "error pulling manifest by tag" e), asked)
  pulled_by_tag (ok by_tag, asked) =
      pulled_by_sha by_tag
        (pull_manifest get (to_manifest_url_with_key img (P.sha256 by_tag)) asked)

-- Package strings: strings.Split(s, sep)
abbrev pub Split : Type 0
Split = String → String → List String

unfoldable pub public_host : ImageName → ImageName
public_host rv = if rv.host == "docker.io" then record rv { host = "registry-1.docker.io" } else rv

-- The second switch of NewImageName, on the parts between the colons.
unfoldable pub image_bits : String → ImageName → List String → Result ImageName
unfolding public_host
image_bits ref rv (name ∷ []) = ok (public_host (record rv { name = name }))
image_bits ref rv (name ∷ tag ∷ []) = ok (public_host (record rv { name = name; tag = tag }))
image_bits ref rv _ = err (message ("unexpected name format: " <> ref))

abbrev pub default_name : ImageName
default_name = record { host = "docker.io"; org = "library"; name = ""; tag = "latest" }

-- The first switch of NewImageName, on the parts between the slashes.
unfoldable pub ref_bits : Split → String → List String → Result ImageName
unfolding image_bits
ref_bits split ref (img ∷ []) = image_bits ref default_name (split img ":")
ref_bits split ref (org ∷ img ∷ []) =
    image_bits ref (record default_name { org = org }) (split img ":")
ref_bits split ref (host ∷ org ∷ img ∷ []) =
    image_bits ref (record default_name { host = host; org = org }) (split img ":")
ref_bits split ref _ = err (message ("unexpected name format: " <> ref))

-- NewImageName
unfoldable pub new_image_name : Split → String → Result ImageName
unfolding ref_bits
new_image_name split ref = ref_bits split ref (split ref "/")

module _ (split : Split) (P : Platform) (K : ImageCodec) (R : Runtime) (get : Getter) where
  unfoldable pub name_parsed : Result ImageName → Result (Unit {0}) × List String
  unfolding pulled_by_tag
  name_parsed (err e) = (err (wrap "error parsing name" e), [])
  name_parsed (ok img) = pulled_by_tag P K R get img (pull_manifest get (to_manifest_url img) [])

  -- downloadImage
  unfoldable pub download_image : String → Result (Unit {0}) × List String
  unfolding name_parsed
  download_image name = name_parsed (new_image_name split name)
