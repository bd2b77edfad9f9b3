-- ===== src/Download/Asked.antt =====
-- What downloadImage asks for, and which manifest it chooses.
use htvend.Base.{
  ◌≡◌, refl, sym, ap, ◌∙◌, String, true, false, some, List, [], ◌∷◌, ◌++◌, arith, inl, inr,
  append_assoc, append-nil,
}
use htvend.Base.{All, Bytes, string_eq, list_eq, nat_eq, Option-cases, Bool-cases}
use htvend.Base.Error.{wrap, Result, ok, err}
use htvend.Platform.{Platform}
use htvend.Download.{
  ImageName, to_blob_url_with_digest, Descriptor, Runtime, chosen, choose_instance, Getter,
  pull_blob, ImageCodec, pull_layers, config_pulled, platform_manifest_pulled,
}

-- The digest is that of the first manifest that suits the platform.
pub record IsFirst (r : Runtime) (ms : List Descriptor) (d : String) : Type 0 where
  pub before : List Descriptor
  pub m : Descriptor
  pub after : List Descriptor
  pub list : ms ≡ before ++ (m ∷ after)
  pub unsuited : All (λ (x : Descriptor). chosen r x.platform ≡ false) before
  pub suited : chosen r m.platform ≡ true
  pub digest : m.digest ≡ d

-- If chooseInstance returns a digest, it is that of the first descriptor in the list that suits
-- the platform.
pub choose_instance-IsFirst :
    (r : Runtime) (ms : List Descriptor) (d : String) → choose_instance r ms ≡ ok d → IsFirst r ms d
unfolding choose_instance
choose_instance-IsFirst r [] d h = absurd (cc)
choose_instance-IsFirst r (m ∷ ms) d h = elim (Bool-cases (chosen r m.platform)) [
  | inl suits ↦ record {
    before = [];
    m = m;
    after = ms;
    list = refl;
    unsuited = tt;
    suited = suits;
    digest = ground arith;
  }
  | inr skipped ↦
      let k = choose_instance-IsFirst r ms d (ground arith) in
      record {
        before = m ∷ k.before;
        m = k.m;
        after = k.after;
        list = ap (λ (l : List Descriptor). m ∷ l) k.list;
        unsuited = (skipped, k.unsuited);
        suited = k.suited;
        digest = k.digest;
      }
]

module _ (P : Platform) (K : ImageCodec) (R : Runtime) (get : Getter) (img : ImageName) where
  abbrev pub blob_urls : List String → List String
  blob_urls [] = []
  blob_urls (l ∷ ls) = to_blob_url_with_digest img l ∷ blob_urls ls

  pull_layers_ok :
      (ls asked : List String)
      → (pull_layers P K R get img ls asked).0 ≡ ok tt
      → (pull_layers P K R get img ls asked).1 ≡ asked ++ blob_urls ls
  unfolding pull_layers pull_blob
  pull_layers_ok [] asked h = sym (append-nil asked)
  pull_layers_ok (l ∷ ls) asked h =
      go (pull_blob get (to_blob_url_with_digest img l) asked).0
        (pull_layers_ok ls (asked ++ (to_blob_url_with_digest img l ∷ []))) h
    where
      go :
          (r : Result (Unit {0}))
          → ((pull_layers P K R get img ls (asked ++ (to_blob_url_with_digest img l ∷ []))).0
                ≡ ok tt
              → (pull_layers P K R get img ls (asked ++ (to_blob_url_with_digest img l ∷ []))).1
                ≡ (asked ++ (to_blob_url_with_digest img l ∷ [])) ++ blob_urls ls)
          → (elim r as (λ _. Result (Unit {0}) × List String) [
            | ok _ ↦ pull_layers P K R get img ls (asked ++ (to_blob_url_with_digest img l ∷ []))
            | err e ↦
                (err (wrap "error pulling layer" e), asked ++ (to_blob_url_with_digest img l ∷ []))
          ]).0
            ≡ ok tt
          → (elim r as (λ _. Result (Unit {0}) × List String) [
            | ok _ ↦ pull_layers P K R get img ls (asked ++ (to_blob_url_with_digest img l ∷ []))
            | err e ↦
                (err (wrap "error pulling layer" e), asked ++ (to_blob_url_with_digest img l ∷ []))
          ]).1
            ≡ asked ++ blob_urls (l ∷ ls)
      go (ok _) rest h =
          rest h ∙ append_assoc asked (to_blob_url_with_digest img l ∷ []) (blob_urls ls)
      go (err e) rest h = absurd (cc)

  config_pulled_ok :
      (layers asked : List String) (r : Result (Unit {0}))
      → (config_pulled P K R get img layers (r, asked)).0 ≡ ok tt
      → (config_pulled P K R get img layers (r, asked)).1 ≡ asked ++ blob_urls layers
  unfolding config_pulled
  config_pulled_ok layers asked (err e) h = absurd (cc)
  config_pulled_ok layers asked (ok _) h = pull_layers_ok layers asked h

  -- The platform's manifest names a configuration and layers, and the blobs of all are asked for.
  pub record IsPulled (asked : List String) (x : Result Bytes) (o : List String) : Type 0 where
    pub bytes : Bytes
    pub config : String
    pub layers : List String
    pub pulled : x ≡ ok bytes
    pub parsed : K.parse_manifest bytes ≡ some (config, layers)
    pub log : o ≡ asked ++ blob_urls (config ∷ layers)

  pub platform_manifest_pulled-IsPulled :
      (x : Result Bytes) (asked : List String)
      → (platform_manifest_pulled P K R get img (x, asked)).0 ≡ ok tt
      → IsPulled asked x (platform_manifest_pulled P K R get img (x, asked)).1
  unfolding platform_manifest_pulled pull_blob
  platform_manifest_pulled-IsPulled (err e) asked h = absurd (cc)
  platform_manifest_pulled-IsPulled (ok bytes) asked h =
      elim (Option-cases (K.parse_manifest bytes)) [
        | inl bad ↦ absurd (ground arith)
        | inr ((config, layers), e) ↦
            let u = to_blob_url_with_digest img config in
            let opened : platform_manifest_pulled P K R get img (ok bytes, asked)
                ≡ config_pulled P K R get img layers (pull_blob get u asked) =
              rw (e, platform_manifest_pulled) refl in
            record {
              bytes = bytes;
              config = config;
              layers = layers;
              pulled = refl;
              parsed = e;
              log =
                  ap (λ (y : Result (Unit {0}) × List String). y.1) opened
                  ∙ config_pulled_ok layers (asked ++ (u ∷ [])) (pull_blob get u asked).0
                      (sym (ap (λ (y : Result (Unit {0}) × List String). y.0) opened) ∙ h)
                  ∙ append_assoc asked (u ∷ []) (blob_urls layers);
            }
      ]
