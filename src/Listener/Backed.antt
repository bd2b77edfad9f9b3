-- ===== src/Listener/Backed.antt =====
-- Entries of the manifest that the store backs, and what recording one does to them.
use htvend.Base.{
  ◌≡◌, refl, sym, subst, ◌∙◌, ◌==◌, String, Bool, Option, none, some, List, [], inl, inr,
}
use htvend.Base.{
  Bytes, IsBytes, string_eq, Bool-cases, if_both, ==_refl, some-injective, if◌then◌else◌,
}
use htvend.Base.Dict.{lookup}
use htvend.Base.Hex.{encode, decode-encode}
use htvend.Base.Error.{Result, ok, err}
use htvend.Platform.{Platform, IsPlatform}
use htvend.Lockfile.{BlobInfo, BlobMap, blob_equals, Codec, File, Place, Urls}
use htvend.Lockfile.Ops.{add_blob}
use htvend.Lockfile.Laws.{merged, lookup-add_blob, add_blob-previous_blobs}
use htvend.Re.{Engine, matches}
use htvend.Blobstore.{Store, IsLawful}
use htvend.Blobstore.Growth.{Grows, Grows-trans, Grows-commit, IsBacked, IsBacked-Grows}
use htvend.Listener.{Headers, Site, filter_headers}
use htvend.Listener.Fetch.{Copying, recorded, commit_copied}
use htvend.Listener.Copied.{IsCopying}

module _ {P : Platform} {S : Store} (L : IsLawful P S) where
  -- Every entry of the map names a blob that the store holds.
  pub record IsMapBacked (s : S.State) (m : BlobMap) : Type 0 where
    pub entry : (k : String) (v : BlobInfo) → lookup k m ≡ some v → IsBacked L s v.sha256

  pub IsMapBacked-Grows :
      (s s' : S.State) (m : BlobMap) → Grows L s s' → IsMapBacked s m → IsMapBacked s' m
  IsMapBacked-Grows s s' m g b = record {
    entry = λ k v h. IsBacked-Grows L s s' v.sha256 g (b.entry k v h);
  }

  -- So do the entries of this run and of the previous run.
  pub record IsSiteBacked {C : Codec} {E : Engine} (site : Site C E S) : Type 0 where
    pub blobs : IsMapBacked site.blobs site.assets.blobs
    pub previous : IsMapBacked site.blobs site.assets.previous_blobs

  merged-IsBacked :
      (overwrite : Bool) (s : S.State) (info : BlobInfo) (old : Option BlobInfo)
      → ((v : BlobInfo) → old ≡ some v → IsBacked L s v.sha256)
      → IsBacked L s info.sha256
      → IsBacked L s (merged overwrite info old).sha256
  merged-IsBacked overwrite s info none h b = b
  merged-IsBacked overwrite s info (some v) h b =
      if_both (λ (w : BlobInfo). IsBacked L s w.sha256) (blob_equals v info) v
        (if overwrite then info else v) (h v refl)
        (if_both (λ (w : BlobInfo). IsBacked L s w.sha256) overwrite info v b (h v refl))

  module _ {C : Codec} {E : Engine} (U : Urls) where
    add_blob-IsMapBacked :
        (u : U.Url) (info : BlobInfo) (f : File E) (p : Place C) (s : S.State)
        → IsMapBacked s f.blobs
        → IsBacked L s info.sha256
        → IsMapBacked s (add_blob U u info f p).1.blobs
    add_blob-IsMapBacked u info f p s h b = record {
      entry = λ k v e.
          let j = U.redacted u in
          let old = lookup j f.blobs in
          let new = merged f.options.allow_overwrite info old in
          let e' = sym (lookup-add_blob U u k info f p) ∙ e in
          elim (Bool-cases (matches E f.options.no_cache j)) [
            | inl skip ↦ h.entry k v (rw skip at e')
            | inr take_it ↦ elim (Bool-cases (k == j)) [
              | inl here ↦
                  subst (λ (w : BlobInfo). IsBacked L s w.sha256)
                    (some-injective new v (rw (take_it, here) at e'))
                    (merged-IsBacked f.options.allow_overwrite s info old (λ w. h.entry j w) b)
              | inr other ↦ h.entry k v (rw (take_it, other) at e')
            ]
          ];
    }

    -- Once the body is in the blob, or the copy has failed: the store has only grown, and the
    -- manifest is backed by it.
    pub record IsRecorded (s0 : S.State) (f0 : File E)
        (o : Result (Unit {0}) × Copying S × File E × Place C) : Type 0 where
      pub live : L.IsLive o.1.blob
      pub grown : Grows L s0 o.1.state
      pub blobs : IsMapBacked o.1.state o.2.blobs
      pub previous : o.2.previous_blobs ≡ f0.previous_blobs

module _ {P : Platform} (LP : IsPlatform P) {S : Store} (L : IsLawful P S) where
  pub committed-IsBacked :
      (b : S.Blob) (s : S.State) (c d : Bytes)
      → L.IsLive b
      → L.Holds b s c
      → (S.commit b s).0 ≡ ok d
      → IsBacked L (S.commit b s).2 (encode d)
  committed-IsBacked b s c d live held e =
      let (digest, _) = L.commit_ok b s c d [] tt live held e in
      let bytes = subst IsBytes (sym digest) (LP.sha256_bytes c) in
      let (_, view) = L.commit_ok b s c d d bytes live held e in
      record {
        key = d;
        content = c;
        decoded = decode-encode d bytes;
        bytes = bytes;
        held = rw ==_refl at view;
        digest = sym digest;
      }

  module _ {C : Codec} {E : Engine} (U : Urls) (headers_to_cache : List String) where
    pub recorded-IsRecorded :
        (u : U.Url) (header : Headers) (d : Result Bytes) (c : Copying S) (f : File E) (p : Place C)
        (s0 : S.State)
        → IsCopying L s0 c
        → IsMapBacked L s0 f.blobs
        → ((k : Bytes) → d ≡ ok k → IsBacked L c.state (encode k))
        → IsRecorded L U s0 f
            (let (r, f', p') = recorded U headers_to_cache u header d f p in (r, c, f', p'))
    unfolding recorded
    recorded-IsRecorded u header (err e) c f p s0 k m h = record {
      live = k.live;
      grown = k.grown;
      blobs = IsMapBacked-Grows L s0 c.state f.blobs k.grown m;
      previous = refl;
    }
    recorded-IsRecorded u header (ok d) c f p s0 k m h =
        let info : BlobInfo = record {
          sha256 = encode d;
          headers = filter_headers headers_to_cache header;
        } in
        record {
          live = k.live;
          grown = k.grown;
          blobs =
              add_blob-IsMapBacked L U u info f p c.state
                (IsMapBacked-Grows L s0 c.state f.blobs k.grown m) (h d refl);
          previous = add_blob-previous_blobs U u info f p;
        }

    pub commit_copied-IsRecorded :
        (u : U.Url) (header : Headers) (r : Result (Unit {0})) (c : Copying S) (f : File E)
        (p : Place C) (s0 : S.State) (b : Bytes)
        → IsCopying L s0 c
        → (r ≡ ok tt → L.Holds c.blob c.state b)
        → IsMapBacked L s0 f.blobs
        → IsRecorded L U s0 f (commit_copied U headers_to_cache u header (r, c) f p)
    unfolding commit_copied
    commit_copied-IsRecorded u header (err e) c f p s0 b k held m = record {
      live = k.live;
      grown = k.grown;
      blobs = IsMapBacked-Grows L s0 c.state f.blobs k.grown m;
      previous = refl;
    }
    commit_copied-IsRecorded u header (ok _) c f p s0 b k held m =
        let (d, b', s') = S.commit c.blob c.state in
        recorded-IsRecorded u header d (record c { blob = b'; state = s' }) f p s0
          (record {
            live = L.commit_live c.blob c.state k.live;
            grown =
                Grows-trans L s0 c.state s' k.grown
                  (Grows-commit L c.blob c.state b k.live (held refl));
          })
          m (λ x e. committed-IsBacked c.blob c.state b x k.live (held refl) e)
