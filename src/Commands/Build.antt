-- ===== src/Commands/Build.antt =====
-- BuildCommand.Execute: the manifest and the blobs that it leaves.
use htvend.Base.{◌≡◌, refl, sym, subst, ap, ◌∙◌, inl, inr, String, true, false, some, []}
use htvend.Base.{string_eq, if_both, Option-cases}
use htvend.Base.Dict.{lookup, lookup-nil}
use htvend.Base.Error.{Result, ok, err}
use htvend.Platform.{Platform, IsPlatform}
use htvend.Re.{Engine}
use htvend.Lockfile.{BlobInfo, BlobMap, Codec, File, Place, Outcome, returns, panics, Urls}
use htvend.Lockfile.Ops.{reset}
use htvend.Lockfile.Laws.{SameInfo}
use htvend.Lockfile.Saved.{IsCodec, IsSynced, reset-IsSynced}
use htvend.Lockfile.Opened.{new_map_file-IsFresh, new_map_file-blobs}
use htvend.Blobstore.{Store, IsLawful}
use htvend.Blobstore.Growth.{IsBacked}
use htvend.Listener.{Client, Site, ListenerCtx}
use htvend.Listener.Backed.{IsMapBacked, IsSiteBacked}
use htvend.Commands.{ManifestOptions, ManifestContextOptions, Surroundings, make_manifest_file}
use htvend.Commands.Run.{
  Traffic, run_listener_with_subprocess, BuildCommand, closed, with_manifest, build_session,
  build_running, Running, build_in, build_ctx,
}
use htvend.Commands.Run.{listened}
use htvend.Commands.Session.{
  serve_all_keeps, serve_all-IsSiteBacked, IsOpen, IsOpen-IsKept, reset_entries,
  make_manifest_file_ok, closed_ok,
}

-- The disk holds a manifest whose entries the store backs.
abbrev pub IsPublished :
    {P : Platform} {C : Codec} {S : Store} → IsLawful P S → Place C → S.State → Type 0
IsPublished {C = C} L p s =
    (c : C.Content) × (m : BlobMap) × (p.content ≡ some c)
    × (C.unmarshal c ≡ some m)
    × IsMapBacked L s m

module _ {P : Platform} {S : Store} (L : IsLawful P S) where
  IsMapBacked-SameInfo :
      (s : S.State) (m m' : BlobMap)
      → ((k : String) → SameInfo (lookup k m') (lookup k m))
      → IsMapBacked L s m
      → IsMapBacked L s m'
  IsMapBacked-SameInfo s m m' same b = record {
    entry = λ k v e. elim (Option-cases (lookup k m)) [
      | inl absent ↦ absurd (rw (e, absent) at (same k))
      | inr (x, hit) ↦
          let (digest, _) = rw (e, hit) at (same k) in
          subst (IsBacked L s) (sym digest) (b.entry k x hit)
    ];
  }

  empty-IsMapBacked : (s : S.State) → IsMapBacked L s []
  empty-IsMapBacked s = record {
    entry = λ k v e. absurd (let q = lookup-nil {V = BlobInfo} k in cc);
  }

-- Backed entries, in an open manifest.
abbrev pub IsGood :
    {P : Platform} {C : Codec} {E : Engine} {S : Store} → IsLawful P S → Site C E S → Type 0
IsGood L site = IsSiteBacked L site × IsOpen site.assets site.place

module _ {P : Platform} {C : Codec} {E : Engine} {S : Store} (L : IsLawful P S) (X : Surroundings)
    (run : Running C E S)
    (keeps : (lctx : ListenerCtx E) (site : Site C E S)
      → IsGood L site
      → IsGood L (run lctx site).1) where
  listened-IsGood :
      (rc : BuildCommand) (r : Result (Unit {0})) (f : File E) (p : Place C) (s : S.State)
      → IsGood L (record { assets = f; place = p; blobs = s })
      → IsGood L (listened E X S run rc (r, f, p) s).1
  unfolding listened
  listened-IsGood rc (err e) f p s q = q
  listened-IsGood rc (ok _) f p s q =
      keeps (build_ctx X rc) (record { assets = f; place = p; blobs = s }) q

  build_session-IsGood :
      (rc : BuildCommand) (f : File E) (p : Place C) (s : S.State)
      → IsMapBacked L s f.blobs
      → IsOpen f p
      → IsGood L (build_session E X S run rc (record { assets = f; place = p; blobs = s })).1
  unfolding build_session
  build_session-IsGood rc f p s b (w, q) =
      let (r, f', p') = reset rc.force_refresh f p in
      let (blobs, previous, options) = reset_entries rc.force_refresh f p in
      listened-IsGood rc r f' p' s (
        record {
          blobs = rw blobs (empty-IsMapBacked L s);
          previous =
              rw previous
                (if_both (IsMapBacked L s) rc.force_refresh [] f.blobs (empty-IsMapBacked L s) b);
        },
        (ap (λ o. o.writable) options ∙ w, reset-IsSynced rc.force_refresh f p q),
      )

  with_manifest_ok :
      (K : IsCodec C) (rc : BuildCommand) (x : Outcome (Result (File E))) (p : Place C)
      (s : S.State)
      → ((f : File E) → x ≡ returns (ok f) → IsMapBacked L s f.blobs × IsOpen f p)
      → (with_manifest (x, p) s (build_session E X S run rc)).0 ≡ returns (ok tt)
      → let (_, p', s') = with_manifest (x, p) s (build_session E X S run rc) in
        IsPublished L p' s' × (p'.locked ≡ false)
  unfolding with_manifest closed build_session
  with_manifest_ok K rc panics p s good h = absurd (cc)
  with_manifest_ok K rc (returns (err e)) p s good h = absurd (cc)
  with_manifest_ok K rc (returns (ok f)) p s good h =
      let (b, q) = good f refl in
      let (r, site) = build_session E X S run rc (record { assets = f; place = p; blobs = s }) in
      let (backed, opened) = build_session-IsGood rc f p s b q in
      let (_, (c, m, held, decoded, same), free) = closed_ok K r site opened h in
      (
        (
          c,
          m,
          held,
          decoded,
          IsMapBacked-SameInfo L site.blobs site.assets.blobs m same backed.blobs,
        ),
        free,
      )

  opened :
      (o : ManifestOptions) (opts : ManifestContextOptions) (p : Place C) (s : S.State) (f : File E)
      → opts.writable ≡ true
      → ((c : C.Content) (m : BlobMap)
          → p.content ≡ some c
          → C.unmarshal c ≡ some m
          → IsMapBacked L s m)
      → (make_manifest_file E o opts p).0 ≡ returns (ok f)
      → IsMapBacked L s f.blobs × IsOpen f (make_manifest_file E o opts p).1
  opened o opts p s f w old h =
      let (m, writable, made, same) = make_manifest_file_ok o opts p f h in
      let fresh = new_map_file-IsFresh m p f made in
      (
        elim (new_map_file-blobs m p f made) [
          | inl new ↦ rw new (empty-IsMapBacked L s)
          | inr (c, held, decoded) ↦ old c f.blobs held decoded
        ],
        (
          ap (λ o. o.writable) fresh.options ∙ writable ∙ w,
          subst (λ (q : Place C). IsSynced f q) (sym same) fresh.synced,
        ),
      )

  pub build_running-IsPublished :
      (K : IsCodec C) (rc : BuildCommand) (p : Place C) (s : S.State)
      → ((c : C.Content) (m : BlobMap)
          → p.content ≡ some c
          → C.unmarshal c ≡ some m
          → IsMapBacked L s m)
      → (build_running E X S run rc p s).0 ≡ returns (ok tt)
      → let (_, p', s') = build_running E X S run rc p s in
        IsPublished L p' s' × (p'.locked ≡ false)
  unfolding build_running
  build_running-IsPublished K rc p s old h =
      let opts : ManifestContextOptions = record {
        writable = true;
        allow_overwrite = false;
        no_cache_list = rc.fetch.no_cache;
      } in
      let (x, p1) = make_manifest_file E rc.manifest opts p in
      with_manifest_ok K rc x p1 s (λ f e. opened rc.manifest opts p s f refl old e) h

module _ {P : Platform} (LP : IsPlatform P) {C : Codec} (E : Engine) {S : Store} (L : IsLawful P S)
    (U : Urls) (X : Surroundings) (client : Client) (t : Traffic) where
  -- For a store that backs every entry of the manifest that the disk holds, if it holds one:
  -- whatever requests come, whatever the upstream answers and whichever calls fail, if a build
  -- returns nil, then the disk holds a manifest that can be decoded, each of its entries names bytes
  -- that the store holds under their own SHA-256, and the manifest's lock is free.
  pub build_in-IsPublished :
      (K : IsCodec C) (rc : BuildCommand) (p : Place C) (s : S.State)
      → ((c : C.Content) (m : BlobMap)
          → p.content ≡ some c
          → C.unmarshal c ≡ some m
          → IsMapBacked L s m)
      → (build_in E U X client S t rc p s).0 ≡ returns (ok tt)
      → let (_, p', s') = build_in E U X client S t rc p s in
        IsPublished L p' s' × (p'.locked ≡ false)
  unfolding build_in run_listener_with_subprocess
  build_in-IsPublished K rc p s old h =
      build_running-IsPublished L X (λ lctx. run_listener_with_subprocess U lctx client t)
        (λ lctx site (b, q). (
          serve_all-IsSiteBacked U lctx client LP L t.requests site b,
          serve_all_keeps U lctx client IsOpen (IsOpen-IsKept U) t.requests site q,
        ))
        K rc p s old h
