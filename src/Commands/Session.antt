-- ===== src/Commands/Session.antt =====
-- BuildCommand.Execute and OfflineCommand.Execute: the manifest that they leave.
use htvend.Base.{◌≡◌, refl, ap, ◌∙◌, inl, inr, Bool, true, false, List, [], ◌∷◌, arith}
use htvend.Base.{string_eq, if◌then◌else◌}
use htvend.Base.Error.{Result, Result-cases, ok, defer_error, defer_error_ok}
use htvend.Platform.{Platform, IsPlatform}
use htvend.Re.{Engine, new_multi_regex_matcher}
use htvend.Lockfile.{Codec, MapFileOptions, File, Place, returns, Urls}
use htvend.Lockfile.Ops.{save, close, reset, new_map_file}
use htvend.Lockfile.Laws.{get_blob-options, add_blob-options}
use htvend.Lockfile.Saved.{
  IsCodec, IsSynced, Stores, get_blob-IsSynced, add_blob-IsSynced, close_ok,
}
use htvend.Blobstore.{Store, IsLawful}
use htvend.Listener.{Request, Client, Site, ListenerCtx}
use htvend.Listener.Reply.{Reply}
use htvend.Listener.Handle.{handler}
use htvend.Listener.Handled.{handler-IsSiteBacked}
use htvend.Listener.Backed.{IsSiteBacked}
use htvend.Listener.Kept.{IsKept, handler_keeps}
use htvend.Commands.{ManifestOptions, ManifestContextOptions, make_manifest_file}
use htvend.Commands.Run.{serve_all, closed}

module _ {C : Codec} {E : Engine} {S : Store} (U : Urls) (lctx : ListenerCtx E)
    (client : Client) where
  pub serve_all_keeps :
      (Q : File E → Place C → Type 0)
      → IsKept U Q
      → (rs : List (Request × Reply)) (site : Site C E S) → Q site.assets site.place
      → let after = serve_all U lctx client rs site in Q after.assets after.place
  unfolding serve_all
  serve_all_keeps Q K [] site q = q
  serve_all_keeps Q K ((r, w) ∷ rs) site q =
      serve_all_keeps Q K rs (handler U lctx client r site w).site
        (handler_keeps U Q K lctx client r site w q)

  -- Whatever requests come, whatever the upstream answers and whatever fails: if the manifest's
  -- entries, of this run and of the previous one, name bytes that the store holds under their own
  -- digest, then this is so after a whole session.
  pub serve_all-IsSiteBacked :
      {P : Platform} (LP : IsPlatform P) (L : IsLawful P S) (rs : List (Request × Reply))
      (site : Site C E S)
      → IsSiteBacked L site
      → IsSiteBacked L (serve_all U lctx client rs site)
  unfolding serve_all
  serve_all-IsSiteBacked LP L [] site h = h
  serve_all-IsSiteBacked LP L ((r, w) ∷ rs) site h =
      serve_all-IsSiteBacked LP L rs (handler U lctx client r site w).site
        (handler-IsSiteBacked LP L U lctx client r site w h)

module _ {C : Codec} {E : Engine} where
  -- A writable manifest whose entries are on the disk unless it is dirty.
  abbrev pub IsOpen : File E → Place C → Type 0
  IsOpen f p = (f.options.writable ≡ true) × IsSynced f p

  pub IsOpen-IsKept : (U : Urls) → IsKept U IsOpen
  IsOpen-IsKept U = record {
    by_get = λ u f p (w, s).
        (ap (λ o. o.writable) (get_blob-options U u f p) ∙ w, get_blob-IsSynced U u f p s);
    by_add = λ u info f p (w, s). (
      ap (λ o. o.writable) (add_blob-options U u info f p) ∙ w,
      add_blob-IsSynced U u info f p s,
    );
  }

  pub reset_entries :
      (forget : Bool) (f : File E) (p : Place C)
      → ((reset forget f p).1.blobs ≡ [])
        × ((reset forget f p).1.previous_blobs ≡ (if forget then [] else f.blobs))
        × ((reset forget f p).1.options ≡ f.options)
  unfolding reset save
  reset_entries forget f p = ground arith

  pub make_manifest_file_ok :
      (o : ManifestOptions) (opts : ManifestContextOptions) (p : Place C) (f : File E)
      → (make_manifest_file E o opts p).0 ≡ returns (ok f)
      → (m : MapFileOptions E) × (m.writable ≡ opts.writable)
        × ((new_map_file m p).0 ≡ returns (ok f))
        × ((make_manifest_file E o opts p).1 ≡ (new_map_file m p).1)
  unfolding make_manifest_file
  make_manifest_file_ok o opts p f h =
      elim (Result-cases (new_multi_regex_matcher E opts.no_cache_list)) [
        | inl (no_cache, good) ↦ (
          record {
            path = o.manifest_file;
            writable = opts.writable;
            allow_overwrite = opts.allow_overwrite;
            no_cache = no_cache;
          },
          refl,
          rw (good, make_manifest_file) at h,
          rw (good, make_manifest_file) refl,
        )
        | inr (e, bad) ↦ absurd (let q = rw (bad, make_manifest_file) at h in cc)
      ]

module _ {C : Codec} {E : Engine} {S : Store} where
  pub closed_ok :
      (K : IsCodec C) (r : Result (Unit {0})) (site : Site C E S)
      → IsOpen site.assets site.place
      → (closed (r, site)).0 ≡ returns (ok tt)
      → (r ≡ ok tt)
        × Stores (closed (r, site)).1 site.assets.blobs
        × ((closed (r, site)).1.locked ≡ false)
  unfolding closed
  closed_ok K r site (w, s) h =
      let both : defer_error r (close site.assets site.place).0 ≡ ok tt = cc in
      let done = defer_error_ok r (close site.assets site.place).0 both in
      let (stores, free) = close_ok K site.assets site.place w s (ground arith) in
      (done, stores, free)
