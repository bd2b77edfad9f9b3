-- ===== src/Commands/Offline.antt =====
-- OfflineCommand.Execute: what it leaves alone.
use htvend.Base.{◌≡◌, refl, sym, subst, ap, ◌∙◌, inl, inr, false, List, [], ◌∷◌, arith}
use htvend.Base.{string_eq}
use htvend.Base.Error.{Result, Result-cases, ok, err}
use htvend.Re.{Engine, new_multi_regex_matcher}
use htvend.Lockfile.{Codec, MapFileOptions, File, Place, Outcome, returns, panics, Urls}
use htvend.Lockfile.Ops.{load, close, new_map_file}
use htvend.Lockfile.Laws.{get_blob-options, add_blob-options}
use htvend.Lockfile.Opened.{new_map_file-IsFresh}
use htvend.Blobstore.{Store}
use htvend.Listener.{Request, Client, Site, ListenerCtx}
use htvend.Listener.Reply.{Reply}
use htvend.Listener.Handle.{Handled, handler}
use htvend.Listener.Kept.{IsKept}
use htvend.Commands.{
  ManifestOptions, ManifestContextOptions, Surroundings, Backend, make_blob_store,
  make_manifest_file,
}
use htvend.Commands.Run.{
  Traffic, serve_all, run_listener_with_subprocess, closed, with_manifest, with_store,
}
use htvend.Lockfile.Laws.{get_blob-place, add_blob-place}
use htvend.Commands.Run.{OfflineCommand, offline_ctx, offline_session, offline_in, offline_execute}
use htvend.Commands.Session.{serve_all_keeps, make_manifest_file_ok}
use htvend.Listener.Unfetched.{handler-client}

module _ {C : Codec} {E : Engine} {S : Store} (U : Urls) (lctx : ListenerCtx E)
    (client other : Client) where
  serve_all-client :
      (rs : List (Request × Reply)) (site : Site C E S)
      → lctx.fetch_if_missing ≡ false
      → serve_all U lctx client rs site ≡ serve_all U lctx other rs site
  unfolding serve_all
  serve_all-client [] site h = refl
  serve_all-client ((r, w) ∷ rs) site h =
      let same = handler-client U lctx client other r site w h in
      ap (λ (x : Handled C E S). serve_all U lctx client rs x.site) same
      ∙ serve_all-client rs (handler U lctx other r site w).site h

module _ (E : Engine) (U : Urls) (X : Surroundings) (client other : Client) (t : Traffic) where
  offline_session-client :
      {C : Codec} {S : Store} (rc : OfflineCommand) (site : Site C E S)
      → offline_session E U X client S t rc site ≡ offline_session E U X other S t rc site
  unfolding offline_session run_listener_with_subprocess
  offline_session-client rc site = elim (Result-cases (new_multi_regex_matcher E rc.dummy_ok)) [
    | inl (dummy_ok, good) ↦
        rw (good, offline_session)
          (ap (λ x. (t.ended, x))
            (serve_all-client U (offline_ctx dummy_ok) client other t.requests site refl))
    | inr (e, bad) ↦ rw (bad, offline_session) refl
  ]

  -- The offline command never depends on the network: with any two clients, for the same requests,
  -- it returns the same and leaves the same manifest and the same store.
  pub offline_execute-client :
      {C : Codec} (stores : Backend → Store) (rc : OfflineCommand) (p : Place C)
      (s : (b : Backend) → (stores b).State)
      → offline_execute stores E U X client t rc p s ≡ offline_execute stores E U X other t rc p s
  unfolding offline_execute offline_in
  offline_execute-client stores rc p s = λ i.
      with_store stores (make_blob_store X rc.manifest.cache false)
        (λ b p' s'.
          with_manifest {S = stores b}
            (make_manifest_file E rc.manifest
              (record { writable = false; allow_overwrite = false; no_cache_list = [] }) p')
            s' (λ site. offline_session-client rc site i))
        p s

-- The manifest's file and its lock as they were.
abbrev Untouched : {C : Codec} → Place C → Place C → Type 0
Untouched p q = (q.content ≡ p.content) × (q.locked ≡ p.locked)

module _ {C : Codec} (E : Engine) where
  new_map_file-Untouched :
      (o : MapFileOptions E) (p : Place C) → o.writable ≡ false → Untouched p (new_map_file o p).1
  unfolding new_map_file load
  new_map_file-Untouched o p h = ground arith

  make_manifest_file-Untouched :
      (o : ManifestOptions) (opts : ManifestContextOptions) (p : Place C)
      → opts.writable ≡ false
      → Untouched p (make_manifest_file E o opts p).1
  unfolding make_manifest_file
  make_manifest_file-Untouched o opts p h =
      elim (Result-cases (new_multi_regex_matcher E opts.no_cache_list)) [
        | inl (no_cache, good) ↦
            rw (good, make_manifest_file)
              (new_map_file-Untouched
                (record {
                  path = o.manifest_file;
                  writable = opts.writable;
                  allow_overwrite = opts.allow_overwrite;
                  no_cache = no_cache;
                })
                p h)
        | inr (e, bad) ↦ rw (bad, make_manifest_file) (refl, refl)
      ]

module _ {C : Codec} {E : Engine} where
  -- A manifest that may not be written, whose file is still `p0`.
  abbrev IsReadOnly : Place C → File E → Place C → Type 0
  IsReadOnly p0 f p = (f.options.writable ≡ false) × (p ≡ p0)

  IsReadOnly-IsKept : (U : Urls) (p0 : Place C) → IsKept U (IsReadOnly p0)
  IsReadOnly-IsKept U p0 = record {
    by_get = λ u f p (w, s).
        (ap (λ o. o.writable) (get_blob-options U u f p) ∙ w, get_blob-place U u f p ∙ s);
    by_add = λ u info f p (w, s).
        (ap (λ o. o.writable) (add_blob-options U u info f p) ∙ w, add_blob-place U u info f p ∙ s);
  }

module _ {C : Codec} {E : Engine} (S : Store) (U : Urls) (X : Surroundings) (client : Client)
    (t : Traffic) where
  offline_session-IsReadOnly :
      (rc : OfflineCommand) (p0 : Place C) (site : Site C E S)
      → IsReadOnly p0 site.assets site.place
      → let after = (offline_session E U X client S t rc site).1 in
        IsReadOnly p0 after.assets after.place
  unfolding offline_session run_listener_with_subprocess
  offline_session-IsReadOnly rc p0 site q =
      elim (Result-cases (new_multi_regex_matcher E rc.dummy_ok)) [
        | inl (dummy_ok, good) ↦
            rw (good, offline_session)
              (serve_all_keeps U (offline_ctx dummy_ok) client (IsReadOnly p0)
                (IsReadOnly-IsKept U p0) t.requests site q)
        | inr (e, bad) ↦ rw (bad, offline_session) q
      ]

  closed_place :
      (r : Result (Unit {0})) (site : Site C E S)
      → site.assets.options.writable ≡ false
      → (closed (r, site)).1 ≡ site.place
  unfolding closed close
  closed_place r site w = rw w refl

  with_manifest_place :
      (rc : OfflineCommand) (x : Outcome (Result (File E))) (p : Place C) (s : S.State)
      → ((f : File E) → x ≡ returns (ok f) → f.options.writable ≡ false)
      → (with_manifest (x, p) s (offline_session E U X client S t rc)).1 ≡ p
  unfolding with_manifest
  with_manifest_place rc panics p s h = refl
  with_manifest_place rc (returns (err e)) p s h = refl
  with_manifest_place rc (returns (ok f)) p s h =
      let site : Site C E S = record { assets = f; place = p; blobs = s } in
      let (w, same) = offline_session-IsReadOnly rc p site (h f refl, refl) in
      let (r, site') = offline_session E U X client S t rc site in closed_place r site' w ∙ same

module _ {C : Codec} (E : Engine) (S : Store) (U : Urls) (X : Surroundings) (client : Client)
    (t : Traffic) where
  -- The offline command leaves the contents of the manifest's file and its lock as they were,
  -- whatever requests come, whatever fails and whether it returns an error or not.
  pub offline_in-Untouched :
      (rc : OfflineCommand) (p : Place C) (s : S.State)
      → let (_, p', _) = offline_in E U X client S t rc p s in
        (p'.content ≡ p.content) × (p'.locked ≡ p.locked)
  unfolding offline_in
  offline_in-Untouched rc p s =
      let opts : ManifestContextOptions = record {
        writable = false;
        allow_overwrite = false;
        no_cache_list = [];
      } in
      let (x, p1) = make_manifest_file E rc.manifest opts p in
      subst (Untouched p)
        (sym (
          with_manifest_place S U X client t rc x p1 s (λ f e.
            let (m, w, made, _) = make_manifest_file_ok rc.manifest opts p f e in
            ap (λ o. o.writable) (new_map_file-IsFresh m p f made).options ∙ w)))
        (make_manifest_file-Untouched E rc.manifest opts p refl)
