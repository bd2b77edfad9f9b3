-- ===== src/Listener/Recorded.antt =====
-- fetchAndSaveBlob and the entries of the manifest that the store backs.
use htvend.Base.{◌≡◌, refl, sym, subst, ◌∙◌, ◌==◌, ◌||◌, not, String, Option, List, [], inl, inr}
use htvend.Base.{concat, nat_eq, string_eq, Option-cases, Bool-cases, if_both}
use htvend.Base.Dict.{lookup}
use htvend.Base.Error.{Result, ok, err}
use htvend.Platform.{Platform, IsPlatform}
use htvend.Lockfile.{Codec, File, Place, Urls}
use htvend.Lockfile.Ops.{get_blob, skip_save}
use htvend.Lockfile.Laws.{lookup-get_blob, get_blob-previous_blobs}
use htvend.Re.{Engine, matches}
use htvend.Blobstore.{Store, IsLawful}
use htvend.Blobstore.Growth.{Grows, Grows-trans, Grows-put, Grows-cleanup}
use htvend.Listener.{Response, Client, Site, Headers, status_ok}
use htvend.Listener.Reply.{Reply}
use htvend.Listener.Fetch.{
  Copying, copy_body, copy_out, commit_copied, answered, save_into, save_response, responded,
  requested, fetch_and_save_blob,
}
use htvend.Listener.Copied.{copy_body-IsCopying, copy_body-Holds}
use htvend.Listener.Backed.{
  IsMapBacked, IsMapBacked-Grows, IsSiteBacked, IsRecorded, commit_copied-IsRecorded,
}

module _ {P : Platform} (LP : IsPlatform P) {S : Store} (L : IsLawful P S) where
  module _ {C : Codec} {E : Engine} (U : Urls) (headers_to_cache : List String) where
    -- The deferred Cleanup after a copy that was recorded.
    cleaned-IsSiteBacked :
        (site : Site C E S) (o : Result (Unit {0}) × Copying S × File E × Place C)
        → IsSiteBacked L site
        → IsRecorded L U site.blobs site.assets o
        → IsSiteBacked L
            (record { assets = o.2; place = o.3; blobs = (S.cleanup o.1.blob o.1.state).2 })
    cleaned-IsSiteBacked site o h k =
        let s1 = (S.cleanup o.1.blob o.1.state).2 in
        let shrunk = Grows-cleanup L o.1.blob o.1.state k.live in
        record {
          blobs = IsMapBacked-Grows L o.1.state s1 o.2.blobs shrunk k.blobs;
          previous =
              IsMapBacked-Grows L site.blobs s1 o.2.previous_blobs
                (Grows-trans L site.blobs o.1.state s1 k.grown shrunk) (rw k.previous h.previous);
        }

    put-IsSiteBacked :
        (u : U.Url) (resp : Response) (r : Result S.Blob) (s : S.State) (site : Site C E S)
        (w : Option Reply)
        → IsSiteBacked L site
        → Grows L site.blobs s
        → ((b : S.Blob) → r ≡ ok b → L.IsLive b × L.Holds b s [])
        → IsSiteBacked L (save_into U headers_to_cache u resp (r, s) site w).1
    unfolding save_into
    put-IsSiteBacked u resp (err e) s site w h g fresh = record {
      blobs = IsMapBacked-Grows L site.blobs s site.assets.blobs g h.blobs;
      previous = IsMapBacked-Grows L site.blobs s site.assets.previous_blobs g h.previous;
    }
    put-IsSiteBacked u resp (ok b) s site w h g fresh =
        let (live, held) = fresh b refl in
        let c : Copying S = record { reply = w; blob = b; state = s } in
        let (r, c') = copy_body S resp.body c in
        cleaned-IsSiteBacked site
          (commit_copied U headers_to_cache u resp.headers (copy_body S resp.body c) site.assets
            site.place)
          h
          (commit_copied-IsRecorded LP L U headers_to_cache u resp.headers r c' site.assets
            site.place site.blobs (concat resp.body.chunks)
            (copy_body-IsCopying L site.blobs resp.body c (record { live = live; grown = g }))
            (λ e. (copy_body-Holds L resp.body [] c held e).0) h.blobs)

    save_response-IsSiteBacked :
        (u : U.Url) (resp : Response) (site : Site C E S) (w : Option Reply)
        → IsSiteBacked L site
        → IsSiteBacked L (save_response U headers_to_cache u resp site w).1
    unfolding save_response
    save_response-IsSiteBacked u resp site w h =
        if_both (λ (o : Result (Unit {0}) × Site C E S × Option Reply). IsSiteBacked L o.1)
          (skip_save U site.assets u || not (resp.status_code == status_ok))
          (let (r, w') = copy_out S resp.body w in (r, site, w'))
          (save_into U headers_to_cache u resp (S.put site.blobs) site w) h
          (put-IsSiteBacked u resp (S.put site.blobs).0 (S.put site.blobs).1 site w h
            (Grows-put L site.blobs) (λ b e. L.put_live site.blobs b e))

    responded-IsSiteBacked :
        (u : U.Url) (r : Result Response) (site : Site C E S) (w : Option Reply)
        → IsSiteBacked L site
        → IsSiteBacked L (responded U headers_to_cache u r site w).1
    unfolding responded
    responded-IsSiteBacked u (err e) site w h = h
    responded-IsSiteBacked u (ok resp) site w h =
        save_response-IsSiteBacked u resp site (answered resp w) h

    requested-IsSiteBacked :
        (client : Client) (method : String) (u : U.Url) (r : Result (Unit {0}))
        (preprocess : Result Headers) (site : Site C E S) (w : Option Reply)
        → IsSiteBacked L site
        → IsSiteBacked L (requested U headers_to_cache client method u r preprocess site w).1
    unfolding requested
    requested-IsSiteBacked client method u (err e) preprocess site w h = h
    requested-IsSiteBacked client method u (ok _) (err e) site w h = h
    requested-IsSiteBacked client method u (ok _) (ok headers) site w h =
        responded-IsSiteBacked u (client.send method (U.to_string u) headers) site w h

    -- Whatever fails on the way, a request that goes upstream keeps the manifest backed.
    pub fetch_and_save_blob-IsSiteBacked :
        (client : Client) (method : String) (u : U.Url) (preprocess : Result Headers)
        (site : Site C E S) (w : Option Reply)
        → IsSiteBacked L site
        → IsSiteBacked L
            (fetch_and_save_blob U headers_to_cache client method u preprocess site w).1
    unfolding fetch_and_save_blob
    fetch_and_save_blob-IsSiteBacked client method u preprocess site w h =
        requested-IsSiteBacked client method u (client.new_request method (U.to_string u))
          preprocess site w h

    pub get_blob-IsSiteBacked :
        (u : U.Url) (site : Site C E S)
        → IsSiteBacked L site
        → IsSiteBacked L (record {
          assets = (get_blob U u site.assets site.place).1;
          place = (get_blob U u site.assets site.place).2;
          blobs = site.blobs;
        })
    get_blob-IsSiteBacked u site h =
        let k = U.redacted u in
        record {
          blobs = record {
            entry = λ j v e.
                let e' = sym (lookup-get_blob U u j site.assets site.place) ∙ e in
                elim (Bool-cases (matches E site.assets.options.no_cache k)) [
                  | inl skip ↦ h.blobs.entry j v (rw skip at e')
                  | inr take_it ↦ elim (Bool-cases (j == k)) [
                    | inl here ↦ elim (Option-cases (lookup k site.assets.blobs)) [
                      | inl absent ↦ h.previous.entry k v (rw (take_it, here, absent) at e')
                      | inr (x, hit) ↦ h.blobs.entry k v (hit ∙ rw (take_it, here, hit) at e')
                    ]
                    | inr other ↦ h.blobs.entry j v (rw (take_it, other) at e')
                  ]
                ];
          };
          previous =
              subst (IsMapBacked L site.blobs)
                (sym (get_blob-previous_blobs U u site.assets site.place)) h.previous;
        }
