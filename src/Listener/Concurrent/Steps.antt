-- ===== src/Listener/Concurrent/Steps.antt =====
-- The steps of a handler, one by one: none breaks what is true of the site or of another handler.
use htvend.Base.{◌≡◌, ◌==◌, ◌||◌, not, refl, sym, ◌∙◌, Option, none, some, [], inl, inr, if_both}
use htvend.Base.{nat_eq, string_eq, Option-cases, Bool-cases, if◌then◌else◌}
use htvend.Base.Dict.{lookup}
use htvend.Base.Hex.{decode}
use htvend.Base.Error.{Result, ok, err, wrap, message}
use htvend.Platform.{Platform, IsPlatform}
use htvend.Lockfile.{BlobInfo, Codec, Urls}
use htvend.Lockfile.Ops.{get_blob, skip_save}
use htvend.Lockfile.Laws.{get_blob_ok}
use htvend.Re.{Engine, matches}
use htvend.Blobstore.{Store}
use htvend.Blobstore.Growth.{Grows, Grows-same, Grows-put, IsBacked}
use htvend.Blobstore.Shared.{IsShared, Undisturbed}
use htvend.Listener.{
  Request, Response, Client, Site, ListenerCtx, status_ok, status_not_found, extract_req_from_url,
}
use htvend.Listener.Reply.{Reply, http_error, write_header}
use htvend.Listener.Fetch.{copy_out}
use htvend.Listener.Handle.{serve_found_blob}
use htvend.Listener.Handled.{serve_found_blob-Grows}
use htvend.Listener.Backed.{IsMapBacked-Grows, IsSiteBacked}
use htvend.Listener.Recorded.{get_blob-IsSiteBacked}
use htvend.Listener.Concurrent.{
  Handler, arrived, found, asking, answering, returned, closed, after_lookup, after_put,
  after_request, client_of, step,
}
use htvend.Listener.Concurrent.Invariant.{
  IsStep, IsFree, free_step, same_step, returned-IsFree, closed-IsFree, after_request-IsFree,
}

module _ {P : Platform} (LP : IsPlatform P) {S : Store} (X : IsShared P S) where
  serve_found_blob-Undisturbed :
      (bi : BlobInfo) (s : S.State) (w : Reply) (b : S.Blob)
      → X.Owns b s
      → Undisturbed X.lawful X.Owns b s (serve_found_blob S bi s w).1
  unfolding serve_found_blob
  serve_found_blob-Undisturbed bi s w b own = elim (Option-cases (decode bi.sha256)) [
    | inl bad ↦ rw (bad, serve_found_blob) (own, λ c held. held)
    | inr (k, e) ↦ rw (e, serve_found_blob) (X.quiet_get k s b own)
  ]

  module _ {U : Urls} where
    after_put-IsStep :
        (u : U.Url) (resp : Response) (w : Reply) (s : S.State) (r : Result S.Blob)
        → (S.put s).0 ≡ r
        → IsStep X {U = U} (answering u resp w) s (after_put u resp r w) (S.put s).1
    unfolding after_put
    after_put-IsStep u resp w s (err e) h =
        let x : Result (Unit {0}) = err (wrap "error creating caf to put" e) in
        free_step X (answering u resp w) (closed resp x w) s (S.put s).1 (closed-IsFree X resp x w)
          (Grows-put X.lawful s) (λ b' own _. X.quiet_put s b' own)
    after_put-IsStep u resp w s (ok b) h =
        let (live, held) = X.lawful.put_live s b h in
        let (own, apart) = X.put_owns s b h in
        record {
          sound = ((live, own), ([], held, refl));
          grown = Grows-put X.lawful s;
          others = λ b' own' _. (apart b', X.quiet_put s b' own');
        }

  module _ {E : Engine} {U : Urls} (lctx : ListenerCtx E) where
    after_lookup-IsStep :
        (h : Handler S U) (r : Request) (u : U.Url) (x : Result (Option BlobInfo)) (w : Reply)
        (s : S.State)
        → ((bi : BlobInfo) → x ≡ ok (some bi) → IsBacked X.lawful s bi.sha256)
        → IsStep X h s (after_lookup lctx r u x w) s
    unfolding after_lookup
    after_lookup-IsStep h r u (err e) w s k =
        same_step X h (returned (err (wrap "error looking up asset" e)) w 0) s
          (returned-IsFree X (err (wrap "error looking up asset" e)) w 0)
    after_lookup-IsStep h r u (ok (some bi)) w s k = record {
      sound = k bi refl;
      grown = Grows-same X.lawful s s (λ j _. refl);
      others = λ b' own _. (tt, (own, λ c held. held));
    }
    after_lookup-IsStep h r u (ok none) w s k =
        let missing : Result (Unit {0}) =
          err (message "missing logic path - should not have gotten here") in
        let page = http_error "missing asset" status_not_found w in
        let refused : Handler S U =
          if lctx.fail_if_missing then returned (ok tt) page 1 else returned missing w 1 in
        same_step X h (if lctx.fetch_if_missing then asking r u w else refused) s (
          if_both (IsFree X) lctx.fetch_if_missing (asking r u w) refused
            (record { sound = λ s'. tt; apart = λ b. tt })
            (if_both (IsFree X) lctx.fail_if_missing (returned (ok tt) page 1)
              (returned missing w 1) (returned-IsFree X (ok tt) page 1)
              (returned-IsFree X missing w 1)))

  module _ {C : Codec} {E : Engine} (U : Urls) (lctx : ListenerCtx E) where
    -- A step after which the site is still backed.
    pub record IsGoodStep (h : Handler S U) (site : Site C E S) (o : Handler S U × Site C E S)
        : Type 0 where
      pub step : IsStep X h site.blobs o.0 o.1.blobs
      pub backed : IsSiteBacked X.lawful o.1

    IsSiteBacked-Grows :
        (site : Site C E S) (s : S.State)
        → Grows X.lawful site.blobs s
        → IsSiteBacked X.lawful site
        → IsSiteBacked X.lawful (record site { blobs = s })
    IsSiteBacked-Grows site s g k = record {
      blobs = IsMapBacked-Grows X.lawful site.blobs s site.assets.blobs g k.blobs;
      previous = IsMapBacked-Grows X.lawful site.blobs s site.assets.previous_blobs g k.previous;
    }

    -- A step that only works on the store.
    pub good_step :
        (h h1 : Handler S U) (site : Site C E S) (s : S.State)
        → IsSiteBacked X.lawful site
        → IsStep X h site.blobs h1 s
        → IsGoodStep h site (h1, record site { blobs = s })
    good_step h h1 site s k x = record { step = x; backed = IsSiteBacked-Grows site s x.grown k }

    found-IsBacked :
        (u : U.Url) (site : Site C E S) (bi : BlobInfo)
        → IsSiteBacked X.lawful site
        → (get_blob U u site.assets site.place).0 ≡ ok (some bi)
        → IsBacked X.lawful site.blobs bi.sha256
    found-IsBacked u site bi k h =
        let key = U.redacted u in
        let e = get_blob_ok U u site.assets site.place (some bi) h in
        elim (Bool-cases (matches E site.assets.options.no_cache key)) [
          | inl skip ↦ absurd (let q = rw skip at e in cc)
          | inr take_it ↦ elim (Option-cases (lookup key site.assets.blobs)) [
            | inl absent ↦ k.previous.entry key bi (sym (rw (take_it, absent) at e))
            | inr (x, hit) ↦ k.blobs.entry key bi (hit ∙ sym (rw (take_it, hit) at e))
          ]
        ]

    pub arrived-IsGoodStep :
        (client : Client) (r : Request) (w : Reply) (site : Site C E S)
        → IsSiteBacked X.lawful site
        → IsGoodStep (arrived r w) site (step U lctx client (arrived r w) site)
    unfolding step
    arrived-IsGoodStep client r w site k =
        let u = extract_req_from_url U r in
        let h : Handler S U = arrived r w in
        let (x, f, p) = get_blob U u site.assets site.place in
        if_both (IsGoodStep h site) (matches E lctx.dummy_ok (U.redacted u))
          (returned (ok tt) (write_header status_ok w) 0, site)
          (after_lookup lctx r u x w, record site { assets = f; place = p })
          (record {
            step =
                same_step X h (returned (ok tt) (write_header status_ok w) 0) site.blobs
                  (returned-IsFree X (ok tt) (write_header status_ok w) 0);
            backed = k;
          })
          (record {
            step =
                after_lookup-IsStep lctx h r u x w site.blobs
                  (λ bi e. found-IsBacked u site bi k e);
            backed = get_blob-IsSiteBacked LP X.lawful U lctx.headers_to_cache u site k;
          })

    pub found-IsGoodStep :
        (client : Client) (bi : BlobInfo) (w : Reply) (site : Site C E S)
        → IsSiteBacked X.lawful site
        → IsGoodStep (found bi w) site (step U lctx client (found bi w) site)
    unfolding step
    found-IsGoodStep client bi w site k =
        let (x, s, w') = serve_found_blob S bi site.blobs w in
        good_step (found bi w) (returned x w' 0) site s k (
          free_step X (found bi w) (returned x w' 0) site.blobs s (returned-IsFree X x w' 0)
            (serve_found_blob-Grows X.lawful bi site.blobs w)
            (λ b' own _. serve_found_blob-Undisturbed bi site.blobs w b' own))

    pub asking-IsGoodStep :
        (client : Client) (r : Request) (u : U.Url) (w : Reply) (site : Site C E S)
        → IsSiteBacked X.lawful site
        → IsGoodStep (asking r u w) site (step U lctx client (asking r u w) site)
    unfolding step
    asking-IsGoodStep client r u w site k =
        let x = client.new_request r.method (U.to_string u) in
        record {
          step =
              same_step X (asking r u w) (after_request client r u x w) site.blobs
                (after_request-IsFree X client r u x w);
          backed = k;
        }

    pub answering-IsGoodStep :
        (client : Client) (u : U.Url) (resp : Response) (w : Reply) (site : Site C E S)
        → IsSiteBacked X.lawful site
        → IsGoodStep (answering u resp w) site (step U lctx client (answering u resp w) site)
    unfolding step
    answering-IsGoodStep client u resp w site k =
        let h : Handler S U = answering u resp w in
        let (r, w') = copy_out S resp.body (some w) in
        let (x, s) = S.put site.blobs in
        if_both (IsGoodStep h site)
          (skip_save U site.assets u || not (resp.status_code == status_ok))
          (closed resp r (client_of w w'), site) (after_put u resp x w, record site { blobs = s })
          (record {
            step =
                same_step X h (closed resp r (client_of w w')) site.blobs
                  (closed-IsFree X resp r (client_of w w'));
            backed = k;
          })
          (good_step h (after_put u resp x w) site s k
            (after_put-IsStep u resp w site.blobs x refl))
