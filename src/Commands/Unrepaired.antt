-- ===== src/Commands/Unrepaired.antt =====
-- A verification over a store that may not be written.
use htvend.Base.{
  ◌≡◌, refl, ◌∙◌, ◌==◌, ◌<>◌, inl, inr, ◌||◌, not, String, Bool, false, Option, none, some, List,
  [], ◌∷◌,
}
use htvend.Base.{nat_eq, if_both, Bool-cases}
use htvend.Base.Error.{Error, message, Result-cases, Result, ok, err}
use htvend.Platform.{Platform}
use htvend.Re.{Engine}
use htvend.Lockfile.{Codec, Urls}
use htvend.Lockfile.Ops.{skip_save, for_each}
use htvend.Blobstore.{Store}
use htvend.Blobstore.Directory.{directory_store, put}
use htvend.Listener.{Response, Client, Site, Headers, status_ok}
use htvend.Listener.Reply.{Reply}
use htvend.Listener.Fetch.{
  copy_out, answered, save_into, save_response, responded, requested, fetch_and_save_blob,
}
use htvend.Verify.{
  ValidateCtx, MultiError, ToBeFetched, Validation, validate_entry, handle_missing, concluded,
  reported, do_validate,
}
use htvend.Commands.{Surroundings}
use htvend.Commands.Run.{closed}
use htvend.Commands.Verify.{VerifyCommand, validate_ctx}

-- The manifest and its file as they were.
abbrev pub SameManifest : {C : Codec} {E : Engine} {S : Store} → Site C E S → Site C E S → Type 0
SameManifest site after = (after.assets ≡ site.assets) × (after.place ≡ site.place)

-- A store whose Put always fails.
abbrev pub IsReadOnly : Store → Type 0
IsReadOnly S = (s : S.State) → (e : Error) × ((S.put s).0 ≡ err e)

module _ {C : Codec} {E : Engine} {S : Store} (U : Urls) (headers_to_cache : List String)
    (O : IsReadOnly S) where
  save_into-SameManifest :
      (u : U.Url) (resp : Response) (r : Result S.Blob) (s : S.State) (site : Site C E S)
      (w : Option Reply) (e : Error)
      → r ≡ err e
      → SameManifest site (save_into U headers_to_cache u resp (r, s) site w).1
  unfolding save_into
  save_into-SameManifest u resp (err x) s site w e h = (refl, refl)
  save_into-SameManifest u resp (ok b) s site w e h = absurd (cc)

  save_response-SameManifest :
      (u : U.Url) (resp : Response) (site : Site C E S) (w : Option Reply)
      → SameManifest site (save_response U headers_to_cache u resp site w).1
  unfolding save_response
  save_response-SameManifest u resp site w =
      let (e, closed) = O site.blobs in
      if_both (λ (o : Result (Unit {0}) × Site C E S × Option Reply). SameManifest site o.1)
        (skip_save U site.assets u || not (resp.status_code == status_ok))
        (let (r, w') = copy_out S resp.body w in (r, site, w'))
        (save_into U headers_to_cache u resp (S.put site.blobs) site w) (refl, refl)
        (save_into-SameManifest u resp (S.put site.blobs).0 (S.put site.blobs).1 site w e closed)

  responded-SameManifest :
      (u : U.Url) (r : Result Response) (site : Site C E S) (w : Option Reply)
      → SameManifest site (responded U headers_to_cache u r site w).1
  unfolding responded
  responded-SameManifest u (err e) site w = (refl, refl)
  responded-SameManifest u (ok resp) site w =
      save_response-SameManifest u resp site (answered resp w)

  requested-SameManifest :
      (client : Client) (method : String) (u : U.Url) (r : Result (Unit {0}))
      (preprocess : Result Headers) (site : Site C E S) (w : Option Reply)
      → SameManifest site (requested U headers_to_cache client method u r preprocess site w).1
  unfolding requested
  requested-SameManifest client method u (err e) preprocess site w = (refl, refl)
  requested-SameManifest client method u (ok _) (err e) site w = (refl, refl)
  requested-SameManifest client method u (ok _) (ok headers) site w =
      responded-SameManifest u (client.send method (U.to_string u) headers) site w

  fetch_and_save_blob-SameManifest :
      (client : Client) (method : String) (u : U.Url) (preprocess : Result Headers)
      (site : Site C E S) (w : Option Reply)
      → SameManifest site
          (fetch_and_save_blob U headers_to_cache client method u preprocess site w).1
  unfolding fetch_and_save_blob
  fetch_and_save_blob-SameManifest client method u preprocess site w =
      requested-SameManifest client method u (client.new_request method (U.to_string u)) preprocess
        site w

module _ {C : Codec} {E : Engine} {S : Store} (multi_append : MultiError) (U : Urls)
    (vctx : ValidateCtx) (client : Client) (O : IsReadOnly S) where
  handle_missing-SameManifest :
      (ms : List (ToBeFetched U)) (rv : Option Error) (site : Site C E S)
      → SameManifest site (handle_missing multi_append U vctx client ms rv site).1
  unfolding handle_missing
  handle_missing-SameManifest [] rv site = (refl, refl)
  handle_missing-SameManifest (m ∷ ms) rv site =
      let reported = some (multi_append rv (message ("missing asset: " <> U.redacted m.k))) in
      let o = fetch_and_save_blob U vctx.headers_to_cache client "GET" m.k (ok []) site none in
      let (assets, place) =
        fetch_and_save_blob-SameManifest U vctx.headers_to_cache O client "GET" m.k (ok []) site
          none in
      let (assets', place') = handle_missing-SameManifest ms rv o.1 in
      elim (Bool-cases vctx.fail_if_missing) [
        | inl fail ↦ simp (fail, handle_missing) (handle_missing-SameManifest ms reported site)
        | inr pass ↦ elim (Bool-cases vctx.fetch_if_missing) [
          | inr skip ↦ simp (pass, skip, handle_missing) (handle_missing-SameManifest ms rv site)
          | inl fetch ↦ elim (Result-cases o.0) [
            | inl (_, done) ↦
                simp (pass, fetch, done, handle_missing) (assets' ∙ assets, place' ∙ place)
            | inr (e, failed) ↦ simp (pass, fetch, failed, handle_missing) (assets, place)
          ]
        ]
      ]

  concluded-SameManifest :
      (wrong : List (ToBeFetched U)) (r : Result (Option Error)) (site after : Site C E S)
      → SameManifest site after
      → SameManifest site (concluded multi_append U vctx client wrong (r, after)).1
  unfolding concluded
  concluded-SameManifest wrong (err e) site after same = same
  concluded-SameManifest wrong (ok rv) site after same = same

  reported-SameManifest :
      (r : Result (Unit {0})) (v : Validation U S) (site : Site C E S)
      → SameManifest site (reported multi_append U vctx client (r, v) site).1
  unfolding reported
  reported-SameManifest (err e) v site = (refl, refl)
  reported-SameManifest (ok _) v site =
      let start : Site C E S = record site { blobs = v.blobs } in
      let (r, after) = handle_missing multi_append U vctx client v.missing_list none start in
      concluded-SameManifest v.wrong_hash_list r site after
        (handle_missing-SameManifest v.missing_list none start)

put-IsReadOnly :
    (P : Platform) (writable : Bool) → writable ≡ false → IsReadOnly (directory_store P writable)
unfolding put
put-IsReadOnly P writable h s = (message "blob store is not writable", rw h refl)

module _ (P : Platform) {C : Codec} {E : Engine} where
  -- A verification without --fetch, over the directory store that such a command makes, leaves the
  -- manifest and its file as they were, also with --repair, whatever is missing and whatever the
  -- upstream would answer.
  pub do_validate-unfetched :
      (multi_append : MultiError) (U : Urls) (X : Surroundings) (client : Client)
      (rc : VerifyCommand)
      → rc.fetch ≡ false
      → (site : Site C E (directory_store P rc.fetch))
      → SameManifest site (do_validate multi_append U (validate_ctx X rc) client P site).1
  unfolding do_validate
  do_validate-unfetched multi_append U X client rc h site =
      let start : Validation U (directory_store P rc.fetch) = record {
        missing_list = [];
        wrong_hash_list = [];
        blobs = site.blobs;
      } in
      let (r, v) =
        for_each U (validate_entry P U (directory_store P rc.fetch) (validate_ctx X rc)) site.assets
          start in
      reported-SameManifest multi_append U (validate_ctx X rc) client (put-IsReadOnly P rc.fetch h)
        r v site
