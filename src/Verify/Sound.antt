-- ===== src/Verify/Sound.antt =====
-- doValidate of cli/internal/htvend/command_verify.go, when it only checks.
use htvend.Base.{
  ◌≡◌, refl, sym, subst, ap, ◌∙◌, ◌==◌, true, String, Option, none, some, List, [], ◌∷◌, ◌<>◌,
  arith, inl, inr,
}
use htvend.Base.{list_eq, nat_eq, string_eq, Option-cases, Bool-cases}
use htvend.Base.Dict.{lookup, lookup-nil}
use htvend.Base.Hex.{encode}
use htvend.Base.Error.{Error, message, Result, ok, err}
use htvend.Platform.{Platform, IsPlatform}
use htvend.Lockfile.{BlobInfo, BlobMap, Codec, Urls}
use htvend.Lockfile.Ops.{visit, for_each}
use htvend.Re.{Engine}
use htvend.Blobstore.{Store, IsLawful}
use htvend.Blobstore.Growth.{Grows, Grows-same, Grows-trans, IsBacked, IsBacked-Grows}
use htvend.Listener.{Client, Site}
use htvend.Listener.Backed.{IsMapBacked}
use htvend.Verify.{
  ValidateCtx, ToBeFetched, Validation, validate_entry, MultiError, handle_missing, report_wrong,
  outcome, concluded, reported, do_validate,
}
use htvend.Verify.Entry.{IsStep, validate_entry-IsStep}

pub visit-cons :
    (U : Urls) {S : Type 0} (cb : U.Url → BlobInfo → S → Result (Unit {0}) × S) (k : String)
    (v : BlobInfo) (m : BlobMap) (s : S)
    → (visit U cb ((k, v) ∷ m) s).0 ≡ ok tt
    → (u : U.Url) × ((cb u v s).0 ≡ ok tt) × (visit U cb ((k, v) ∷ m) s ≡ visit U cb m (cb u v s).1)
unfolding visit
visit-cons U cb k v m s h = elim (Option-cases (U.parse k)) [
  | inl bad ↦ absurd (ground arith)
  | inr (u, e) ↦ (u, ground arith, ground arith)
]

module _ {P : Platform} (LP : IsPlatform P) {S : Store} (L : IsLawful P S) (U : Urls)
    (vctx : ValidateCtx) where
  record IsVisited (m : BlobMap) (s s' : Validation U S) : Type 0 where
    missing : s.missing_list ≡ []
    wrong : s.wrong_hash_list ≡ []
    grown : Grows L s.blobs s'.blobs
    backed : IsMapBacked L s'.blobs m

  IsVisited-cons :
      (k : String) (v : BlobInfo) (m : BlobMap) (s t u : Validation U S)
      → IsStep LP L U vctx s t v.sha256
      → IsVisited m t u
      → IsVisited ((k, v) ∷ m) s u
  unfolding lookup
  IsVisited-cons k v m s t u a b = record {
    missing = a.missing;
    wrong = a.wrong;
    grown = Grows-trans L s.blobs t.blobs u.blobs a.grown b.grown;
    backed = record {
      entry = λ j x e. elim (Bool-cases (j == k)) [
        | inl here ↦
            let same : v ≡ x = ground arith in
            subst (λ (i : BlobInfo). IsBacked L u.blobs i.sha256) same
              (IsBacked-Grows L t.blobs u.blobs v.sha256 b.grown a.backed)
        | inr other ↦ b.backed.entry j x (ground arith)
      ];
    };
  }

  visit-IsVisited :
      (m : BlobMap) (s : Validation U S)
      → vctx.validate_sha256 ≡ true
      → (visit U (validate_entry P U S vctx) m s).0 ≡ ok tt
      → (visit U (validate_entry P U S vctx) m s).1.missing_list ≡ []
      → (visit U (validate_entry P U S vctx) m s).1.wrong_hash_list ≡ []
      → IsVisited m s (visit U (validate_entry P U S vctx) m s).1
  unfolding visit
  visit-IsVisited [] s on h a b = record {
    missing = a;
    wrong = b;
    grown = Grows-same L s.blobs s.blobs (λ j _. refl);
    backed = record { entry = λ k v e. absurd (let q = lookup-nil {V = BlobInfo} k in cc) };
  }
  visit-IsVisited ((k, v) ∷ m) s on h a b =
      let (u, fine, same) = visit-cons U (validate_entry P U S vctx) k v m s h in
      let t = (validate_entry P U S vctx u v s).1 in
      let w = visit U (validate_entry P U S vctx) m t in
      let tail =
        visit-IsVisited m t on (sym (ap (λ (y : Result (Unit {0}) × Validation U S). y.0) same) ∙ h)
          (sym (ap (λ (y : Result (Unit {0}) × Validation U S). y.1.missing_list) same) ∙ a)
          (sym (ap (λ (y : Result (Unit {0}) × Validation U S). y.1.wrong_hash_list) same) ∙ b) in
      subst (IsVisited ((k, v) ∷ m) s)
        (sym (ap (λ (y : Result (Unit {0}) × Validation U S). y.1) same))
        (IsVisited-cons k v m s t w.1
          (validate_entry-IsStep LP L U vctx u v s on fine tail.missing tail.wrong) tail)

some-ne-none {ℓ} : {A : Type ℓ} (x : A) → some x ≡ none → ⊥
some-ne-none x h = cc

err-ne-ok : (e : Error) (r : Result (Unit {0})) → r ≡ err e → r ≡ ok tt → ⊥
err-ne-ok e r h k = cc

outcome_ok : (rv : Option Error) → outcome rv ≡ ok tt → rv ≡ none
unfolding outcome
outcome_ok none h = refl
outcome_ok (some e) h = absurd (cc)

module _ (multi_append : MultiError) (U : Urls) where
  -- Once there is an error, the loops keep one.
  report_wrong-some :
      (ws : List (ToBeFetched U)) (e : Error)
      → (x : Error) × (report_wrong multi_append U ws (some e) ≡ some x)
  unfolding report_wrong
  report_wrong-some [] e = (e, refl)
  report_wrong-some (w ∷ ws) e = report_wrong-some ws _

  report_wrong-none :
      (ws : List (ToBeFetched U)) (rv : Option Error)
      → report_wrong multi_append U ws rv ≡ none
      → (ws ≡ []) × (rv ≡ none)
  unfolding report_wrong
  report_wrong-none [] rv h = (refl, h)
  report_wrong-none (w ∷ ws) rv h = absurd (
      let text = message (
        "wrong hash for: "
        <> U.redacted w.k
        <> " expected: "
        <> w.v.sha256
        <> " have "
        <> encode w.new_hash) in
      let (x, e) = report_wrong-some ws (multi_append rv text) in some-ne-none x (sym e ∙ h))

module _ {C : Codec} {E : Engine} {S : Store} (multi_append : MultiError) (U : Urls)
    (vctx : ValidateCtx) (client : Client) where
  handle_missing-some :
      (ms : List (ToBeFetched U)) (e : Error) (site : Site C E S)
      → vctx.fail_if_missing ≡ true
      → (x : Error) × (handle_missing multi_append U vctx client ms (some e) site
          ≡ (ok (some x), site))
  unfolding handle_missing
  handle_missing-some [] e site h = (e, refl)
  handle_missing-some (m ∷ ms) e site h =
      let (x, same) =
        handle_missing-some ms
          (multi_append (some e) (message ("missing asset: " <> U.redacted m.k))) site h in
      (x, rw (h, handle_missing) same)

  handle_missing-nil :
      (ms : List (ToBeFetched U)) (site : Site C E S)
      → ms ≡ []
      → handle_missing multi_append U vctx client ms none site ≡ (ok none, site)
  unfolding handle_missing
  handle_missing-nil ms site e = rw e refl

  handle_missing-cons :
      (l : List (ToBeFetched U)) (m : ToBeFetched U) (ms : List (ToBeFetched U)) (site : Site C E S)
      → vctx.fail_if_missing ≡ true
      → l ≡ m ∷ ms
      → handle_missing multi_append U vctx client l none site
        ≡ handle_missing multi_append U vctx client ms
            (some (multi_append none (message ("missing asset: " <> U.redacted m.k))))
            site
  unfolding handle_missing
  handle_missing-cons l m ms site h e = rw (e, handle_missing, h) refl

  reported_ok :
      (r : Result (Unit {0})) (v : Validation U S) (site : Site C E S)
      → vctx.fail_if_missing ≡ true
      → (reported multi_append U vctx client (r, v) site).0 ≡ ok tt
      → (r ≡ ok tt)
        × (v.missing_list ≡ [])
        × (v.wrong_hash_list ≡ [])
        × ((reported multi_append U vctx client (r, v) site).1 ≡ record site { blobs = v.blobs })
  unfolding reported concluded outcome
  reported_ok (err e) v site on h = absurd (cc)
  reported_ok (ok _) v site on h = let (a, b, c) = go v.missing_list refl in (refl, a, b, c)
    where
      go :
          (ms : List (ToBeFetched U))
          → v.missing_list ≡ ms
          → (v.missing_list ≡ [])
            × (v.wrong_hash_list ≡ [])
            × ((reported multi_append U vctx client (ok tt, v) site).1
                ≡ record site { blobs = v.blobs })
      go [] e =
          let opened : reported multi_append U vctx client (ok tt, v) site ≡ (
            outcome (report_wrong multi_append U v.wrong_hash_list none),
            record site { blobs = v.blobs },
          ) =
            ap (concluded multi_append U vctx client v.wrong_hash_list)
              (handle_missing-nil v.missing_list (record site { blobs = v.blobs }) e) in
          let none_left =
            outcome_ok (report_wrong multi_append U v.wrong_hash_list none)
              (sym (ap (λ (y : Result (Unit {0}) × Site C E S). y.0) opened) ∙ h) in
          (
            e,
            (report_wrong-none multi_append U v.wrong_hash_list none none_left).0,
            ap (λ (y : Result (Unit {0}) × Site C E S). y.1) opened,
          )
      go (m ∷ ms) e = absurd (
          let site1 = record site { blobs = v.blobs } in
          let first = multi_append none (message ("missing asset: " <> U.redacted m.k)) in
          let (x, same) = handle_missing-some ms first site1 on in
          let (y, last) = report_wrong-some multi_append U v.wrong_hash_list x in
          let step = handle_missing-cons v.missing_list m ms site1 on e ∙ same in
          let opened : reported multi_append U vctx client (ok tt, v) site ≡ (err y, site1) =
            ap (concluded multi_append U vctx client v.wrong_hash_list) step
            ∙ ap (λ (o : Option Error). (outcome o, site1)) last in
          err-ne-ok y (reported multi_append U vctx client (ok tt, v) site).0
            (ap (λ (z : Result (Unit {0}) × Site C E S). z.0) opened) h)

  -- With FailIfMissing and ValidateSHA256 set: if doValidate returns nil, then every entry of the
  -- manifest names bytes that the store holds and that have the entry's digest, and the manifest
  -- is as it was.
  pub do_validate-IsMapBacked :
      {P : Platform} (LP : IsPlatform P) (L : IsLawful P S) (site : Site C E S)
      → vctx.fail_if_missing ≡ true
      → vctx.validate_sha256 ≡ true
      → (do_validate multi_append U vctx client P site).0 ≡ ok tt
      → IsMapBacked L (do_validate multi_append U vctx client P site).1.blobs site.assets.blobs
        × ((do_validate multi_append U vctx client P site).1.assets ≡ site.assets)
  unfolding do_validate for_each
  do_validate-IsMapBacked {P} LP L site fails on h =
      let start : Validation U S = record {
        missing_list = [];
        wrong_hash_list = [];
        blobs = site.blobs;
      } in
      let (r, v) = visit U (validate_entry P U S vctx) site.assets.blobs start in
      let (fine, missing, wrong, after) = reported_ok r v site fails h in
      let k = visit-IsVisited LP L U vctx site.assets.blobs start on fine missing wrong in
      (
        subst (λ (t : Site C E S). IsMapBacked L t.blobs site.assets.blobs) (sym after) k.backed,
        ap (λ (t : Site C E S). t.assets) after,
      )
