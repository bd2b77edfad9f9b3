-- ===== src/Export/Exported.antt =====
-- ensureBlobExported: the destination after it.
use htvend.Base.{◌≡◌, refl, sym, ◌∙◌, ◌==◌, Bool, true, false, none, some, [], arith, inl, inr}
use htvend.Base.{Bytes, IsBytes, concat, list_eq, nat_eq, ==_refl, ==_sound, Bool-cases}
use htvend.Base.Error.{Result, ok, err, defer_error_ok, wrap_err, wrap}
use htvend.Platform.{Platform, IsPlatform}
use htvend.Stream.{Reader, io_copy}
use htvend.Stream.Laws.{copy_chunks_keeps, copy_chunks_ok, copy_one_keeps}
use htvend.Blobstore.{Store, IsLawful}
use htvend.Blobstore.Growth.{Grows, Grows-trans, Grows-same, Grows-put, Grows-commit, Grows-cleanup}
use htvend.Listener.Fetch.{Copying, write_blob}
use htvend.Listener.Copied.{IsCopying, write_blob-IsCopying, HoldsBytes, direct_round}
use htvend.Export.{committed, differs, cleaned, copied, fetched, checked, ensure_blob_exported}

module _ {P : Platform} (LP : IsPlatform P) {D : Store} (L : IsLawful P D) (expected : Bytes) where
  unfoldable pub IsPresent : D.State → Type 0
  IsPresent d = (c : Bytes) × (L.view d expected ≡ some c)

  IsPresent-same :
      (d d' : D.State) → L.view d' expected ≡ L.view d expected → IsPresent d → IsPresent d'
  unfolding IsPresent
  IsPresent-same d d' same (c, h) = (c, same ∙ h)

  -- The destination has only grown, and has the blob, if the export succeeded.
  pub record IsExported (d0 : D.State) (o : Result (Unit {0}) × D.State) : Type 0 where
    pub grown : Grows L d0 o.1
    pub present : IsBytes expected → (expected ≡ [] → ⊥) → o.0 ≡ ok tt → IsPresent o.1

  record IsCommitted (d0 : D.State) (o : Result (Unit {0}) × Copying D) : Type 0 where
    copying : IsCopying L d0 o.1
    pub present : IsBytes expected → (expected ≡ [] → ⊥) → o.0 ≡ ok tt → IsPresent o.1.state

  differs_ok : (actual : Bytes) → differs D expected actual ≡ ok tt → expected ≡ actual
  differs_ok actual h = elim (Bool-cases (expected == actual)) [
    | inl same ↦ ==_sound expected actual same
    | inr other ↦ absurd (ground arith)
  ]

  committed-IsPresent :
      (c : Copying D) (b : Bytes)
      → IsBytes expected
      → L.IsLive c.blob
      → L.Holds c.blob c.state b
      → (committed D expected (ok tt, c)).0 ≡ ok tt
      → IsPresent (D.commit c.blob c.state).2
  unfolding committed IsPresent
  committed-IsPresent c b bytes live held h = go (D.commit c.blob c.state).0 refl h
    where
      go :
          (d : Result Bytes)
          → (D.commit c.blob c.state).0 ≡ d
          → elim d as (λ _. Result (Unit {0})) [
            | err e ↦ err (wrap "error comming destination blob" e)
            | ok actual ↦ differs D expected actual
          ]
            ≡ ok tt
          → (x : Bytes) × (L.view (D.commit c.blob c.state).2 expected ≡ some x)
      go (err e) q h = absurd (cc)
      go (ok actual) q h =
          let same = differs_ok actual h in
          let (_, view) = L.commit_ok c.blob c.state b actual expected bytes live held q in
          (b, rw (sym same, ==_refl) at view)

  committed-IsCommitted :
      (d0 : D.State) (r : Result (Unit {0})) (c : Copying D) (b : Bytes)
      → IsCopying L d0 c
      → (r ≡ ok tt → L.Holds c.blob c.state b)
      → IsCommitted d0 (committed D expected (r, c))
  unfolding committed
  committed-IsCommitted d0 (err e) c b k held = record {
    copying = k;
    present = λ bytes some_key h. absurd (cc);
  }
  committed-IsCommitted d0 (ok _) c b k held = record {
    copying = record {
      live = L.commit_live c.blob c.state k.live;
      grown =
          Grows-trans L d0 c.state (D.commit c.blob c.state).2 k.grown
            (Grows-commit L c.blob c.state b k.live (held refl));
    };
    present = λ bytes some_key h. committed-IsPresent c b bytes k.live (held refl) h;
  }

  cleaned-IsExported :
      (d0 : D.State) (o : Result (Unit {0}) × Copying D)
      → IsCommitted d0 o
      → IsExported d0 (cleaned D expected o)
  cleaned-IsExported d0 (r, c) k =
      let s = (D.cleanup c.blob c.state).2 in
      record {
        grown =
            Grows-trans L d0 c.state s k.copying.grown
              (Grows-cleanup L c.blob c.state k.copying.live);
        present = λ bytes some_key h.
            IsPresent-same c.state s (L.view-cleanup c.blob c.state expected bytes k.copying.live) (
              k.present bytes some_key (
                defer_error_ok r (wrap_err "error committing to dest" (D.cleanup c.blob c.state).0)
                  h));
      }

  copied-IsExported :
      (d0 : D.State) (src : Reader) (x : Result D.Blob) (s : D.State)
      → Grows L d0 s
      → ((b : D.Blob) → x ≡ ok b → L.IsLive b × L.Holds b s [])
      → IsExported d0 (copied D expected src (x, s))
  unfolding copied
  copied-IsExported d0 src (err e) s g fresh = record {
    grown = g;
    present = λ bytes some_key h. absurd (cc);
  }
  copied-IsExported d0 src (ok b) s g fresh =
      let (live, held) = fresh b refl in
      let c : Copying D = record { reply = none; blob = b; state = s } in
      let (r, c') = io_copy (write_blob D) [] src c in
      cleaned-IsExported d0 (committed D expected (r, c')) (
        committed-IsCommitted d0 r c' (concat src.chunks)
          (copy_chunks_keeps (write_blob D) [] (IsCopying L d0)
            (copy_one_keeps (IsCopying L d0) (write_blob D) [] (write_blob-IsCopying L d0) tt)
            src.chunks src.broken c (record { live = live; grown = g }))
          (λ e.
            (copy_chunks_ok (write_blob D) [] (HoldsBytes L) (direct_round L) src.chunks src.broken
              [] c held e).0))

module _ {P : Platform} (LP : IsPlatform P) (S : Store) {D : Store} (L : IsLawful P D)
    (expected : Bytes) where
  fetched-IsExported :
      (d0 d : D.State) (r : Result Reader) (s : S.State)
      → Grows L d0 d
      → let (x, _, d') = fetched S D expected (r, s) d in IsExported LP L expected d0 (x, d')
  unfolding fetched
  fetched-IsExported d0 d (err e) s g = record {
    grown = g;
    present = λ bytes some_key h. absurd (cc);
  }
  fetched-IsExported d0 d (ok r) s g =
      copied-IsExported LP L expected d0 r (D.put d).0 (D.put d).1
        (Grows-trans L d0 d (D.put d).1 g (Grows-put L d)) (λ b e. L.put_live d b e)

  checked-IsExported :
      (d0 d : D.State) (x : Result Bool) (s : S.State)
      → Grows L d0 d
      → ((expected ≡ [] → ⊥) → x ≡ ok true → IsPresent LP L expected d)
      → let (r, _, d') = checked S D expected (x, d) s in IsExported LP L expected d0 (r, d')
  unfolding checked
  checked-IsExported d0 d (err e) s g there = record {
    grown = g;
    present = λ bytes some_key h. absurd (cc);
  }
  checked-IsExported d0 d (ok true) s g there = record {
    grown = g;
    present = λ bytes some_key h. there some_key refl;
  }
  checked-IsExported d0 d (ok false) s g there =
      fetched-IsExported d0 d (S.get expected s).0 (S.get expected s).1 g

  -- ensureBlobExported, on every branch: the destination holds at every key what it held, or bytes
  -- with that digest; and if it returns nil and the digest is not empty, the destination has a
  -- blob under it.
  pub ensure_blob_exported-IsExported :
      (s : S.State) (d : D.State)
      → let (r, _, d') = ensure_blob_exported S D expected s d in IsExported LP L expected d (r, d')
  unfolding ensure_blob_exported IsPresent
  ensure_blob_exported-IsExported s d =
      let (x, d1) = D.exists expected d in
      checked-IsExported d d1 x s (Grows-same L d d1 (λ j _. L.view-exists expected j d))
        (λ some_key e.
          let (c, held) = L.exists_ok expected d some_key e in
          (c, L.view-exists expected expected d ∙ held))
