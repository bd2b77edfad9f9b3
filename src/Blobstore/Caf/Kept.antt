-- ===== src/Blobstore/Caf/Kept.antt =====
-- What Write, Commit and Cleanup of one blob do to a file that is there and is not the blob's, such
-- as another blob's temporary file.
use htvend.Base.{
  ◌≡◌, refl, ◌∙◌, sym, ◌≢◌, String, ◌<>◌, some, none, [], arith, string_eq, nat_eq, Option-cases,
  inl, inr, Option,
}
use htvend.Base.{Bytes, IsBytes}
use htvend.Base.Dict.{keys, lookup, erase, lookup-contains, lookup-insert, lookup-erase}
use htvend.Base.Hex.{encode, encode-ne-tmp}
use htvend.Platform.{Platform, IsPlatform}
use htvend.Blobstore.Disk.{Disk, entries, mkdir_all, close_file, rename}
use htvend.Blobstore.Disk.Laws.{
  file, file-mkdir_all, file-close_file, file-create_temp, file-write_file, file-remove,
  create_temp_cases,
}
use htvend.Blobstore.Caf.{
  Caf, ensure_open, write_open, write_always, write, sum, finish, commit, cleanup,
}
use htvend.Blobstore.Caf.Laws.{Avoids}

abbrev pub IsTemp : String → Type 0
IsTemp j = (s : String) × (j ≡ "tmp" <> s)

module _ (P : Platform) (L : IsPlatform P) (j : String) (x : Bytes) where
  taken : (d : Disk) → file j d ≡ some x → j ≢ P.temp_name (keys (entries d))
  taken d h e =
      let new = lookup-contains j (entries d) (rw (e) (L.temp_fresh (keys (entries d)))) in cc

  ensure_open-Avoids :
      (c : Caf) (d : Disk) → file j d ≡ some x → Avoids j c → Avoids j (ensure_open P c d).1
  unfolding ensure_open
  ensure_open-Avoids c d there h t e q =
      let d' = (mkdir_all d).1 in
      ground (arith, h t, create_temp_cases P d', taken d' (file-mkdir_all j d ∙ there))

  file-ensure_open :
      (c : Caf) (d : Disk) → file j d ≡ some x → file j (ensure_open P c d).2 ≡ some x
  unfolding ensure_open
  file-ensure_open c d there =
      let d' = (mkdir_all d).1 in
      ground
        (arith, file-mkdir_all j d, file-create_temp j P d' (taken d' (file-mkdir_all j d ∙ there)))

  write_open-Avoids :
      (p : Bytes) (c : Caf) (d : Disk) → Avoids j c → Avoids j (write_open P p c d).1
  unfolding write_open
  write_open-Avoids p c d h t e q = ground (arith, h t)

  file-write_open :
      (p : Bytes) (c : Caf) (d : Disk) → Avoids j c → file j (write_open P p c d).2 ≡ file j d
  unfolding write_open
  file-write_open p c d h = elim (Option-cases c.tf) [
    | inl e ↦ rw (e, write_open) refl
    | inr (t, e) ↦ rw (e, write_open) (ground (arith, file-write_file j t.name p d (h t e)))
  ]

  write_always_kept :
      (p : Bytes) (c : Caf) (d : Disk)
      → file j d ≡ some x
      → Avoids j c
      → Avoids j (write_always P p c d).1 × (file j (write_always P p c d).2 ≡ some x)
  unfolding write_always
  write_always_kept p c d there h =
      let away = ensure_open-Avoids c d there h in
      let kept = file-ensure_open c d there in
      let (_, c', d') = ensure_open P c d in
      (
        λ t e q. ground (arith, away t, write_open-Avoids p c' d' away t),
        ground (arith, kept, file-write_open p c' d' away),
      )

  pub write_kept :
      (p : Bytes) (c : Caf) (d : Disk)
      → file j d ≡ some x
      → Avoids j c
      → Avoids j (write P p c d).1 × (file j (write P p c d).2 ≡ some x)
  unfolding write
  write_kept p c d there h =
      let (away, kept) = write_always_kept p c d there h in
      (λ t e q. ground (arith, h t, away t), ground (arith, kept))

  sum-IsBytes : (dg : Option Bytes) → IsBytes (sum P dg)
  sum-IsBytes none = tt
  sum-IsBytes (some b) = L.sha256_bytes b

  file-rename :
      (old : String) (rv : Bytes) (d : Disk)
      → IsBytes rv
      → IsTemp j
      → j ≢ old
      → file j (rename old (encode rv) d).1 ≡ file j d
  unfolding rename
  file-rename old rv d bytes (s, e) h =
      let apart : j ≢ encode rv = λ q. encode-ne-tmp rv bytes s (sym q ∙ e) in
      let es = entries d in
      elim (Option-cases (lookup old es)) [
        | inl absent ↦ ground arith
        | inr (c, held) ↦
            ground (arith, lookup-insert j (encode rv) c (erase old es), lookup-erase j old es)
      ]

  finish_kept :
      (c : Caf) (d : Disk)
      → file j d ≡ some x
      → IsTemp j
      → Avoids j c
      → Avoids j (finish P c d).1 × (file j (finish P c d).2 ≡ some x)
  unfolding finish
  finish_kept c d there temp h =
      let d' = (mkdir_all (close_file d).1).1 in
      elim (Option-cases c.tf) [
        | inl no_file ↦ (λ t e q. ground arith, rw (no_file, finish) there)
        | inr (t', held) ↦ (
          λ t e q. ground (arith, h t' held),
          ground (
            arith,
            file-close_file j d,
            file-mkdir_all j (close_file d).1,
            file-rename t'.name (sum P c.dg) d' (sum-IsBytes c.dg) temp (h t' held),
          ),
        )
      ]

  pub commit_kept :
      (c : Caf) (d : Disk)
      → file j d ≡ some x
      → IsTemp j
      → Avoids j c
      → Avoids j (commit P c d).1 × (file j (commit P c d).2 ≡ some x)
  unfolding commit
  commit_kept c d there temp h =
      let (away, kept) = write_always_kept [] c d there h in
      let (_, c', d') = write_always P [] c d in
      let (away1, kept1) = finish_kept c d there temp h in
      let (away2, kept2) = finish_kept c' d' kept temp away in
      (λ t e q. ground (arith, away t, away1 t, away2 t), ground (arith, kept, kept1, kept2))

  pub cleanup_kept :
      (c : Caf) (d : Disk)
      → file j d ≡ some x
      → Avoids j c
      → Avoids j (cleanup c d).1 × (file j (cleanup c d).2 ≡ some x)
  unfolding cleanup
  cleanup_kept c d there h = elim (Option-cases c.tf) [
    | inl no_file ↦ (λ t e q. ground arith, rw (no_file, cleanup) there)
    | inr (t, held) ↦ (
      λ t' e q. ground arith,
      rw (held, cleanup)
          (ground (
            arith,
            file-close_file j d,
            file-remove j t.name d (h t held),
            file-remove j t.name (close_file d).1 (h t held),
          )),
    )
  ]
