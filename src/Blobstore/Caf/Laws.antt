-- ===== src/Blobstore/Caf/Laws.antt =====
-- What Write, Commit and Cleanup do to the files of the directory, on every path of failure.
use htvend.Base.{
  ◌≡◌, refl, ◌∙◌, ◌≢◌, String, ◌<>◌, some, [], arith, string_eq, nat_eq, Option-cases, inl, inr,
}
use htvend.Base.{Bytes}
use htvend.Base.Dict.{keys}
use htvend.Base.Hex.{encode}
use htvend.Base.Error.{Error, err}
use htvend.Platform.{Platform, IsPlatform}
use htvend.Blobstore.Disk.{Disk, entries, mkdir_all, close_file}
use htvend.Blobstore.Disk.Laws.{
  file, file-mkdir_all, file-close_file, file-create_temp, file-write_file, file-remove,
  file-rename_err, create_temp_cases,
}
use htvend.Blobstore.Caf.{
  TempFile, ContentAddressableFile, ensure_open, write_open, write_always, write, sum, finish,
  commit, cleanup,
}

abbrev Caf : Type 0
Caf = ContentAddressableFile

-- The blob's file, if it has one, is not the file `j`.
abbrev pub Avoids : String → Caf → Type 0
Avoids j c = (t : TempFile) → c.tf ≡ some t → j ≢ t.name

module _ (P : Platform) (L : IsPlatform P) (j : String)
    (permanent : (s : String) → j ≢ "tmp" <> s) where
  not_temp : (d : Disk) → j ≢ P.temp_name (keys (entries d))
  not_temp d e = permanent _ (e ∙ (L.temp_prefix (keys (entries d))).1)

  ensure_open-Avoids : (c : Caf) (d : Disk) → Avoids j c → Avoids j (ensure_open P c d).1
  unfolding ensure_open
  ensure_open-Avoids c d h t e q =
      let d' = (mkdir_all d).1 in ground (arith, h t, create_temp_cases P d', not_temp d')

  file-ensure_open : (c : Caf) (d : Disk) → file j (ensure_open P c d).2 ≡ file j d
  unfolding ensure_open
  file-ensure_open c d =
      let d' = (mkdir_all d).1 in
      ground (arith, file-mkdir_all j d, file-create_temp j P d' (not_temp d'))

  write_open-Avoids :
      (p : Bytes) (c : Caf) (d : Disk) → Avoids j c → Avoids j (write_open P p c d).1
  unfolding write_open
  write_open-Avoids p c d h t e q = ground (arith, h t)

  file-write_open :
      (p : Bytes) (c : Caf) (d : Disk) → Avoids j c → file j (write_open P p c d).2 ≡ file j d
  unfolding write_open
  file-write_open p c d h = elim (Option-cases c.tf) [
    | inl e ↦ rw (e, write_open) refl
    | inr (t, e) ↦ rw (e, write_open) (ground (arith, file-write_file j t.name p d (h t e)))
  ]

  pub write_always-Avoids :
      (p : Bytes) (c : Caf) (d : Disk) → Avoids j c → Avoids j (write_always P p c d).1
  unfolding write_always
  write_always-Avoids p c d h t e q =
      let kept = ensure_open-Avoids c d h in
      let (_, c', d') = ensure_open P c d in
      ground (arith, kept t, write_open-Avoids p c' d' kept t)

  pub file-write_always :
      (p : Bytes) (c : Caf) (d : Disk) → Avoids j c → file j (write_always P p c d).2 ≡ file j d
  unfolding write_always
  file-write_always p c d h =
      let kept = ensure_open-Avoids c d h in
      let (_, c', d') = ensure_open P c d in
      ground (arith, file-ensure_open c d, file-write_open p c' d' kept)

  finish-Avoids : (c : Caf) (d : Disk) → Avoids j c → Avoids j (finish P c d).1
  unfolding finish
  finish-Avoids c d h t e q = elim (Option-cases c.tf) [
    | inl no_file ↦ ground arith
    | inr (t', held) ↦ ground (arith, h t' held)
  ]

  -- Unless it succeeds, Commit leaves the file as it is.
  file-finish :
      (c : Caf) (d : Disk) (x : Error)
      → Avoids j c
      → (finish P c d).0 ≡ err x
      → file j (finish P c d).2 ≡ file j d
  unfolding finish
  file-finish c d x h e =
      let d' = (mkdir_all (close_file d).1).1 in
      elim (Option-cases c.tf) [
        | inl no_file ↦ rw (no_file, finish) refl
        | inr (t, held) ↦ ground (
          arith,
          file-close_file j d,
          file-mkdir_all j (close_file d).1,
          file-rename_err j t.name (encode (sum P c.dg)) d',
        )
      ]

  pub write-Avoids : (p : Bytes) (c : Caf) (d : Disk) → Avoids j c → Avoids j (write P p c d).1
  unfolding write
  write-Avoids p c d h t e q = ground (arith, h t, write_always-Avoids p c d h t)

  pub file-write :
      (p : Bytes) (c : Caf) (d : Disk) → Avoids j c → file j (write P p c d).2 ≡ file j d
  unfolding write
  file-write p c d h = ground (arith, file-write_always p c d h)

  pub commit-Avoids : (c : Caf) (d : Disk) → Avoids j c → Avoids j (commit P c d).1
  unfolding commit
  commit-Avoids c d h t e q =
      let kept = write_always-Avoids [] c d h in
      let (_, c', d') = write_always P [] c d in
      ground (arith, kept t, finish-Avoids c d h t, finish-Avoids c' d' kept t)

  pub file-commit_err :
      (c : Caf) (d : Disk) (x : Error)
      → Avoids j c
      → (commit P c d).0 ≡ err x
      → file j (commit P c d).2 ≡ file j d
  unfolding commit
  file-commit_err c d x h e =
      let kept = write_always-Avoids [] c d h in
      let (_, c', d') = write_always P [] c d in
      ground (arith, file-write_always [] c d h, file-finish c d x h, file-finish c' d' x kept)

  pub file-cleanup : (c : Caf) (d : Disk) → Avoids j c → file j (cleanup c d).2 ≡ file j d
  unfolding cleanup
  file-cleanup c d h = elim (Option-cases c.tf) [
    | inl no_file ↦ rw (no_file, cleanup) refl
    | inr (t, held) ↦
        rw (held, cleanup)
          (ground (
            arith,
            file-close_file j d,
            file-remove j t.name d (h t held),
            file-remove j t.name (close_file d).1 (h t held),
          ))
  ]
