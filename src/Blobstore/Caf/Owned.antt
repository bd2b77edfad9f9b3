-- ===== src/Blobstore/Caf/Owned.antt =====
-- The temporary file of a blob: there, of a temporary name, and the blob's alone.
use htvend.Base.{
  ◌≡◌, ◌∙◌, sym, ◌≢◌, ◌==◌, String, false, some, none, [], arith, string_eq, nat_eq, Option-cases,
  Bool-cases, inl, inr, ◌⊎◌, Option,
}
use htvend.Base.{Bytes, take, length, if_both, ℕ}
use htvend.Base.Dict.{keys, lookup, Dict, lookup-insert}
use htvend.Base.Hex.{encode}
use htvend.Base.Error.{Error, Result, ok, err, Result-cases}
use htvend.Platform.{Platform, IsPlatform}
use htvend.Blobstore.Disk.{
  Disk, entries, mkdir_all, close_file, write_file, append_to, append_in, later,
}
use htvend.Blobstore.Disk.Laws.{
  file, fault_size, file-mkdir_all, file-close_file, file-rename_err, create_temp_cases,
}
use htvend.Blobstore.Caf.{
  TempFile, Caf, ensure_open, write_open, write_when, write_always, write, sum, finish, finish_when,
  commit,
}
use htvend.Blobstore.Caf.Laws.{Avoids}
use htvend.Blobstore.Caf.Kept.{IsTemp}

abbrev pub IsThere : String → Disk → Type 0
IsThere j d = file j d ≢ none

-- The blob's file, if it has one, is there under a temporary name.
abbrev pub Owns : Caf → Disk → Type 0
Owns c d = (t : TempFile) → c.tf ≡ some t → IsTemp t.name × IsThere t.name d

-- Two blobs have no file in common.
abbrev pub IsApart : Caf → Caf → Type 0
IsApart c c' = (t : TempFile) → c'.tf ≡ some t → Avoids t.name c

append_to_there :
    (j name : String) (p : Bytes) (es : Dict String Bytes)
    → lookup j es ≢ none
    → lookup j (append_to name p es) ≢ none
append_to_there j name p es h = elim (Option-cases (lookup name es)) [
  | inl absent ↦ rw (absent, append_to) h
  | inr (old, e) ↦ elim (Bool-cases (j == name)) [
    | inl same ↦ rw (e, append_to, lookup-insert, same) (λ q. cc)
    | inr other ↦ rw (e, append_to, lookup-insert, other) h
  ]
]

append_in-IsThere :
    (j name : String) (p : Bytes) (d : Disk) → IsThere j d → IsThere j (append_in name p d)
append_in-IsThere j name p d h = elim (Option-cases d.dir) [
  | inl e ↦ rw (e, append_in) h
  | inr (es, e) ↦ rw (e, append_in) (append_to_there j name p es (rw e at h))
]

-- A write removes no file.
write_file-IsThere :
    (j name : String) (p : Bytes) (d : Disk) → IsThere j d → IsThere j (write_file name p d).1
unfolding write_file
write_file-IsThere j name p d h q = ground (
  arith,
  append_in-IsThere j name p (later d) h,
  append_in-IsThere j name (take (fault_size d) p) (later d) h,
)

module _ (P : Platform) (L : IsPlatform P) where
  new_name : Disk → String
  new_name d = P.temp_name (keys (entries (mkdir_all d).1))

  ensure_open_cases :
      (c : Caf) (d : Disk)
      → (((ensure_open P c d).1.tf ≡ c.tf)
          × ((j : String) → file j (ensure_open P c d).2 ≡ file j d))
        ⊎ (((ensure_open P c d).1.tf ≡ none)
            ⊎ (((ensure_open P c d).1.tf ≡ some (record { name = new_name d; closed = false }))
                × (file (new_name d) (ensure_open P c d).2 ≡ some [])))
  unfolding ensure_open new_name
  ensure_open_cases c d = elim (Bool-cases c.mw) [
    | inl e ↦ inl (ground arith, λ j. ground arith)
    | inr e ↦ elim (Result-cases (mkdir_all d).0) [
      | inr (x, e') ↦ inl (ground arith, λ j. ground (arith, file-mkdir_all j d))
      | inl (_, e') ↦ inr (ground (arith, create_temp_cases P (mkdir_all d).1))
    ]
  ]

  ensure_open-Owns :
      (c : Caf) (d : Disk) → Owns c d → Owns (ensure_open P c d).1 (ensure_open P c d).2
  ensure_open-Owns c d h t e = elim (ensure_open_cases c d) [
    | inl (same, files) ↦
        let (temp, there) = h t (sym same ∙ e) in (temp, λ q. there (sym (files t.name) ∙ q))
    | inr (inl gone) ↦ absurd (cc)
    | inr (inr (new, made)) ↦
        let same : t ≡ record { name = new_name d; closed = false } = cc in
        rw same (unfold new_name in L.temp_prefix (keys (entries (mkdir_all d).1)), λ q. cc)
  ]

  write_open-Owns :
      (p : Bytes) (c : Caf) (d : Disk)
      → Owns c d
      → Owns (write_open P p c d).1 (write_open P p c d).2
  unfolding write_open
  write_open-Owns p c d h t e = elim (Option-cases c.tf) [
    | inl no_file ↦ absurd (let q = rw (no_file, write_open) at e in cc)
    | inr (t', held) ↦
        let (temp, there) = h t' held in
        let same : t ≡ t' = ground arith in
        (rw same temp, rw same (λ q. ground (arith, write_file-IsThere t'.name t'.name p d there)))
  ]

  write_when-Owns :
      (p : Bytes) (r : Result (Unit {0})) (c : Caf) (d : Disk)
      → Owns c d
      → Owns (write_when P p (r, c, d)).1 (write_when P p (r, c, d)).2
  unfolding write_when
  write_when-Owns p (err x) c d h = h
  write_when-Owns p (ok _) c d h = write_open-Owns p c d h

  write_always-Owns :
      (p : Bytes) (c : Caf) (d : Disk)
      → Owns c d
      → Owns (write_always P p c d).1 (write_always P p c d).2
  unfolding write_always
  write_always-Owns p c d h =
      let kept = ensure_open-Owns c d h in
      let (r, c', d') = ensure_open P c d in write_when-Owns p r c' d' kept

  pub write-Owns :
      (p : Bytes) (c : Caf) (d : Disk) → Owns c d → Owns (write P p c d).1 (write P p c d).2
  unfolding write
  write-Owns p c d h =
      if_both (λ (o : (ℕ × Option Error) × Caf × Disk). Owns o.1 o.2) (length p == 0)
        ((0, none), c, d) (write_always P p c d) h (write_always-Owns p c d h)

  -- What a Commit leaves to the blob: no file, or the one it had.
  finish-Owns : (c : Caf) (d : Disk) → Owns c d → Owns (finish P c d).1 (finish P c d).2
  unfolding finish
  finish-Owns c d h t e =
      let d' = (mkdir_all (close_file d).1).1 in
      elim (Option-cases c.tf) [
        | inl no_file ↦ absurd (let q = rw (no_file, finish) at e in cc)
        | inr (t', held) ↦
            let (temp, there) = h t' held in
            let same : t.name ≡ t'.name = ground arith in
            (
              rw same temp,
              rw same (λ q. ground (
                arith,
                file-close_file t'.name d,
                file-mkdir_all t'.name (close_file d).1,
                file-rename_err t'.name t'.name (encode (sum P c.dg)) d',
              )),
            )
      ]

  finish_when-Owns :
      (r : ℕ × Option Error) (c : Caf) (d : Disk)
      → Owns c d
      → Owns (finish_when P (r, c, d)).1 (finish_when P (r, c, d)).2
  unfolding finish_when
  finish_when-Owns (n, some e) c d h = h
  finish_when-Owns (n, none) c d h = finish-Owns c d h

  pub commit-Owns : (c : Caf) (d : Disk) → Owns c d → Owns (commit P c d).1 (commit P c d).2
  unfolding commit
  commit-Owns c d h =
      let (r, c', d') = write_always P [] c d in
      if_both (λ (o : Result Bytes × Caf × Disk). Owns o.1 o.2) (c.size == 0)
        (finish_when P (r, c', d')) (finish P c d)
        (finish_when-Owns r c' d' (write_always-Owns [] c d h)) (finish-Owns c d h)
