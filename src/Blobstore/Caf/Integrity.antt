-- ===== src/Blobstore/Caf/Integrity.antt =====
-- The bytes that a content-addressable file has taken, and its Commit (.../directory/caf/caf.go).
use htvend.Base.{
  ℕ, ◌≡◌, refl, ◌==◌, ◌≢◌, inl, inr, String, ◌<>◌, true, false, Option, none, some, [], ◌∷◌, ◌++◌,
  arith, string_eq, nat_eq, append-nil,
}
use htvend.Base.{Bytes, length, length-append, if◌then◌else◌, Bool-cases, ==_ne, suc}
use htvend.Base.Dict.{keys}
use htvend.Base.Hex.{encode}
use htvend.Base.Error.{Error, Result, ok, err}
use htvend.Platform.{Platform, IsPlatform}
use htvend.Blobstore.Disk.{Disk, entries, mkdir_all, close_file}
use htvend.Blobstore.Disk.Laws.{
  file, file-mkdir_all, file-close_file, file-rename_ok, create_temp_cases, write_file_ok,
}
use htvend.Blobstore.Caf.{
  TempFile, Caf, ensure_open, write_open, write_when, write_always, write, finish, finish_when,
  commit,
}
use htvend.Blobstore.Caf.Laws.{Avoids, write_always-Avoids, file-write_always}

-- No write has reached the disk.
pub record IsFresh (c : Caf) (b : Bytes) : Type 0 where
  pub mw : c.mw ≡ false
  pub tf : c.tf ≡ none
  pub size : c.size ≡ 0
  pub bytes : b ≡ []

-- The bytes stand in the open temporary file, the hash has taken the same, and `size` counts them.
pub record IsOpen (t : TempFile) (c : Caf) (d : Disk) (b : Bytes) : Type 0 where
  pub mw : c.mw ≡ true
  pub tf : c.tf ≡ some t
  pub open_file : t.closed ≡ false
  pub dg : c.dg ≡ some b
  pub size : c.size ≡ length b
  pub held : file t.name d ≡ some b

-- The blob has taken the bytes `b`.
pub data Holds (c : Caf) (d : Disk) (b : Bytes) : Type 0 where
  fresh : IsFresh c b → Holds c d b
  opened : (t : TempFile) → IsOpen t c d b → Holds c d b

module _ (P : Platform) (L : IsPlatform P) where
  temp_of : Disk → TempFile
  temp_of d = record { name = P.temp_name (keys (entries (mkdir_all d).1)); closed = false }

  ensure_open-IsOpen_fresh :
      (c : Caf) (d : Disk) (b : Bytes)
      → IsFresh c b
      → (ensure_open P c d).0 ≡ ok tt
      → IsOpen (temp_of d) (ensure_open P c d).1 (ensure_open P c d).2 b
  unfolding ensure_open temp_of
  ensure_open-IsOpen_fresh c d b h e =
      let d' = (mkdir_all d).1 in ground (arith, create_temp_cases P d')

  write_open-IsOpen :
      (p : Bytes) (t : TempFile) (c : Caf) (d : Disk) (b : Bytes)
      → IsOpen t c d b
      → (write_open P p c d).0.1 ≡ none
      → IsOpen t (write_open P p c d).1 (write_open P p c d).2 (b ++ p)
  unfolding write_open
  write_open-IsOpen p t c d b h e = ground (arith, write_file_ok t.name p b d, length-append b p)

  ensure_open-IsOpen :
      (c : Caf) (d : Disk) (b : Bytes)
      → Holds c d b
      → (ensure_open P c d).0 ≡ ok tt
      → (t : TempFile) × IsOpen t (ensure_open P c d).1 (ensure_open P c d).2 b
  ensure_open-IsOpen c d b (fresh h) e = (temp_of d, ensure_open-IsOpen_fresh c d b h e)
  ensure_open-IsOpen c d b (opened t h) e = (t, unfold ensure_open in simp h.mw h)

  write_when-IsOpen :
      (p : Bytes) (r : Result (Unit {0})) (c : Caf) (d : Disk) (b : Bytes)
      → (r ≡ ok tt → (t : TempFile) × IsOpen t c d b)
      → (write_when P p (r, c, d)).0.1 ≡ none
      → (t : TempFile) × IsOpen t (write_when P p (r, c, d)).1 (write_when P p (r, c, d)).2 (b ++ p)
  unfolding write_when
  write_when-IsOpen p (err x) c d b h e = absurd (cc)
  write_when-IsOpen p (ok tt) c d b h e =
      let (t, o) = h refl in (t, write_open-IsOpen p t c d b o e)

  write_always-IsOpen :
      (p : Bytes) (c : Caf) (d : Disk) (b : Bytes)
      → Holds c d b
      → (write_always P p c d).0.1 ≡ none
      → (t : TempFile) × IsOpen t (write_always P p c d).1 (write_always P p c d).2 (b ++ p)
  unfolding write_always
  write_always-IsOpen p c d b h e =
      let (r, c', d') = ensure_open P c d in
      write_when-IsOpen p r c' d' b (ensure_open-IsOpen c d b h) e

  write_cons :
      (x : ℕ) (p : Bytes) (c : Caf) (d : Disk) → write P (x ∷ p) c d ≡ write_always P (x ∷ p) c d
  unfolding write
  write_cons x p c d = rw (==_ne (suc (length p)) 0 (λ e. omega arith)) refl

  -- A write that does not fail adds its bytes.
  pub write-Holds :
      (p : Bytes) (c : Caf) (d : Disk) (b : Bytes)
      → Holds c d b
      → (write P p c d).0.1 ≡ none
      → Holds (write P p c d).1 (write P p c d).2 (b ++ p)
  unfolding write nat_eq
  write-Holds [] c d b h e = rw append-nil h
  write-Holds (x ∷ p) c d b h e =
      let same = write_cons x p c d in
      let (t, o) = write_always-IsOpen (x ∷ p) c d b h (rw same at e) in rw same (opened t o)

  -- Commit from Close on, of an open file.
  finish_ok :
      (j : String) (t : TempFile) (c : Caf) (d : Disk) (b rv : Bytes)
      → Avoids j c
      → IsOpen t c d b
      → (finish P c d).0 ≡ ok rv
      → (rv ≡ P.sha256 b)
        × (file j (finish P c d).2 ≡ (if j == encode rv then some b else file j d))
  unfolding finish
  finish_ok j t c d b rv away h e =
      let d' = (mkdir_all (close_file d).1).1 in
      ground (
        arith,
        file-close_file j d,
        file-mkdir_all j (close_file d).1,
        file-close_file t.name d,
        file-mkdir_all t.name (close_file d).1,
        file-rename_ok j t.name (encode (P.sha256 b)) d' b,
        away t h.tf,
      )

  module _ (j : String) (permanent : (s : String) → j ≢ "tmp" <> s) where
    finish_when_ok :
        (r : ℕ × Option Error) (c : Caf) (d : Disk) (b rv : Bytes)
        → Avoids j c
        → (r.1 ≡ none → (t : TempFile) × IsOpen t c d b)
        → (finish_when P (r, c, d)).0 ≡ ok rv
        → (rv ≡ P.sha256 b)
          × (file j (finish_when P (r, c, d)).2 ≡ (if j == encode rv then some b else file j d))
    unfolding finish_when
    finish_when_ok (n, some x) c d b rv away h e = absurd (cc)
    finish_when_ok (n, none) c d b rv away h e =
        let (t, o) = h refl in finish_ok j t c d b rv away o e

    -- A Commit that succeeds returns the digest of the bytes written, the file of that name holds
    -- them, and no other permanent file changes.
    pub commit-Holds :
        (c : Caf) (d : Disk) (b rv : Bytes)
        → Avoids j c
        → Holds c d b
        → (commit P c d).0 ≡ ok rv
        → (rv ≡ P.sha256 b)
          × (file j (commit P c d).2 ≡ (if j == encode rv then some b else file j d))
    unfolding commit
    commit-Holds c d b rv away h e = elim (Bool-cases (c.size == 0)) [
      | inl empty ↦
          let (r, c', d') = write_always P [] c d in
          let (digest, files) =
            finish_when_ok r c' d' (b ++ []) rv (write_always-Avoids P L j permanent [] c d away)
              (write_always-IsOpen [] c d b h) (rw empty at e) in
          rw (empty, ← append-nil b, ← file-write_always P L j permanent [] c d away)
            (digest, files)
      | inr more ↦ rw more (nonempty more h (rw more at e))
    ]
      where
        nonempty :
            (c.size == 0) ≡ false
            → Holds c d b
            → (finish P c d).0 ≡ ok rv
            → (rv ≡ P.sha256 b)
              × (file j (finish P c d).2 ≡ (if j == encode rv then some b else file j d))
        nonempty more (fresh f) e' = absurd (ground arith)
        nonempty more (opened t o) e' = finish_ok j t c d b rv away o e'
