-- ===== src/Blobstore/Disk/Laws.antt =====
-- What each call of package os does to the file of one name, whether it fails or not.
use htvend.Base.{◌≡◌, refl, ◌==◌, ◌≢◌, String, Option, none, some, [], ◌++◌, arith, string_eq}
use htvend.Base.{Bytes, if◌then◌else◌, ==_ne, ==_refl, Option-cases, ◌⊎◌, inl, inr, take, ℕ}
use htvend.Base.Dict.{keys, lookup, lookup-nil, lookup-insert, lookup-erase, erase, Dict}
use htvend.Base.Error.{Error, ok, err}
use htvend.Platform.{Platform}
use htvend.Blobstore.Disk.{
  Disk, next_fault, pass, fail, entries, later, mkdir_all, create_temp, append_to, append_in,
  write_file, close_file, rename, remove, open_file, read_dir,
}

-- The bytes of the file `name`.
abbrev pub file : String → Disk → Option Bytes
file name d = lookup name (entries d)

abbrev pub fault_size : Disk → ℕ
fault_size d = elim (next_fault d.faults) [ pass ↦ 0 | fail n ↦ n ]

module _ (j : String) where
  pub file-mkdir_all : (d : Disk) → file j (mkdir_all d).1 ≡ file j d
  unfolding mkdir_all
  file-mkdir_all d = ground arith

  pub file-close_file : (d : Disk) → file j (close_file d).1 ≡ file j d
  unfolding close_file
  file-close_file d = ground arith

  pub file-create_temp :
      (P : Platform) (d : Disk)
      → j ≢ P.temp_name (keys (entries d))
      → file j (create_temp P d).1 ≡ file j d
  unfolding create_temp
  file-create_temp P d h =
      ground (arith, lookup-insert j (P.temp_name (keys (entries d))) [] (entries d))

  lookup-append_to :
      (name : String) (p : Bytes) (es : Dict String Bytes)
      → j ≢ name
      → lookup j (append_to name p es) ≡ lookup j es
  lookup-append_to name p es h = elim (Option-cases (lookup name es)) [
    | inl e ↦ rw (e, append_to) refl
    | inr (c, e) ↦ rw (e, append_to, lookup-insert, ==_ne j name h) refl
  ]

  file-append_in :
      (name : String) (p : Bytes) (d : Disk) → j ≢ name → file j (append_in name p d) ≡ file j d
  file-append_in name p d h = ground (arith, lookup-append_to name p (entries d) h)

  pub file-write_file :
      (name : String) (p : Bytes) (d : Disk) → j ≢ name → file j (write_file name p d).1 ≡ file j d
  unfolding write_file
  file-write_file name p d h = ground (
    arith,
    file-append_in name p (later d) h,
    file-append_in name (take (fault_size d) p) (later d) h,
  )

  pub file-remove : (name : String) (d : Disk) → j ≢ name → file j (remove name d).1 ≡ file j d
  unfolding remove
  file-remove name d h = ground (arith, lookup-erase j name (entries d))

  pub file-open_file : (name : String) (d : Disk) → file j (open_file name d).1 ≡ file j d
  unfolding open_file
  file-open_file name d = ground arith

  pub file-read_dir : (d : Disk) → file j (read_dir d).1 ≡ file j d
  unfolding read_dir
  file-read_dir d = ground arith

  -- A failed rename changes nothing.
  pub file-rename_err :
      (old new : String) (d : Disk)
      → (rename old new d).0 ≢ ok tt
      → file j (rename old new d).1 ≡ file j d
  unfolding rename
  file-rename_err old new d h = ground arith

  -- A rename gives the new name the old file, and takes the old name away.
  pub file-rename_ok :
      (old new : String) (d : Disk) (c : Bytes)
      → (rename old new d).0 ≡ ok tt
      → file old d ≡ some c
      → j ≢ old
      → file j (rename old new d).1 ≡ (if j == new then some c else file j d)
  unfolding rename
  file-rename_ok old new d c h held ne =
      ground (arith, lookup-insert j new c (erase old (entries d)), lookup-erase j old (entries d))

module _ (P : Platform) (d : Disk) where
  -- A temporary file that could be made is empty.
  pub create_temp_cases :
      ((e : Error) × ((create_temp P d).0 ≡ err e))
      ⊎ (((create_temp P d).0 ≡ ok (P.temp_name (keys (entries d))))
          × (file (P.temp_name (keys (entries d))) (create_temp P d).1 ≡ some []))
  unfolding create_temp
  create_temp_cases =
      let name = P.temp_name (keys (entries d)) in
      ground (arith, lookup-insert name name [] (entries d))

append_to_self :
    (name : String) (p c : Bytes) (es : Dict String Bytes)
    → lookup name es ≡ some c
    → lookup name (append_to name p es) ≡ some (c ++ p)
append_to_self name p c es h = rw (h, append_to, lookup-insert) (ground (arith, ==_refl name))

file-append_in_self :
    (name : String) (p c : Bytes) (d : Disk)
    → file name d ≡ some c
    → file name (append_in name p d) ≡ some (c ++ p)
file-append_in_self name p c d h =
    ground (arith, append_to_self name p c (entries d) h, lookup-nil {V = Bytes} name)

-- A write that does not fail adds its bytes to the file.
pub write_file_ok :
    (name : String) (p c : Bytes) (d : Disk)
    → (write_file name p d).0.1 ≡ none
    → file name d ≡ some c
    → file name (write_file name p d).1 ≡ some (c ++ p)
unfolding write_file
write_file_ok name p c d h held = ground (arith, file-append_in_self name p c (later d) held)
