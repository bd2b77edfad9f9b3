-- ===== src/Blobstore/Caf.antt =====
-- cli/internal/blobstore/directory/caf/caf.go: a temporary file that is renamed to its digest. The
-- FilenameResolver is the store's: the digest's hexadecimal text, in the store's directory.
pub mod Laws
pub mod Integrity
pub mod Kept
pub mod Owned
use htvend.Base.{ℕ, ◌+◌, ◌==◌, String, Bool, true, false, Option, none, some, [], ◌++◌, nat_eq}
use htvend.Base.{Bytes, length, if◌then◌else◌}
use htvend.Base.Hex.{encode}
use htvend.Base.Error.{Error, message, wrap, Result, ok, err}
use htvend.Platform.{Platform}
use htvend.Blobstore.Disk.{Disk, mkdir_all, create_temp, write_file, close_file, rename, remove}

-- An *os.File made by os.CreateTemp.
pub record TempFile : Type 0 where
  pub name : String
  pub closed : Bool

-- `mw` says whether the writer is there; `dg` holds the bytes that the hash has taken.
pub record ContentAddressableFile : Type 0 where
  pub mw : Bool
  pub tf : Option TempFile
  pub dg : Option Bytes
  pub size : ℕ

abbrev pub new_content_addressable_file : ContentAddressableFile
new_content_addressable_file = record { mw = false; tf = none; dg = none; size = 0 }

abbrev pub Caf : Type 0
Caf = ContentAddressableFile

-- The methods of *os.File on a nil file and on a closed one return an error.
abbrev invalid : Error
invalid = message "invalid argument"

abbrev already_closed : Error
already_closed = message "file already closed"

module _ (P : Platform) where
  start_file : Caf → Result String × Disk → Result (Unit {0}) × Caf × Disk
  start_file c (err e, d) = (err (wrap "error creating temp file" e), record c { tf = none }, d)
  start_file c (ok name, d) =
      (ok tt, record c { mw = true; tf = some (record { name = name; closed = false }) }, d)

  start_dir : Caf → Result (Unit {0}) × Disk → Result (Unit {0}) × Caf × Disk
  start_dir c (err e, d) = (err (wrap "error creating parent dir" e), c, d)
  start_dir c (ok _, d) = start_file c (create_temp P d)

  -- the `if caf.mw == nil` block
  unfoldable pub ensure_open : Caf → Disk → Result (Unit {0}) × Caf × Disk
  unfolding start_file start_dir
  ensure_open c d =
      if c.mw then (ok tt, c, d) else start_dir (record c { dg = some [] }) (mkdir_all d)

  -- io.MultiWriter(caf.tf, caf.dg): the hash takes the bytes only if the file took them all
  hash_after : Bytes → Caf → (ℕ × Option Error) × Disk → (ℕ × Option Error) × Caf × Disk
  hash_after p c ((n, some e), d) = ((n, some e), record c { size = c.size + n }, d)
  hash_after p c ((n, none), d) = (
    (length p, none),
    record c { dg = elim c.dg [ none ↦ none | some b ↦ some (b ++ p) ]; size = c.size + length p },
    d,
  )

  unfoldable pub write_open : Bytes → Caf → Disk → (ℕ × Option Error) × Caf × Disk
  unfolding hash_after
  write_open p c d = elim c.tf [
    | none ↦ ((0, some invalid), c, d)
    | some t ↦
        if t.closed
        then ((0, some already_closed), c, d)
        else hash_after p c (write_file t.name p d)
  ]

  unfoldable pub write_when :
      Bytes → Result (Unit {0}) × Caf × Disk → (ℕ × Option Error) × Caf × Disk
  write_when p (err e, c, d) = ((0, some e), c, d)
  write_when p (ok _, c, d) = write_open p c d

  unfoldable pub write_always : Bytes → Caf → Disk → (ℕ × Option Error) × Caf × Disk
  unfolding write_when
  write_always p c d = write_when p (ensure_open c d)

  unfoldable pub write : Bytes → Caf → Disk → (ℕ × Option Error) × Caf × Disk
  write p c d = if length p == 0 then ((0, none), c, d) else write_always p c d

  -- The end of Commit, from the result of os.Rename.
  renamed : Bytes → Caf → Result (Unit {0}) × Disk → Result Bytes × Caf × Disk
  renamed rv c (err e, d) = (err (wrap "err renaming temp file" e), c, d)
  renamed rv c (ok _, d) = (ok rv, record c { mw = false; tf = none; dg = none }, d)

  placed : Bytes → String → Caf → Result (Unit {0}) × Disk → Result Bytes × Caf × Disk
  placed rv name c (err e, d) = (err (wrap "error creating parent dir" e), c, d)
  placed rv name c (ok _, d) = renamed rv c (rename name (encode rv) d)

  abbrev pub sum : Option Bytes → Bytes
  sum none = []
  sum (some b) = P.sha256 b

  after_close : TempFile → Caf → Result (Unit {0}) × Disk → Result Bytes × Caf × Disk
  after_close t c (err e, d) = (err (wrap "err closing temp file" e), c, d)
  after_close t c (ok _, d) = placed (sum c.dg) t.name c (mkdir_all d)

  abbrev shut : TempFile → Caf → Caf
  shut t c = record c { tf = some (record t { closed = true }) }

  -- Commit from caf.tf.Close() on
  unfoldable pub finish : Caf → Disk → Result Bytes × Caf × Disk
  unfolding renamed placed after_close
  finish c d = elim c.tf [
    | none ↦ (err (wrap "err closing temp file" invalid), c, d)
    | some t ↦
        if t.closed
        then (err (wrap "err closing temp file" already_closed), c, d)
        else after_close t (shut t c) (close_file d)
  ]

  unfoldable pub finish_when : (ℕ × Option Error) × Caf × Disk → Result Bytes × Caf × Disk
  finish_when ((n, some e), c, d) = (err (wrap "error writing empty file" e), c, d)
  finish_when ((n, none), c, d) = finish c d

  unfoldable pub commit : Caf → Disk → Result Bytes × Caf × Disk
  unfolding finish_when
  commit c d = if c.size == 0 then finish_when (write_always [] c d) else finish c d

close_any : TempFile → Disk → Result (Unit {0}) × Disk
close_any t d = if t.closed then (err already_closed, d) else close_file d

-- The errors of Close and Remove go to `retErr`, which the closing `return nil` overwrites.
unfoldable pub cleanup : Caf → Disk → Result (Unit {0}) × Caf × Disk
unfolding close_any
cleanup c d = elim c.tf [
  | none ↦ (ok tt, record c { mw = false; dg = none }, d)
  | some t ↦
      (ok tt, record c { mw = false; tf = none; dg = none }, (remove t.name (close_any t d).1).1)
]
