-- ===== src/Blobstore/Directory.antt =====
-- cli/internal/blobstore/directory/directory_store.go. `resolve k` is the name hex(k) in the store's
-- directory; the empty key resolves to the directory itself, which opens and cannot be read.
pub mod Laws
pub mod Removal
use htvend.Base.{String, Bool, true, false, not, none, some, List, [], ◌∷◌, ◌==◌}
use htvend.Base.{Bytes, take, contains, string_eq, if◌then◌else◌}
use htvend.Base.Hex.{encode}
use htvend.Base.Error.{
  message, wrap, both, sentinel, os_not_exist, blob_not_exist, errors_is, Result, ok, err,
}
use htvend.Platform.{Platform}
use htvend.Stream.{Reader}
use htvend.Blobstore.{Store}
use htvend.Blobstore.Caf
use htvend.Blobstore.Caf.{ContentAddressableFile, new_content_addressable_file}
use htvend.Blobstore.Disk.{
  Disk, io_error, attempt, next_fault, later, in_dir, open_file, read_dir, remove, remove_all, pass,
  fail,
}

unfoldable pub resolve : Bytes → String
resolve k = encode k

-- The reader of an open file: its bytes, or a failure after some of them.
opened : Result Bytes × Disk → Result Reader × Disk
opened (err e, d) = (err e, d)
opened (ok c, d) = elim (next_fault d.faults) [
  | pass ↦ (ok (record { chunks = c ∷ []; broken = none; closing = ok tt }), later d)
  | fail n ↦
      (ok (record { chunks = take n c ∷ []; broken = some io_error; closing = ok tt }), later d)
]

open_dir : Disk → Result Reader × Disk
open_dir =
    attempt
      (in_dir (λ es. (ok (record { chunks = []; broken = some io_error; closing = ok tt }), es)))

-- os.Open
open_path : String → Disk → Result Reader × Disk
unfolding opened open_dir
open_path name d = if name == "" then open_dir d else opened (open_file name d)

found : Result Reader × Disk → Result Reader × Disk
found (ok r, d) = (ok r, d)
found (err e, d) =
    (if errors_is os_not_exist e then err (both (sentinel blob_not_exist) e) else err e, d)

unfoldable pub get : Bytes → Disk → Result Reader × Disk
unfolding resolve open_path found
get k d = found (open_path (resolve k) d)

abbrev stat_dir : Disk → Result Bytes × Disk
stat_dir = attempt (in_dir (λ es. (ok [], es)))

-- os.Stat; of what it tells only whether there is such a file is used
stat : String → Disk → Result Bytes × Disk
stat name d = if name == "" then stat_dir d else open_file name d

seen : Result Bytes × Disk → Result Bool × Disk
seen (ok _, d) = (ok true, d)
seen (err e, d) = (
  if errors_is os_not_exist e
      then ok false
      else err (wrap "unexpected error checking for existence" e),
  d,
)

unfoldable pub exists : Bytes → Disk → Result Bool × Disk
unfolding resolve stat seen
exists k d = seen (stat (resolve k) d)

module _ (writable : Bool) where
  unfoldable pub put : Disk → Result ContentAddressableFile × Disk
  put d =
      if not writable
      then (err (message "blob store is not writable"), d)
      else (ok new_content_addressable_file, d)

  unfoldable pub destroy : Disk → Result (Unit {0}) × Disk
  destroy d =
      if not writable
      then (err (message "blob store is not writable and therefore cannot be destroyed"), d)
      else remove_all d

-- the loop of RemoveExcept
remove_others : List String → List String → Disk → Result (Unit {0}) × Disk
remove_others keep [] d = (ok tt, d)
remove_others keep (name ∷ names) d =
    let (r, d') = if contains keep name then (ok tt, d) else remove name d in
    let rest = remove_others keep names d' in elim r [ ok _ ↦ rest | err e ↦ (err e, d') ]

listed : List String → Result (List String) × Disk → Result (Unit {0}) × Disk
listed keep (ok names, d) = remove_others keep names d
listed keep (err e, d) =
    (if errors_is os_not_exist e then ok tt else err (wrap "error listing blobs dir" e), d)

unfoldable pub remove_except : Bool → List String → Disk → Result (Unit {0}) × Disk
unfolding listed remove_others
remove_except writable keep d =
    if not writable
    then (err (message "blob store is not writable and therefore cannot be modified"), d)
    else listed keep (read_dir d)

-- NewDirectoryStore(dir, writable)
abbrev pub directory_store : Platform → Bool → Store
directory_store P writable = record {
  State = Disk;
  Blob = ContentAddressableFile;
  get = get;
  exists = exists;
  put = put writable;
  write = Caf.write P;
  commit = Caf.commit P;
  cleanup = Caf.cleanup;
  destroy = destroy writable;
  remove_except = remove_except writable;
}
