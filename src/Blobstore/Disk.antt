-- ===== src/Blobstore/Disk.antt =====
-- The directory of a blob store, and the calls of package os on it. Each call takes the next entry of
-- `faults`; where it says `fail n` the call fails, after n bytes or names where it works on several.
pub mod Laws
use htvend.Base.{ℕ, ◌-◌, ◌==◌, String, Option, none, some, List, [], ◌∷◌, ◌++◌, nat_eq, string_eq}
use htvend.Base.{Bytes, length, take, if◌then◌else◌}
use htvend.Base.Dict
use htvend.Base.Dict.{Dict, keys}
use htvend.Base.Error.{Error, message, sentinel, os_not_exist, Result, ok, err}
use htvend.Platform.{Platform}

pub data Fault : Type 0 where
  pass : Fault
  fail : ℕ → Fault

-- `dir` is `none` while the directory does not exist.
pub record Disk : Type 0 where
  pub dir : Option (Dict String Bytes)
  pub faults : List Fault

abbrev pub entries : Disk → Dict String Bytes
entries d = elim d.dir [ none ↦ [] | some es ↦ es ]

abbrev pub io_error : Error
io_error = message "input/output error"

abbrev pub missing : Error
missing = sentinel os_not_exist

abbrev pub next_fault : List Fault → Fault
next_fault [] = pass
next_fault (f ∷ fs) = f

abbrev pub later : Disk → Disk
later d = record d { faults = elim d.faults [ [] ↦ [] | f ∷ fs ↦ fs ] }

-- A call that does nothing when it fails.
abbrev pub attempt {ℓ} : {A : Type ℓ} → (Disk → Result A × Disk) → Disk → Result A × Disk
attempt body d = elim (next_fault d.faults) [
  | pass ↦ body (later d)
  | fail n ↦ (err io_error, later d)
]

-- os.MkdirAll
unfoldable pub mkdir_all : Disk → Result (Unit {0}) × Disk
mkdir_all = attempt (λ d. (ok tt, record d { dir = some (entries d) }))

abbrev pub in_dir {ℓ} :
    {A : Type ℓ} → (Dict String Bytes → Result A × Dict String Bytes) → Disk → Result A × Disk
in_dir f d = elim d.dir [
  | none ↦ (err missing, d)
  | some es ↦ let (r, es') = f es in (r, record d { dir = some es' })
]

-- os.CreateTemp
unfoldable pub create_temp : Platform → Disk → Result String × Disk
create_temp P =
    attempt (in_dir (λ es. let name = P.temp_name (keys es) in (ok name, Dict.insert name [] es)))

abbrev pub append_to : String → Bytes → Dict String Bytes → Dict String Bytes
append_to name p es = elim (Dict.lookup name es) [
  | none ↦ es
  | some old ↦ Dict.insert name (old ++ p) es
]

abbrev pub append_in : String → Bytes → Disk → Disk
append_in name p d = elim d.dir [
  | none ↦ d
  | some es ↦ record d { dir = some (append_to name p es) }
]

-- (*os.File).Write on a file that is open for writing. A file without a name takes bytes too.
unfoldable pub write_file : String → Bytes → Disk → (ℕ × Option Error) × Disk
write_file name p d = elim (next_fault d.faults) [
  | pass ↦ ((length p, none), append_in name p (later d))
  | fail n ↦ ((length (take n p), some io_error), append_in name (take n p) (later d))
]

-- (*os.File).Close on an open file
unfoldable pub close_file : Disk → Result (Unit {0}) × Disk
close_file = attempt (λ d. (ok tt, d))

move : String → String → Dict String Bytes → Result (Unit {0}) × Dict String Bytes
move old new es = elim (Dict.lookup old es) [
  | none ↦ (err missing, es)
  | some c ↦ (ok tt, Dict.insert new c (Dict.erase old es))
]

-- os.Rename
unfoldable pub rename : String → String → Disk → Result (Unit {0}) × Disk
unfolding move
rename old new = attempt (in_dir (move old new))

unlink : String → Dict String Bytes → Result (Unit {0}) × Dict String Bytes
unlink name es = elim (Dict.lookup name es) [
  | none ↦ (err missing, es)
  | some _ ↦ (ok tt, Dict.erase name es)
]

-- os.Remove
unfoldable pub remove : String → Disk → Result (Unit {0}) × Disk
unfolding unlink
remove name = attempt (in_dir (unlink name))

find : String → Dict String Bytes → Result Bytes × Dict String Bytes
find name es = elim (Dict.lookup name es) [ none ↦ (err missing, es) | some c ↦ (ok c, es) ]

-- os.Open and os.Stat of a file: the bytes that it holds
unfoldable pub open_file : String → Disk → Result Bytes × Disk
unfolding find
open_file name = attempt (in_dir (find name))

-- os.ReadDir
unfoldable pub read_dir : Disk → Result (List String) × Disk
read_dir = attempt (in_dir (λ es. (ok (keys es), es)))

drop_names : ℕ → Dict String Bytes → Dict String Bytes
drop_names n [] = []
drop_names n (x ∷ es) = let rest = drop_names (n - 1) es in if n == 0 then x ∷ es else rest

-- os.RemoveAll
unfoldable pub remove_all : Disk → Result (Unit {0}) × Disk
unfolding drop_names
remove_all d = elim (next_fault d.faults) [
  | pass ↦ (ok tt, record (later d) { dir = none })
  | fail n ↦ (
    err io_error,
    record (later d) { dir = elim d.dir [ none ↦ none | some es ↦ some (drop_names n es) ] },
  )
]
