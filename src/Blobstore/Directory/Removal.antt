-- ===== src/Blobstore/Directory/Removal.antt =====
-- RemoveExcept and Destroy of the directory store: what is left.
use htvend.Base.{
  ◌≡◌, refl, ◌∙◌, ◌==◌, ◌≢◌, true, false, none, String, List, [], ◌∷◌, arith, string_eq, Bool-cases,
  inl, inr,
}
use htvend.Base.{Bytes, contains, if◌then◌else◌, ==_sound, ==_ne, ==_refl}
use htvend.Base.Dict.{keys, lookup-erase, lookup-nil, lookup-contains}
use htvend.Base.Error.{Error, Result, ok, err, errors_is, os_not_exist}
use htvend.Blobstore.Disk.{Disk, entries, remove, read_dir}
use htvend.Blobstore.Disk.Laws.{file, file-remove, file-read_dir}
use htvend.Blobstore.Directory.{remove_except, remove_others, listed}

-- A file that could be removed is gone.
file-remove_ok :
    (name : String) (d : Disk) → (remove name d).0 ≡ ok tt → file name (remove name d).1 ≡ none
unfolding remove
file-remove_ok name d h = ground (arith, lookup-erase name name (entries d))

read_dir_ok :
    (d : Disk) (names : List String) → (read_dir d).0 ≡ ok names → names ≡ keys (entries d)
unfolding read_dir
read_dir_ok d names h = ground arith

-- What follows the work on one name.
abbrev Rest : List String → List String → Result (Unit {0}) × Disk → Result (Unit {0}) × Disk
Rest keep names (ok _, d) = remove_others keep names d
Rest keep names (err e, d) = (err e, d)

remove_others_cons :
    (keep names : List String) (name : String) (d : Disk)
    → remove_others keep (name ∷ names) d
      ≡ (if contains keep name then remove_others keep names d else Rest keep names (remove name d))
unfolding remove_others
remove_others_cons keep names name d = ground arith

-- The loop leaves the files to keep alone, and its end means that the others are gone.
remove_others_keeps :
    (keep names : List String) (d : Disk) (j : String)
    → contains keep j ≡ true
    → file j (remove_others keep names d).1 ≡ file j d
unfolding remove_others
remove_others_keeps keep [] d j k = refl
remove_others_keeps keep (name ∷ names) d j k = elim (Bool-cases (contains keep name)) [
  | inl e ↦ rw (remove_others_cons keep names name d, e) (remove_others_keeps keep names d j k)
  | inr e ↦
      let other : j ≢ name = λ q. (let z = rw q at k in cc) in
      let d' = (remove name d).1 in
      rw (remove_others_cons keep names name d, e)
        (ground (arith, remove_others_keeps keep names d' j k, file-remove j name d other))
]

remove_others_ok :
    (keep names : List String) (d : Disk) (j : String)
    → contains keep j ≡ false
    → (remove_others keep names d).0 ≡ ok tt
    → file j (remove_others keep names d).1 ≡ (if contains names j then none else file j d)
unfolding remove_others
remove_others_ok keep [] d j k h = refl
remove_others_ok keep (name ∷ names) d j k h = elim (Bool-cases (contains keep name)) [
  | inl e ↦
      let same = remove_others_cons keep names name d in
      let other : (j == name) ≡ false = ==_ne j name (λ q. (let z = rw q at k in cc)) in
      rw (same, e, other) (remove_others_ok keep names d j k (rw (same, e) at h))
  | inr e ↦
      removed (λ d' h'. remove_others_ok keep names d' j k h') e (remove name d) refl
        (rw (remove_others_cons keep names name d, e) at h)
]
  where
    removed :
        ((d' : Disk)
          → (remove_others keep names d').0 ≡ ok tt
          → file j (remove_others keep names d').1 ≡ (if contains names j then none else file j d'))
        → contains keep name ≡ false
        → (o : Result (Unit {0}) × Disk) → remove name d ≡ o
        → (Rest keep names o).0 ≡ ok tt
        → file j (remove_others keep (name ∷ names) d).1
          ≡ (if contains (name ∷ names) j then none else file j d)
    removed ih e (err x, d') same done = absurd (cc)
    removed ih e (ok _, d') same done = elim (Bool-cases (j == name)) [
      | inl here ↦
          let gone : file name d' ≡ none = rw same at (file-remove_ok name d (rw same refl)) in
          rw (remove_others_cons keep names name d, e, same, here)
            (ih d' done ∙ ground (arith, gone, ==_sound j name here))
      | inr other ↦
          let kept : file j d' ≡ file j d =
            rw same at (file-remove j name d (λ q. (let z = rw (q, ==_refl) at other in cc))) in
          rw (remove_others_cons keep names name d, e, same, other)
            (ih d' done ∙ ground (arith, kept))
    ]

listed_keeps :
    (keep : List String) (r : Result (List String)) (d : Disk) (j : String)
    → contains keep j ≡ true
    → file j (listed keep (r, d)).1 ≡ file j d
unfolding listed
listed_keeps keep (ok names) d j k = remove_others_keeps keep names d j k
listed_keeps keep (err e) d j k = refl

read_dir_missing :
    (d : Disk) (e : Error) (j : String)
    → (read_dir d).0 ≡ err e
    → errors_is os_not_exist e ≡ true
    → file j (read_dir d).1 ≡ none
unfolding read_dir errors_is
read_dir_missing d e j h m = ground (arith, lookup-nil {V = Bytes} j)

listed_ok :
    (keep : List String) (d : Disk) (j : String) (r : Result (List String))
    → (read_dir d).0 ≡ r
    → contains keep j ≡ false
    → (listed keep (r, (read_dir d).1)).0 ≡ ok tt
    → file j (listed keep (r, (read_dir d).1)).1 ≡ none
unfolding listed
listed_ok keep d j (ok names) e k h =
    let d1 = (read_dir d).1 in
    remove_others_ok keep names d1 j k h ∙ elim (Bool-cases (contains names j)) [
      | inl there ↦ rw there refl
      | inr absent ↦
          let all = read_dir_ok d names e in
          rw absent (file-read_dir j d ∙ lookup-contains j (entries d) (rw all at absent))
    ]
listed_ok keep d j (err x) e k h = read_dir_missing d x j e (ground arith)

-- If RemoveExcept returns nil on a writable store, then exactly the files whose names are to be kept
-- are left, each as it was.
pub remove_except_leaves :
    (keep : List String) (d : Disk) (j : String)
    → (remove_except true keep d).0 ≡ ok tt
    → file j (remove_except true keep d).1 ≡ (if contains keep j then file j d else none)
unfolding remove_except
remove_except_leaves keep d j h = elim (Bool-cases (contains keep j)) [
  | inl k ↦ rw k (listed_keeps keep (read_dir d).0 (read_dir d).1 j k ∙ file-read_dir j d)
  | inr k ↦ rw k (listed_ok keep d j (read_dir d).0 refl k h)
]
