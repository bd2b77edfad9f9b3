-- ===== src/App/TempDir.antt =====
-- cli/internal/app/with_temp_dir.go: a temporary directory, whatever modes are left in it.
use htvend.Base.{
  ℕ, ◌/◌, ◌%◌, ◌==◌, ◌&&◌, ◌≡◌, refl, nat_eq, String, Option, none, Bool, true, false, arith,
  Bool-cases, inl, inr,
}
use htvend.Base.{if◌then◌else◌}
use htvend.Base.Error.{wrap, Result, ok, err, defer_error}

-- A file or a directory with its mode; `sealed` says that Info or Chmod of it fails.
mutual
  pub data Node : Type 0 where
    file : Node
    dir : (sealed : Bool) → (mode : ℕ) → Nodes → Node

  pub data Nodes : Type 0 where
    empty : Nodes
    entry : String → Node → Nodes → Nodes

-- info.Mode().Perm()&0o700 == 0o700
abbrev pub is_open : ℕ → Bool
is_open mode = (mode / 64) % 8 == 7

-- Whether the owner may read a directory and look up its entries.
abbrev can_list : ℕ → Bool
can_list mode = ((mode / 256) % 2 == 1) && ((mode / 64) % 2 == 1)

-- The mode of a directory after the callback of WalkDir, with 0o700 in full.
abbrev pub opened : Bool → ℕ → ℕ
opened sealed mode = if is_open mode then mode else if sealed then mode else 448

-- filepath.WalkDir with the callback of deleteDir, which comes before a directory is read
unfoldable mutual
  pub walk : Node → Node
  walk file = file
  walk (dir sealed mode es) =
      let inside = walk_entries es in
      dir sealed (opened sealed mode) (if can_list (opened sealed mode) then inside else es)

  pub walk_entries : Nodes → Nodes
  walk_entries empty = empty
  walk_entries (entry name n es) = entry name (walk n) (walk_entries es)

-- What os.RemoveAll returns, and what is left.
abbrev pub RemoveAll : Type 0
RemoveAll = Node → Result (Unit {0}) × Option Node

-- deleteDir
unfoldable pub delete_dir : RemoveAll → Node → Result (Unit {0}) × Option Node
delete_dir remove_all n = remove_all (walk n)

-- WithTempDir, given what os.MkdirTemp returns, for a function that leaves a tree in the directory
unfoldable pub with_temp_dir :
    RemoveAll
    → Result String
    → (String → Result (Unit {0}) × Node)
    → Result (Unit {0}) × Option Node
with_temp_dir remove_all (err e) f = (err (wrap "error creating temp dir" e), none)
with_temp_dir remove_all (ok td) f =
    let (r, n) = f td in let (x, left) = delete_dir remove_all n in (defer_error r x, left)

-- Every directory of the tree gives all rights to its owner.
unfoldable mutual
  pub AllOpen : Node → Type 0
  AllOpen file = Unit
  AllOpen (dir sealed mode es) = (is_open mode ≡ true) × EachOpen es

  pub EachOpen : Nodes → Type 0
  EachOpen empty = Unit
  EachOpen (entry name n es) = AllOpen n × EachOpen es

-- Each directory of the tree can be given other modes.
unfoldable mutual
  pub NoneSealed : Node → Type 0
  NoneSealed file = Unit
  NoneSealed (dir sealed mode es) = (sealed ≡ false) × NoneSealedIn es

  pub NoneSealedIn : Nodes → Type 0
  NoneSealedIn empty = Unit
  NoneSealedIn (entry name n es) = NoneSealed n × NoneSealedIn es

-- os.RemoveAll removes a tree in which every directory can be written and searched.
pub record IsRemoveAll (remove_all : RemoveAll) : Type 0 where
  pub removes : (n : Node) → AllOpen n → remove_all n ≡ (ok tt, none)

opened-is_open : (mode : ℕ) → is_open (opened false mode) ≡ true
unfolding nat_eq
opened-is_open mode = elim (Bool-cases (is_open mode)) [ inl e ↦ rw (e) e | inr e ↦ rw (e) refl ]

open-can_list : (mode : ℕ) → is_open mode ≡ true → can_list mode ≡ true
open-can_list mode e = ground arith

mutual
  unfolding walk walk_entries AllOpen EachOpen NoneSealed NoneSealedIn

  walk-AllOpen : (n : Node) → NoneSealed n → AllOpen (walk n)
  walk-AllOpen file h = tt
  walk-AllOpen (dir sealed mode es) (e, h) =
      let wide : is_open (opened sealed mode) ≡ true = rw e (opened-is_open mode) in
      (wide, rw (open-can_list (opened sealed mode) wide) (walk_entries-EachOpen es h))

  walk_entries-EachOpen : (es : Nodes) → NoneSealedIn es → EachOpen (walk_entries es)
  walk_entries-EachOpen empty h = tt
  walk_entries-EachOpen (entry name n es) (h, k) = (walk-AllOpen n h, walk_entries-EachOpen es k)
