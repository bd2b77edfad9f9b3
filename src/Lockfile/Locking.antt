-- ===== src/Lockfile/Locking.antt =====
-- Processes that open and close one manifest (lock_file.go): fslock.Lock in NewMapFile, Unlock and
-- the removal of the lock's path in Close, as separate steps. A lock is held on a file, which is not
-- the same after its path was removed and made again.
pub mod Exclusive
use htvend.Base.{ℕ, ◌+◌, ◌==◌, Option, none, some, List, [], ◌∷◌, nat_eq}
use htvend.Base.{if◌then◌else◌}

-- What a process has: nothing, the lock on the file of a number, or a lock that it has given up but
-- not yet removed.
pub data Hold : Type 0 where
  idle : Hold
  holds : ℕ → Hold
  released : Hold

-- The file at the lock's path, the number of the next file, who has locked each file, and what each
-- process has.
pub record Locks : Type 0 where
  pub path : Option ℕ
  pub next_file : ℕ
  pub owner : ℕ → Option ℕ
  pub hold : ℕ → Hold

abbrev pub unlocked : Locks
unlocked = record { path = none; next_file = 0; owner = λ n. none; hold = λ i. idle }

abbrev pub update : {A : Type 0} → ℕ → A → (ℕ → A) → ℕ → A
update i a f j = if j == i then a else f j

-- flock on the file n, which fails if it is locked
abbrev take_lock : ℕ → ℕ → Locks → Locks
take_lock i n l = elim (l.owner n) [
  | some _ ↦ l
  | none ↦ record l { owner = update n (some i) l.owner; hold = update i (holds n) l.hold }
]

-- fslock.Lock, which makes the file if there is none
unfoldable pub lock : ℕ → Locks → Locks
lock i l = elim (l.hold i) [
  | holds _ ↦ l
  | released ↦ l
  | idle ↦ elim l.path [
    | some n ↦ take_lock i n l
    | none ↦ record {
      path = some l.next_file;
      next_file = l.next_file + 1;
      owner = update l.next_file (some i) l.owner;
      hold = update i (holds l.next_file) l.hold;
    }
  ]
]

-- f.lock.Unlock()
unfoldable pub unlock : ℕ → Locks → Locks
unlock i l = elim (l.hold i) [
  | idle ↦ l
  | released ↦ l
  | holds n ↦ record l { owner = update n none l.owner; hold = update i released l.hold }
]

-- os.Remove(f.lockPath), whichever file is there by now
unfoldable pub remove_path : ℕ → Locks → Locks
remove_path i l = elim (l.hold i) [
  | idle ↦ l
  | holds _ ↦ l
  | released ↦ record l { path = none; hold = update i idle l.hold }
]

pub data Action : Type 0 where
  locks unlocks removes : ℕ → Action

unfoldable pub act : Action → Locks → Locks
act (locks i) = lock i
act (unlocks i) = unlock i
act (removes i) = remove_path i

-- The actions of all processes, in their order.
unfoldable pub acts : List Action → Locks → Locks
acts [] l = l
acts (a ∷ rest) l = acts rest (act a l)

-- What a process does between which no other does anything: it opens the manifest, or it closes it.
pub data Session : Type 0 where
  opens closes : ℕ → Session

unfoldable pub actions : List Session → List Action
actions [] = []
actions (opens i ∷ ss) = locks i ∷ actions ss
actions (closes i ∷ ss) = unlocks i ∷ (removes i ∷ actions ss)
