-- ===== src/Lockfile/Locking/Exclusive.antt =====
-- Whether at most one process has the lock.
use htvend.Base.{◌≡◌, ◌≢◌, ap, refl, sym, ◌∙◌, ℕ, some, List, [], ◌∷◌, nat_eq, arith, ==_sound}
use htvend.Base.{some-injective}
use htvend.Lockfile.Locking.{
  Hold, idle, holds, released, Locks, unlocked, lock, unlock, remove_path, act, acts, Session,
  opens, closes, actions,
}

-- A process that has the lock has it on the file at the path, and that file is locked by it; none
-- is about to remove the path.
pub record IsExclusive (l : Locks) : Type 0 where
  pub on_path : (i n : ℕ) → l.hold i ≡ holds n → (l.path ≡ some n) × (l.owner n ≡ some i)
  pub none_released : (i : ℕ) → l.hold i ≢ released

lock-IsExclusive : (i : ℕ) (l : Locks) → IsExclusive l → IsExclusive (lock i l)
unfolding lock
lock-IsExclusive i l k = record {
  on_path = λ j n h.
      ground (arith, k.on_path j n, k.none_released i, ==_sound j i, ==_sound n l.next_file);
  none_released = λ j h. ground (arith, k.none_released j, k.none_released i);
}

close_idle : (i : ℕ) (l : Locks) → l.hold i ≡ idle → remove_path i (unlock i l) ≡ l
unfolding unlock remove_path
close_idle i l e =
    let same : unlock i l ≡ l = rw (e, unlock) refl in
    let then_same : remove_path i l ≡ l = rw (e, remove_path) refl in
    ap (remove_path i) same ∙ then_same

-- A whole Close, of a process that has this.
closed-IsExclusive :
    (i : ℕ) (l : Locks) (h : Hold)
    → l.hold i ≡ h
    → IsExclusive l
    → IsExclusive (remove_path i (unlock i l))
unfolding unlock remove_path
closed-IsExclusive i l idle e k = rw (close_idle i l e) k
closed-IsExclusive i l released e k = absurd (k.none_released i e)
closed-IsExclusive i l (holds m) e k = record {
  on_path = λ j n h.
      ground (
        arith,
        k.on_path j n,
        k.on_path i m e,
        ==_sound j i,
        some-injective n m,
        some-injective i j,
      );
  none_released = λ j h. ground (arith, k.none_released j, ==_sound j i);
}

-- Sessions that open and close keep this.
acts-IsExclusive :
    (ss : List Session) (l : Locks) → IsExclusive l → IsExclusive (acts (actions ss) l)
unfolding acts actions act
acts-IsExclusive [] l k = k
acts-IsExclusive (opens i ∷ ss) l k = acts-IsExclusive ss (lock i l) (lock-IsExclusive i l k)
acts-IsExclusive (closes i ∷ ss) l k =
    acts-IsExclusive ss (remove_path i (unlock i l)) (closed-IsExclusive i l (l.hold i) refl k)

unlocked-IsExclusive : IsExclusive unlocked
unlocked-IsExclusive = record { on_path = λ i n h. absurd (cc); none_released = λ i h. cc }

-- However many processes open and close the manifest, and in whatever order, from no lock on: as
-- long as no other process comes between the two halves of a Close, any two that have the lock are
-- the same.
pub acts-one :
    (ss : List Session) (i j n m : ℕ)
    → (acts (actions ss) unlocked).hold i ≡ holds n
    → (acts (actions ss) unlocked).hold j ≡ holds m
    → i ≡ j
acts-one ss i j n m h h' =
    let k = acts-IsExclusive ss unlocked unlocked-IsExclusive in
    let (path, own) = k.on_path i n h in
    let (path', own') = k.on_path j m h' in
    let same : n ≡ m = some-injective n m (sym path ∙ path') in
    some-injective i j (sym own ∙ rw same own')
