-- ===== src/Tests/Locking.antt =====
-- Two processes and one manifest.
use htvend.Base.{◌≡◌, refl, ℕ, [], ◌∷◌, nat_eq}
use htvend.Lockfile.Locking.{lock, unlock, remove_path, act, acts, opens, closes, actions}
use htvend.Lockfile.Locking.Exclusive.{acts-one}

acts-one_example : ◌≡◌ {A = ℕ} 1 1
unfolding acts act actions lock unlock remove_path nat_eq
acts-one_example =
    acts-one (opens 0 ∷ (opens 1 ∷ (closes 0 ∷ (opens 1 ∷ (opens 0 ∷ []))))) 1 1 1 1 refl refl
