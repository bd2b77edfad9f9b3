-- ===== src/Base/Error.antt =====
-- Go's errors and the results of calls that may fail.
use mathlib.Core.Bool.{Bool, true, false, ◌||◌}
use mathlib.Core.Path.{◌≡◌, refl}
use mathlib.Core.Logic.{◌⊎◌, inl, inr}
use Prim.Native.String.{String}

-- The errors that the program tells apart by `errors.Is`.
pub data Sentinel : Type 0 where
  os_not_exist blob_not_exist conn_reset : Sentinel

pub data Error : Type 0 where
  -- errors.New, or an error of a library that is not told apart
  message : String → Error
  sentinel : Sentinel → Error
  -- fmt.Errorf with one %w
  wrap : String → Error → Error
  -- fmt.Errorf("%w %w")
  both : Error → Error → Error

abbrev same_sentinel : Sentinel → Sentinel → Bool
same_sentinel os_not_exist os_not_exist = true
same_sentinel blob_not_exist blob_not_exist = true
same_sentinel conn_reset conn_reset = true
same_sentinel _ _ = false

-- errors.Is
unfoldable pub errors_is : Sentinel → Error → Bool
errors_is t (message m) = false
errors_is t (sentinel s) = same_sentinel t s
errors_is t (wrap m e) = errors_is t e
errors_is t (both e f) = errors_is t e || errors_is t f

pub data Result {ℓ} (A : Type ℓ) : Type ℓ where
  ok : A → Result A
  err : Error → Result A

-- `defer func() { if err := f(); err != nil && retErr == nil { retErr = err } }()`, given the result
-- of the body and of `f`
abbrev pub defer_error {ℓ} : {A : Type ℓ} → Result A → Result (Unit {0}) → Result A
defer_error (err e) _ = err e
defer_error (ok a) (ok _) = ok a
defer_error (ok a) (err e) = err e

-- `if err != nil { return fmt.Errorf("…: %w", err) }`
abbrev pub wrap_err {ℓ} : {A : Type ℓ} → String → Result A → Result A
wrap_err m (ok a) = ok a
wrap_err m (err e) = err (wrap m e)

pub defer_error_ok : (r x : Result (Unit {0})) → defer_error r x ≡ ok tt → r ≡ ok tt
defer_error_ok (ok _) x h = refl
defer_error_ok (err e) x h = h

pub Result-cases {ℓ} :
    {A : Type ℓ} (r : Result A) → ((a : A) × (r ≡ ok a)) ⊎ ((e : Error) × (r ≡ err e))
Result-cases (ok a) = inl (a, refl)
Result-cases (err e) = inr (e, refl)
