-- ===== src/Jobs/Ended.antt =====
-- Wait of cli/internal/jobs/multitasker.go: what it returns, from what the jobs returned.
use htvend.Base.{◌≡◌, List}
use htvend.Base.Error.{Error, Result}
use htvend.Jobs.{MultiTasker, Taken, Reach}

module _ {K S : Type 0} (job : K → S → Result (Unit {0}) × S) where
  -- The job has run, at a state that the jobs have come to, and has returned this.
  abbrev pub HasRun : List K → S → K → Result (Unit {0}) → Type 0
  HasRun ks s k r =
      (m : MultiTasker K S) × (rest : List K) × Reach job ks s m
      × Taken k m.running rest
      × ((job k m.state).0 ≡ r)
