-- ===== src/Jobs.antt =====
-- cli/internal/jobs/multitasker.go: jobs that run at once, and Wait, which returns the first error
-- that it receives. A job is one step on the state that the jobs share; the steps come in any order.
pub mod Waited
pub mod Ended
use htvend.Base.{Option, none, some, List, [], ◌∷◌}
use htvend.Base.Error.{Error, Result, ok, err}

-- The jobs that have not yet sent their error, `rvErr` of Wait's loop, and the shared state.
pub record MultiTasker (K : Type 0) (S : Type 0) : Type 0 where
  pub running : List K
  pub rv_err : Option Error
  pub state : S

-- One job of the list, and the others.
pub data Taken {K : Type 0} (k : K) : List K → List K → Type 0 where
  here : {ks : List K} → Taken k (k ∷ ks) ks
  there : {j : K} {ks rest : List K} → Taken k ks rest → Taken k (j ∷ ks) (j ∷ rest)

-- A round of Wait's loop: `if err != nil && rvErr == nil { rvErr = err }`
unfoldable pub received : Option Error → Result (Unit {0}) → Option Error
received none (ok _) = none
received none (err e) = some e
received (some x) _ = some x

module _ {K S : Type 0} (job : K → S → Result (Unit {0}) × S) where
  -- The job for `k` runs, and sends its error; `rest` are the others.
  unfoldable pub run_one : K → List K → MultiTasker K S → MultiTasker K S
  run_one k rest m =
      let (r, s') = job k m.state in
      record { running = rest; rv_err = received m.rv_err r; state = s' }

  -- What a MultiTasker with these jobs can come to: any job that is left may be the next.
  pub data Reach (ks : List K) (s : S) : MultiTasker K S → Type 0 where
    queued : Reach ks s (record { running = ks; rv_err = none; state = s })
    later :
        (m : MultiTasker K S) (k : K) (rest : List K)
        → Reach ks s m
        → Taken k m.running rest
        → Reach ks s (run_one k rest m)

  -- Wait returns `rv` when every job has sent its error.
  abbrev pub Waits : List K → S → Option Error → S → Type 0
  Waits ks s rv s' = Reach ks s (record { running = []; rv_err = rv; state = s' })
