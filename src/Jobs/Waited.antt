-- ===== src/Jobs/Waited.antt =====
-- Wait of cli/internal/jobs/multitasker.go, over any order of the jobs.
use htvend.Base.{◌≡◌, refl, sym, subst, Option, none, some, List, [], ◌∷◌, inl, inr, ◌⊎◌}
use htvend.Base.Error.{Error, Result, ok, err}
use htvend.Jobs.{MultiTasker, Taken, here, there, received, run_one, Reach, queued, later, Waits}

pub received-none :
    (rv : Option Error) (r : Result (Unit {0})) → received rv r ≡ none → (rv ≡ none) × (r ≡ ok tt)
unfolding received
received-none none (ok tt) h = (refl, refl)
received-none none (err e) h = absurd (cc)
received-none (some x) r h = absurd (cc)

-- Membership in a list of jobs.
abbrev pub In : {K : Type 0} → K → List K → Type 0
In k [] = ⊥
In k (x ∷ xs) = (k ≡ x) ⊎ In k xs

pub In-Taken :
    {K : Type 0} (k : K) {ks rest : List K}
    → Taken k ks rest
    → (j : K) → In j ks
    → (j ≡ k) ⊎ In j rest
In-Taken k here j h = h
In-Taken k (there t) j (inl e) = inr (inl e)
In-Taken k (there t) j (inr h) = elim (In-Taken k t j h) [ inl e ↦ inl e | inr i ↦ inr (inr i) ]

module _ {K S : Type 0} (job : K → S → Result (Unit {0}) × S) where
  -- What every job keeps, Wait keeps.
  pub Waits-keeps :
      (I : S → Type 0)
      → ((k : K) (s : S) → I s → I (job k s).1)
      → (ks : List K) (s : S) (m : MultiTasker K S) → Reach job ks s m
      → I s
      → I m.state
  unfolding run_one
  Waits-keeps I keep ks s _ queued i = i
  Waits-keeps I keep ks s _ (later m k rest r t) i = keep k m.state (Waits-keeps I keep ks s m r i)

  module _ (Q : K → S → Type 0) (stable : (j k : K) (s : S) → Q k s → Q k (job j s).1)
      (established : (k : K) (s : S) → (job k s).0 ≡ ok tt → Q k (job k s).1) where
    reach_done :
        (ks : List K) (s : S) (m : MultiTasker K S)
        → Reach job ks s m
        → m.rv_err ≡ none
        → (k : K) → In k ks
        → In k m.running ⊎ Q k m.state
    unfolding run_one
    reach_done ks s _ queued h k i = inl i
    reach_done ks s _ (later m j rest r t) h k i =
        let (before, fine) = received-none m.rv_err (job j m.state).0 h in
        elim (reach_done ks s m r before k i) [
          | inl waits ↦ elim (In-Taken j t k waits) [
            | inl same ↦
                inr
                  (subst (λ (x : K). Q x (job j m.state).1) (sym same) (established j m.state fine))
            | inr left ↦ inl left
          ]
          | inr q ↦ inr (stable j k m.state q)
        ]

    -- If Wait returns nil, then what each job establishes when it succeeds holds at the end for
    -- every job that was queued, whatever the order in which they ran, provided that no job undoes
    -- it.
    pub Waits_ok : (ks : List K) (s s' : S) → Waits job ks s none s' → (k : K) → In k ks → Q k s'
    Waits_ok ks s s' r k i =
        elim (reach_done ks s (record { running = []; rv_err = none; state = s' }) r refl k i) [
          | inl none_left ↦ absurd none_left
          | inr q ↦ q
        ]
