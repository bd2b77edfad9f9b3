-- ===== src/Stream/Laws.antt =====
-- What io.Copy delivers, by a rule for one round.
use htvend.Base.{
  ◌≡◌, ℕ, refl, sym, subst, ap, ◌∙◌, Option, none, some, List, [], ◌∷◌, ◌++◌, arith, append-nil,
  append_assoc,
}
use htvend.Base.{Bytes, concat, take}
use htvend.Base.Error.{Error, Result, ok, err}
use htvend.Stream.{Writer, copy_one, copy_chunks, tee_all, tee_result, copy_chunk, written}

module _ {S : Type 0} (dst : Writer S) (tees : List (Writer S)) where
  -- What each round keeps, the whole copy keeps, whether it fails or not.
  pub copy_chunks_keeps :
      (K : S → Type 0)
      → ((p : Bytes) (s : S) → K s → K (copy_one dst tees p s).1)
      → (ps : List Bytes) (end : Option Error) (s : S) → K s
      → K (copy_chunks dst tees ps end s).1
  unfolding copy_chunks
  copy_chunks_keeps K keep [] none s h = h
  copy_chunks_keeps K keep [] (some x) s h = h
  copy_chunks_keeps K keep (p ∷ ps) end s h =
      let (r, s2) = copy_one dst tees p s in
      go r s2 (keep p s h) (copy_chunks_keeps K keep ps end s2 (keep p s h))
    where
      go :
          (r : Result (Unit {0})) (s2 : S)
          → K s2
          → K (copy_chunks dst tees ps end s2).1
          → K
              (elim r as (λ _. Result (Unit {0}) × S) [
                | ok _ ↦ copy_chunks dst tees ps end s2
                | err x ↦ (err x, s2)
              ]).1
      go (ok tt) s2 here rest = rest
      go (err x) s2 here rest = here

  copy_chunks-cons :
      (p : Bytes) (ps : List Bytes) (end : Option Error) (s : S)
      → (copy_chunks dst tees (p ∷ ps) end s).0 ≡ ok tt
      → ((copy_one dst tees p s).0 ≡ ok tt)
        × (copy_chunks dst tees (p ∷ ps) end s
            ≡ copy_chunks dst tees ps end (copy_one dst tees p s).1)
  unfolding copy_chunks
  copy_chunks-cons p ps end s e = go (copy_one dst tees p s).0 refl
    where
      go :
          (r : Result (Unit {0}))
          → (copy_one dst tees p s).0 ≡ r
          → ((copy_one dst tees p s).0 ≡ ok tt)
            × (copy_chunks dst tees (p ∷ ps) end s
                ≡ copy_chunks dst tees ps end (copy_one dst tees p s).1)
      go (ok tt) q = (q, rw (q, copy_chunks) refl)
      go (err x) q = absurd (ground arith)

  -- If each round that succeeds adds its chunk, then a copy that succeeds has added all chunks, and
  -- the reader was not broken.
  pub copy_chunks_ok :
      (Q : Bytes → S → Type 0)
      → ((p b : Bytes) (s : S)
          → Q b s
          → (copy_one dst tees p s).0 ≡ ok tt
          → Q (b ++ p) (copy_one dst tees p s).1)
      → (ps : List Bytes) (end : Option Error) (b : Bytes) (s : S) → Q b s
      → (copy_chunks dst tees ps end s).0 ≡ ok tt
      → Q (b ++ concat ps) (copy_chunks dst tees ps end s).1 × (end ≡ none)
  unfolding copy_chunks
  copy_chunks_ok Q step [] none b s h e = (rw append-nil h, refl)
  copy_chunks_ok Q step [] (some x) b s h e = absurd (cc)
  copy_chunks_ok Q step (p ∷ ps) end b s h e =
      let (first, same) = copy_chunks-cons p ps end s e in
      let s2 = (copy_one dst tees p s).1 in
      rw (← append_assoc, same)
        (copy_chunks_ok Q step ps end (b ++ p) s2 (step p b s h first)
          (sym (ap (λ (x : Result (Unit {0}) × S). x.0) same) ∙ e))

tee_result_state : {S : Type 0} (p : Bytes) (r : (ℕ × Option Error) × S) → (tee_result p r).2 ≡ r.1
unfolding tee_result
tee_result_state p ((n, none), s) = refl
tee_result_state p ((n, some x), s) = refl

written_state :
    {S : Type 0} (p : Bytes) (e : Option Error) (r : (ℕ × Option Error) × S)
    → (written p e r).1 ≡ r.1
unfolding written
written_state p e ((n, some x), s) = refl
written_state p none ((n, none), s) = ground arith
written_state p (some x) ((n, none), s) = ground arith

module _ {S : Type 0} (K : S → Type 0) where
  -- A writer that keeps `K`, whatever it returns.
  abbrev pub Keeps : Writer S → Type 0
  Keeps w = (p : Bytes) (s : S) → K s → K (w p s).1

  abbrev pub AllKeep : List (Writer S) → Type 0
  AllKeep [] = Unit
  AllKeep (w ∷ ws) = Keeps w × AllKeep ws

  tee_all_keeps :
      (ws : List (Writer S))
      → AllKeep ws
      → (p : Bytes) (e : Option Error) (s : S) → K s
      → K (tee_all ws p e s).2
  unfolding tee_all
  tee_all_keeps [] h p e s k = k
  tee_all_keeps (w ∷ ws) h [] e s k = k
  tee_all_keeps (w ∷ ws) (h, hs) (b ∷ p) e s k =
      let (p', e', s') = tee_result (b ∷ p) (w (b ∷ p) s) in
      tee_all_keeps ws hs p' (elim e' [ none ↦ e | some x ↦ some x ]) s'
        (subst K (sym (tee_result_state (b ∷ p) (w (b ∷ p) s))) (h (b ∷ p) s k))

  copy_chunk_keeps :
      (dst : Writer S)
      → Keeps dst
      → (p : Bytes) (e : Option Error) (s : S) → K s
      → K (copy_chunk dst p e s).1
  unfolding copy_chunk
  copy_chunk_keeps dst h [] none s k = k
  copy_chunk_keeps dst h [] (some x) s k = k
  copy_chunk_keeps dst h (b ∷ p) none s k =
      subst K (sym (written_state (b ∷ p) none (dst (b ∷ p) s))) (h (b ∷ p) s k)
  copy_chunk_keeps dst h (b ∷ p) (some x) s k =
      subst K (sym (written_state (b ∷ p) (some x) (dst (b ∷ p) s))) (h (b ∷ p) s k)

  -- A round of a copy keeps what its writers keep.
  pub copy_one_keeps :
      (dst : Writer S) (tees : List (Writer S))
      → Keeps dst
      → AllKeep tees
      → (p : Bytes) (s : S) → K s
      → K (copy_one dst tees p s).1
  unfolding copy_one
  copy_one_keeps dst tees h hs p s k =
      let (p', e, s1) = tee_all tees p none s in
      copy_chunk_keeps dst h p' e s1 (tee_all_keeps tees hs p none s k)

written_ok :
    {S : Type 0} (p : Bytes) (e : Option Error) (r : (ℕ × Option Error) × S)
    → (written p e r).0 ≡ ok tt
    → (r.0.1 ≡ none) × (e ≡ none)
unfolding written
written_ok p e ((n, some x), s) h = absurd (cc)
written_ok p none ((n, none), s) h = (refl, refl)
written_ok p (some x) ((n, none), s) h = absurd (ground arith)

copy_chunk_ok :
    {S : Type 0} (dst : Writer S) (p : Bytes) (e : Option Error) (s : S)
    → (copy_chunk dst p e s).0 ≡ ok tt
    → e ≡ none
unfolding copy_chunk
copy_chunk_ok dst [] none s h = refl
copy_chunk_ok dst [] (some x) s h = absurd (cc)
copy_chunk_ok dst (b ∷ p) e s h = (written_ok (b ∷ p) e (dst (b ∷ p) s) h).1

module _ {S : Type 0} (dst : Writer S) (b : ℕ) (p : Bytes) (s : S) where
  -- A round without a tee that succeeds has written the chunk.
  pub copy_one_direct :
      (copy_one dst [] (b ∷ p) s).0 ≡ ok tt
      → ((dst (b ∷ p) s).0.1 ≡ none) × ((copy_one dst [] (b ∷ p) s).1 ≡ (dst (b ∷ p) s).1)
  unfolding copy_one tee_all copy_chunk
  copy_one_direct h =
      ((written_ok (b ∷ p) none (dst (b ∷ p) s) h).0, written_state (b ∷ p) none (dst (b ∷ p) s))

  abbrev after_tee : (ℕ × Option Error) × S → Result (Unit {0}) × S
  after_tee r =
      let (p', e', s') = tee_result (b ∷ p) r in
      copy_chunk dst p' (elim e' [ none ↦ none | some x ↦ some x ]) s'

  after_tee_ok :
      (r : (ℕ × Option Error) × S)
      → (after_tee r).0 ≡ ok tt
      → (r.0.1 ≡ none) × ((dst (b ∷ p) r.1).0.1 ≡ none) × ((after_tee r).1 ≡ (dst (b ∷ p) r.1).1)
  unfolding tee_result copy_chunk
  after_tee_ok ((n, none), s1) h = (
    refl,
    (written_ok (b ∷ p) none (dst (b ∷ p) s1) h).0,
    written_state (b ∷ p) none (dst (b ∷ p) s1),
  )
  after_tee_ok ((n, some x), s1) h =
      absurd (let q = copy_chunk_ok dst (take n (b ∷ p)) (some x) s1 h in cc)

  -- A round with one tee that succeeds has written the chunk to the tee, and then to `dst`.
  pub copy_one_tee :
      (w : Writer S)
      → (copy_one dst (w ∷ []) (b ∷ p) s).0 ≡ ok tt
      → let (r, s1) = w (b ∷ p) s in
        (r.1 ≡ none)
        × ((dst (b ∷ p) s1).0.1 ≡ none)
        × ((copy_one dst (w ∷ []) (b ∷ p) s).1 ≡ (dst (b ∷ p) s1).1)
  unfolding copy_one tee_all
  copy_one_tee w h = after_tee_ok (w (b ∷ p) s) h
