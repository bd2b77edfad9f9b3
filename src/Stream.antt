-- ===== src/Stream.antt =====
-- Go's io.Reader, io.Writer, io.TeeReader and io.Copy, as far as the program uses them.
pub mod Laws
use htvend.Base.{ℕ, ltb, Option, none, some, List, [], ◌∷◌}
use htvend.Base.{Bytes, length, take, if◌then◌else◌}
use htvend.Base.Error.{Error, message, Result, ok, err}

-- What the reads of an io.ReadCloser return: the chunks, then io.EOF or the error `broken`; and what
-- Close returns.
pub record Reader : Type 0 where
  pub chunks : List Bytes
  pub broken : Option Error
  pub closing : Result (Unit {0})

-- Write on a state `S`: the count of bytes taken, the error, and the new state.
abbrev pub Writer : Type 0 → Type 0
Writer S = Bytes → S → (ℕ × Option Error) × S

module _ {S : Type 0} where
  -- What an io.TeeReader returns for a read that returned `p` and `e`, given what its Write returned.
  unfoldable pub tee_result : Bytes → (ℕ × Option Error) × S → Bytes × Option Error × S
  tee_result p ((n, none), s) = (p, none, s)
  tee_result p ((n, some x), s) = (take n p, some x, s)

  -- One read through nested io.TeeReaders, the innermost first. A chunk with no bytes is not written.
  unfoldable pub tee_all : List (Writer S) → Bytes → Option Error → S → Bytes × Option Error × S
  unfolding tee_result
  tee_all [] p e s = (p, e, s)
  tee_all (w ∷ ws) [] e s = ([], e, s)
  tee_all (w ∷ ws) (b ∷ p) e s =
      let (p', e', s') = tee_result (b ∷ p) (w (b ∷ p) s) in
      tee_all ws p' (elim e' [ none ↦ e | some x ↦ some x ]) s'

  -- What io.Copy does with one read: `ok` to go on.
  unfoldable pub written : Bytes → Option Error → (ℕ × Option Error) × S → Result (Unit {0}) × S
  written p e ((n, some x), s) = (err x, s)
  written p none ((n, none), s) =
      if ltb n (length p) then (err (message "short write"), s) else (ok tt, s)
  written p (some x) ((n, none), s) =
      if ltb n (length p) then (err (message "short write"), s) else (err x, s)

  unfoldable pub copy_chunk : Writer S → Bytes → Option Error → S → Result (Unit {0}) × S
  unfolding written
  copy_chunk dst [] none s = (ok tt, s)
  copy_chunk dst [] (some x) s = (err x, s)
  copy_chunk dst (b ∷ p) e s = written (b ∷ p) e (dst (b ∷ p) s)

  -- One round of io.Copy's loop, for a read that returns `p`.
  unfoldable pub copy_one : Writer S → List (Writer S) → Bytes → S → Result (Unit {0}) × S
  copy_one dst tees p s = let (p', e, s1) = tee_all tees p none s in copy_chunk dst p' e s1

  -- io.Copy(dst, tee of tees over the chunks)
  unfoldable pub copy_chunks :
      Writer S → List (Writer S) → List Bytes → Option Error → S → Result (Unit {0}) × S
  copy_chunks dst tees [] none s = (ok tt, s)
  copy_chunks dst tees [] (some x) s = (err x, s)
  copy_chunks dst tees (p ∷ ps) end s =
      let (r, s2) = copy_one dst tees p s in
      elim r [ ok _ ↦ copy_chunks dst tees ps end s2 | err x ↦ (err x, s2) ]

  abbrev pub io_copy : Writer S → List (Writer S) → Reader → S → Result (Unit {0}) × S
  io_copy dst tees r s = copy_chunks dst tees r.chunks r.broken s
