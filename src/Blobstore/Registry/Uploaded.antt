-- ===== src/Blobstore/Registry/Uploaded.antt =====
-- An upload to the registry: the ranges that the PATCH requests name, and the digest of the PUT.
use htvend.Base.{
  ◌≡◌, refl, sym, ap, ◌∙◌, ℕ, ◌+◌, ◌-◌, ◌==◌, ◌<>◌, String, Bool, true, false, Option, none, some,
  List, [], ◌∷◌, ◌++◌, arith, append-nil, append_assoc, inl, inr,
}
use htvend.Base.{
  Bytes, if◌then◌else◌, length, take, concat, length-append, string_eq, nat_eq, Bool-cases,
}
use htvend.Base.Dict.{lookup}
use htvend.Base.Hex.{encode}
use htvend.Base.Error.{Error, Result, ok, err, Result-cases}
use htvend.Platform.{Platform}
use htvend.Lockfile.{Outcome, returns, panics}
use htvend.Listener.{Response}
use htvend.Blobstore.Registry.{
  Sent, Network, Log, BlobBeingUploaded, status_accepted, call, patch, patched, write_some, write,
  finish, created, commit_digest, commit, cleanup,
}

-- An answer with the status 202 comes after the whole body was read.
pub record IsPatient (N : Network) : Type 0 where
  pub read :
      (log : Log) (r : Sent) (n : ℕ) (resp : Response)
      → N.answer log r ≡ (n, ok resp)
      → (resp.status_code == status_accepted) ≡ true
      → take n r.body ≡ r.body

-- The body of a request, and the range that it names.
abbrev pub Part : Type 0
Part = Bytes × Option String

abbrev pub parts : Log → List Part
parts [] = []
parts (r ∷ rs) = (r.body, lookup "Content-Range" r.headers) ∷ parts rs

parts-append : (a b : Log) → parts (a ++ b) ≡ parts a ++ parts b
parts-append [] b = refl
parts-append (r ∷ a) b =
    ap (λ (l : List Part). (r.body, lookup "Content-Range" r.headers) ∷ l) (parts-append a b)

-- Whether a write has returned no error.
abbrev pub went_well : Outcome (ℕ × Option Error) → Bool
went_well panics = false
went_well (returns (n, some e)) = false
went_well (returns (n, none)) = true

went_well-none :
    (r : Outcome (ℕ × Option Error)) → went_well r ≡ true → (n : ℕ) × (r ≡ returns (n, none))
went_well-none panics h = absurd (cc)
went_well-none (returns (n, some e)) h = absurd (cc)
went_well-none (returns (n, none)) h = (n, refl)

module _ (N : Network) where
  abbrev pub range : ℕ → ℕ → String
  range first last = "bytes " <> N.decimal first <> "-" <> N.decimal last <> "/*"

  -- The pieces that are not empty, one after the other from an offset on.
  abbrev pub ranges : ℕ → List Bytes → List Part
  ranges start [] = []
  ranges start ([] ∷ ps) = ranges start ps
  ranges start ((x ∷ p) ∷ ps) =
      (x ∷ p, some (range start (start + length (x ∷ p) - 1))) ∷ ranges (start + length (x ∷ p)) ps

  -- Writes until one fails, and whether none has.
  unfoldable pub write_all : List Bytes → BlobBeingUploaded → Log → Bool × BlobBeingUploaded × Log
  write_all [] b log = (true, b, log)
  write_all (p ∷ ps) b log =
      let (r, b', log') = write N p b log in
      let rest = write_all ps b' log' in if went_well r then rest else (false, b', log')

  patched_ok :
      (bb : Bytes) (b : BlobBeingUploaded) (x : Result Response)
      → (patched N bb b x).0.1 ≡ none
      → (resp : Response) × (x ≡ ok resp)
        × ((resp.status_code == status_accepted) ≡ true)
        × ((patched N bb b x).1.digest ≡ b.digest)
        × ((patched N bb b x).1.bw ≡ b.bw + length bb)
  unfolding patched
  patched_ok bb b (err e) h = absurd (cc)
  patched_ok bb b (ok resp) h = (resp, refl, ground arith, ground arith, ground arith)

  write_some_ok :
      (I : IsPatient N) (bb hashed : Bytes) (b : BlobBeingUploaded) (log : Log)
      → (write_some N bb hashed b log).0.1 ≡ none
      → ((write_some N bb hashed b log).1.digest ≡ some (hashed ++ bb))
        × ((write_some N bb hashed b log).1.bw ≡ b.bw + length bb)
        × ((write_some N bb hashed b log).2 ≡ log ++ (patch N bb b ∷ []))
  unfolding write_some call
  write_some_ok I bb hashed b log h = elim (Result-cases (N.new_request b.url)) [
    | inr (e, bad) ↦ absurd (let q = rw (bad, write_some) at h in cc)
    | inl (_, good) ↦
        let (n, x) = N.answer log (patch N bb b) in
        let b1 : BlobBeingUploaded = record b { digest = some (hashed ++ take n bb) } in
        let (resp, e, fine, digest, bw) = patched_ok bb b1 x (rw (good, write_some) at h) in
        let whole = I.read log (patch N bb b) n resp (ap (λ y. (n, y)) e) fine in
        rw (good, write_some) (digest ∙ ap (λ (l : Bytes). some (hashed ++ l)) whole, bw, refl)
  ]

  write_ok :
      (I : IsPatient N) (p hashed : Bytes) (b : BlobBeingUploaded) (log : Log) (n : ℕ)
      → b.digest ≡ some hashed
      → (write N p b log).0 ≡ returns (n, none)
      → ((write N p b log).1.digest ≡ some (hashed ++ p))
        × ((write N p b log).1.bw ≡ b.bw + length p)
        × (new : Log) × ((write N p b log).2 ≡ log ++ new)
        × ((ps : List Bytes) → parts new ++ ranges (b.bw + length p) ps ≡ ranges b.bw (p ∷ ps))
  unfolding write lookup string_eq
  write_ok I [] hashed b log n d h = (
    d ∙ ap some (sym (append-nil hashed)),
    omega arith,
    [],
    sym (append-nil log),
    λ ps. ap (λ m. ranges m ps) (omega arith),
  )
  write_ok I (x ∷ p) hashed b log n d h =
      let bb = x ∷ p in
      let fine : (write_some N bb hashed b log).0.1 ≡ none = let q = rw (d, write) at h in cc in
      let (digest, bw, sent) = write_some_ok I bb hashed b log fine in
      rw (d, write) (digest, bw, patch N bb b ∷ [], sent, λ ps. refl)

  -- For a registry that answers 202 only when it has read a request's whole body, and a blob that
  -- is not done: if no write of some pieces fails, then the blob's hash has taken these pieces in
  -- order, its offset has grown by their length, and the requests that were sent carry the pieces
  -- that are not empty, each with the range of its bytes, which follow each other without a gap.
  pub write_all-ranges :
      (I : IsPatient N) (ps : List Bytes) (hashed : Bytes) (b : BlobBeingUploaded) (log : Log)
      → b.digest ≡ some hashed
      → (write_all ps b log).0 ≡ true
      → ((write_all ps b log).1.digest ≡ some (hashed ++ concat ps))
        × ((write_all ps b log).1.bw ≡ b.bw + length (concat ps))
        × (new : Log) × ((write_all ps b log).2 ≡ log ++ new)
        × (parts new ≡ ranges b.bw ps)
  unfolding write_all
  write_all-ranges I [] hashed b log d h =
      (d ∙ ap some (sym (append-nil hashed)), omega arith, [], sym (append-nil log), refl)
  write_all-ranges I (p ∷ ps) hashed b log d h =
      let (r, b', log') = write N p b log in
      let rest = write_all ps b' log' in
      elim (Bool-cases (went_well r)) [
        | inr bad ↦ absurd (let q = rw (bad, write_all) at h in cc)
        | inl good ↦
            let (n, e) = went_well-none r good in
            let (digest, bw, new, sent, shape) = write_ok I p hashed b log n d e in
            let (digest', bw', new', sent', shape') =
              write_all-ranges I ps (hashed ++ p) b' log' digest (rw (good, write_all) at h) in
            (
              rw (good, write_all) (digest' ∙ ap some (append_assoc hashed p (concat ps))),
              rw (good, write_all) (omega (arith, length-append p (concat ps), bw, bw')),
              new ++ new',
              rw (good, write_all)
                  (sent' ∙ ap (λ (l : Log). l ++ new') sent ∙ append_assoc log new new'),
              parts-append new new'
                  ∙ ap (λ (l : List Part). parts new ++ l) (shape' ∙ ap (λ m. ranges m ps) bw)
                  ∙ shape ps,
            )
      ]

  created_ok :
      (digest : Bytes) (b : BlobBeingUploaded) (x : Result Response) (k : Bytes)
      → (created N digest b x).0 ≡ ok k
      → (k ≡ digest) × ((created N digest b x).1.digest ≡ none)
  unfolding created
  created_ok digest b (err e) k h = absurd (cc)
  created_ok digest b (ok resp) k h = ground arith

  commit_digest_ok :
      (digest : Bytes) (b : BlobBeingUploaded) (log : Log) (k : Bytes)
      → (commit_digest N digest b log).0 ≡ ok k
      → (k ≡ digest)
        × ((commit_digest N digest b log).1.digest ≡ none)
        × ((commit_digest N digest b log).2 ≡ log ++ (finish N digest b ∷ []))
  unfolding commit_digest call
  commit_digest_ok digest b log k h = elim (Result-cases (N.new_request (finish N digest b).url)) [
    | inr (e, bad) ↦ absurd (let q = rw (bad, commit_digest) at h in cc)
    | inl (_, good) ↦
        let (same, done) =
          created_ok digest b (N.answer log (finish N digest b)).1 k
            (rw (good, commit_digest) at h) in
        rw (good, commit_digest) (same, done, refl)
  ]

  commit_ok :
      (P : Platform) (hashed : Bytes) (b : BlobBeingUploaded) (log : Log) (k : Bytes)
      → b.digest ≡ some hashed
      → (commit N P b log).0 ≡ returns (ok k)
      → (k ≡ P.sha256 hashed)
        × ((commit N P b log).1.digest ≡ none)
        × ((commit N P b log).2 ≡ log ++ (finish N (P.sha256 hashed) b ∷ []))
  unfolding commit
  commit_ok P hashed b log k d h =
      let q = rw (d, commit) at h in
      rw (d, commit) (commit_digest_ok (P.sha256 hashed) b log k (cc))

  cleanup_done :
      (b : BlobBeingUploaded) (log : Log) → b.digest ≡ none → cleanup N b log ≡ (ok tt, b, log)
  unfolding cleanup
  cleanup_done b log d = rw d refl

  -- For a registry that answers 202 only when it has read a request's whole body, and a blob that
  -- Put has made: if no write of some pieces fails and Commit returns a digest, then it is the
  -- SHA-256 of all the pieces in order; the last request is a PUT without a body, to the blob's
  -- location with `&digest=sha256:` and that digest in hex behind it; and a Cleanup that follows
  -- sends nothing and changes nothing.
  pub commit-write_all :
      (P : Platform) (I : IsPatient N) (ps : List Bytes) (b : BlobBeingUploaded) (log : Log)
      (k : Bytes)
      → b.digest ≡ some []
      → let (fine, b1, log1) = write_all ps b log in
        fine ≡ true
        → let (r, b2, log2) = commit N P b1 log1 in
          r ≡ returns (ok k)
          → (k ≡ P.sha256 (concat ps))
            × (put : Sent) × (log2 ≡ log1 ++ (put ∷ []))
            × (put.method ≡ "PUT")
            × (put.url ≡ b1.url <> ("&digest=sha256:" <> encode (P.sha256 (concat ps))))
            × (put.body ≡ [])
            × (cleanup N b2 log2 ≡ (ok tt, b2, log2))
  unfolding finish
  commit-write_all P I ps b log k d fine h =
      let (digest, _, _, _, _) = write_all-ranges I ps [] b log d fine in
      let (_, b1, log1) = write_all ps b log in
      let (same, done, sent) = commit_ok P (concat ps) b1 log1 k digest h in
      let (_, b2, log2) = commit N P b1 log1 in
      (same, finish N (P.sha256 (concat ps)) b1, sent, refl, refl, refl, cleanup_done b2 log2 done)
