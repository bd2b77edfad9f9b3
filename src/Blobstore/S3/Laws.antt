-- ===== src/Blobstore/S3/Laws.antt =====
-- The operations of s3_store.go against the contract of blobstore.Store.
use Prim.Native.Char.{Char}
use Prim.Native.String.append
use htvend.Base.{
  ◌≡◌, refl, sym, ap, subst, ◌∙◌, ◌⊎◌, inl, inr, ◌==◌, ◌++◌, ◌<>◌, String, true, false, Option,
  none, some, [], arith, append-nil,
}
use htvend.Base.{
  Bytes, IsBytes, concat, string_eq, list_eq, nat_eq, Bool-cases, ==_sound, ==_refl, if◌then◌else◌,
}
use htvend.Base.Hex.{encode, encode_injective}
use htvend.Base.Error.{Error, blob_not_exist, errors_is, wrap, wrap_err, Result, ok, err}
use htvend.Platform.{Platform, IsPlatform}
use htvend.Stream.{Reader}
use htvend.Blobstore.{IsLawful}
use htvend.Blobstore.Disk.{Fault, pass, fail, next_fault}
use htvend.Blobstore.S3.{
  S3Client, IsS3Client, TbUploaded, S3State, write, cleanup, key_to_name, commit, get, exists, put,
  s3_store,
}

tail_eq : (c : Char) (a b : String) → String.◌∷◌ c a ≡ String.◌∷◌ c b → a ≡ b
tail_eq c a b h = cc

prefix_injective : (p a b : String) → p <> a ≡ p <> b → a ≡ b
prefix_injective String.[] a b h = sym (append.nil a) ∙ h ∙ append.nil b
prefix_injective (String.◌∷◌ c p) a b h =
    prefix_injective p a b
      (tail_eq c (p <> a) (p <> b) (sym (append.cons c p a) ∙ h ∙ append.cons c p b))

-- The temporary file is open, has the bytes and is at its end, and the hash has taken the same.
pub record Holds {C : S3Client} (b : TbUploaded) (s : S3State C) (c : Bytes) : Type 0 where
  pub file : b.f ≡ some (record { before = c; after = []; closed = false })
  pub hash : b.h ≡ c

module _ {C : S3Client} (K : IsS3Client C) (P : Platform) (prefix : String) where
  abbrev name_of : Bytes → String
  name_of k = prefix <> encode k

  -- The bytes that the store has under a key.
  abbrev pub view : S3State C → Bytes → Option Bytes
  view s k = K.object s.bucket (name_of k)

  -- Two keys have two names.
  name-eq : (j d : Bytes) → IsBytes j → IsBytes d → (name_of j == name_of d) ≡ (j == d)
  name-eq j d bj bd = elim (Bool-cases (j == d)) [
    | inl same ↦ rw (==_sound j d same, ==_refl (name_of d), ==_refl d) refl
    | inr other ↦ elim (Bool-cases (name_of j == name_of d)) [
      | inr apart ↦ apart ∙ sym other
      | inl alike ↦
          let e = encode_injective j d bj bd (
            prefix_injective prefix (encode j) (encode d)
              (==_sound (name_of j) (name_of d) alike)) in
          absurd (let q = ap (λ (x : Bytes). x == d) e ∙ ==_refl d in cc)
    ]
  ]

  write-bucket : (p : Bytes) (b : TbUploaded) (s : S3State C) → (write C p b s).2.bucket ≡ s.bucket
  unfolding write
  write-bucket p b s = ground arith

  write-Holds :
      (p : Bytes) (b : TbUploaded) (s : S3State C) (c : Bytes)
      → Holds b s c
      → (write C p b s).0.1 ≡ none
      → Holds (write C p b s).1 (write C p b s).2 (c ++ p)
  unfolding write
  write-Holds p b s c h e = record {
    file = ground (arith, h.file, h.hash);
    hash = ground (arith, h.file, h.hash);
  }

  cleanup-bucket : (b : TbUploaded) (s : S3State C) → (cleanup C b s).2.bucket ≡ s.bucket
  unfolding cleanup
  cleanup-bucket b s = ground arith

  -- What a Commit that succeeds has put.
  commit_put :
      (b : TbUploaded) (s : S3State C) (c d : Bytes)
      → Holds b s c
      → (commit C P prefix b s).0 ≡ ok d
      → (d ≡ P.sha256 c)
        × ((C.put_object (name_of (P.sha256 c)) c s.bucket).0 ≡ ok tt)
        × ((commit C P prefix b s).2.bucket ≡ (C.put_object (name_of (P.sha256 c)) c s.bucket).1)
  unfolding commit cleanup key_to_name
  commit_put b s c d h e = (
    ground (arith, h.file, h.hash, append-nil c),
    ground (arith, h.file, h.hash, append-nil c),
    ground (arith, h.file, h.hash, append-nil c),
  )

  commit_bucket :
      (b : TbUploaded) (s : S3State C) (c : Bytes)
      → Holds b s c
      → ((commit C P prefix b s).2.bucket ≡ s.bucket)
        ⊎ ((commit C P prefix b s).2.bucket ≡ (C.put_object (name_of (P.sha256 c)) c s.bucket).1)
  unfolding commit cleanup key_to_name
  commit_bucket b s c h = go (next_fault s.faults) refl
    where
      go :
          (f : Fault)
          → next_fault s.faults ≡ f
          → ((commit C P prefix b s).2.bucket ≡ s.bucket)
            ⊎ ((commit C P prefix b s).2.bucket
                ≡ (C.put_object (name_of (P.sha256 c)) c s.bucket).1)
      go pass e = inr (ground (arith, h.file, h.hash, append-nil c))
      go (fail n) e = inl (ground (arith, h.file, h.hash, append-nil c))

  -- What an object's name shows after PutObject, whether it fails or not.
  put-view :
      (c j : Bytes) (bucket : C.Bucket)
      → IsPlatform P
      → IsBytes j
      → let after = (C.put_object (name_of (P.sha256 c)) c bucket).1 in
        (K.object after (name_of j) ≡ K.object bucket (name_of j))
        ⊎ ((K.object after (name_of j) ≡ some c) × (P.sha256 c ≡ j))
  put-view c j bucket LP bytes = go (C.put_object (name_of (P.sha256 c)) c bucket).0 refl
    where
      go :
          (r : Result (Unit {0}))
          → (C.put_object (name_of (P.sha256 c)) c bucket).0 ≡ r
          → (K.object (C.put_object (name_of (P.sha256 c)) c bucket).1 (name_of j)
              ≡ K.object bucket (name_of j))
            ⊎ ((K.object (C.put_object (name_of (P.sha256 c)) c bucket).1 (name_of j) ≡ some c)
                × (P.sha256 c ≡ j))
      go (ok tt) e =
          let stored = K.put_object_ok (name_of (P.sha256 c)) (name_of j) c bucket e in
          let same = name-eq j (P.sha256 c) bytes (LP.sha256_bytes c) in
          elim (Bool-cases (j == P.sha256 c)) [
            | inl here ↦ inr (rw (same ∙ here) at stored, sym (==_sound j (P.sha256 c) here))
            | inr other ↦ inl (rw (same ∙ other) at stored)
          ]
      go (err x) e = elim (K.put_object_err (name_of (P.sha256 c)) (name_of j) c bucket x e) [
        | inl same ↦ inl same
        | inr (alike, stored) ↦ inr (
          stored,
          sym (
              encode_injective j (P.sha256 c) bytes (LP.sha256_bytes c)
                (prefix_injective prefix (encode j) (encode (P.sha256 c)) alike)),
        )
      ]

  commit_view :
      (b : TbUploaded) (s : S3State C) (c j : Bytes)
      → IsPlatform P
      → IsBytes j
      → Holds b s c
      → (view (commit C P prefix b s).2 j ≡ view s j)
        ⊎ ((view (commit C P prefix b s).2 j ≡ some c) × (P.sha256 c ≡ j))
  commit_view b s c j LP bytes h = elim (commit_bucket b s c h) [
    | inl same ↦ inl (ap (λ (x : C.Bucket). K.object x (name_of j)) same)
    | inr put ↦
        subst
          (λ (x : C.Bucket).
            (K.object x (name_of j) ≡ view s j)
            ⊎ ((K.object x (name_of j) ≡ some c) × (P.sha256 c ≡ j)))
          (sym put) (put-view c j s.bucket LP bytes)
  ]

  commit_ok :
      (b : TbUploaded) (s : S3State C) (c d j : Bytes)
      → IsPlatform P
      → IsBytes j
      → Holds b s c
      → (commit C P prefix b s).0 ≡ ok d
      → (d ≡ P.sha256 c)
        × (view (commit C P prefix b s).2 j ≡ (if j == d then some c else view s j))
  commit_ok b s c d j LP bytes h e =
      let (digest, done, after) = commit_put b s c d h e in
      (
        digest,
        ap (λ (x : C.Bucket). K.object x (name_of j)) after
            ∙ K.put_object_ok (name_of (P.sha256 c)) (name_of j) c s.bucket done
            ∙ rw (digest, name-eq j (P.sha256 c) bytes (LP.sha256_bytes c)) refl,
      )

  get_ok :
      (k : Bytes) (s : S3State C) (r : Reader)
      → (get C P prefix k s).0 ≡ ok r
      → r.broken ≡ none
      → view s k ≡ some (concat r.chunks)
  unfolding get key_to_name
  get_ok k s r h w = K.get_object_ok (name_of k) s.bucket r (ground arith) w

  -- GetObject's errors are passed on, and none of them is ErrBlobNotExist.
  pub get_err :
      (k : Bytes) (s : S3State C) (e : Error)
      → (get C P prefix k s).0 ≡ err e
      → errors_is blob_not_exist e ≡ false
  unfolding get key_to_name errors_is
  get_err k s e h = go (C.get_object (name_of k) s.bucket).0 refl h
    where
      go :
          (r : Result Reader)
          → (C.get_object (name_of k) s.bucket).0 ≡ r
          → wrap_err "error getting object from S3" r ≡ err e
          → errors_is blob_not_exist e ≡ false
      go (ok r) q h = absurd (cc)
      go (err x) q h =
          let same : wrap "error getting object from S3" x ≡ e = cc in
          sym (ap (errors_is blob_not_exist) same) ∙ K.get_object_err (name_of k) s.bucket x q

  exists_ok :
      (k : Bytes) (s : S3State C)
      → (exists C P prefix k s).0 ≡ ok true
      → (c : Bytes) × (view s k ≡ some c)
  unfolding exists key_to_name
  exists_ok k s h = K.head_object_ok (name_of k) s.bucket (ground arith)

  put_Holds :
      (s : S3State C) (b : TbUploaded)
      → (put C P prefix s).0 ≡ ok b
      → Holds b (put C P prefix s).1 []
  unfolding put
  put_Holds s b h = record { file = ground arith; hash = ground arith }

  put-bucket : (s : S3State C) → (put C P prefix s).1.bucket ≡ s.bucket
  unfolding put
  put-bucket s = ground arith

  -- Over any S3 client that keeps what IsS3Client says, the store meets the contract of a blob
  -- store, whichever calls on the temporary files fail: a Get, Exists, Put, Write or Cleanup changes
  -- no blob; a Get that is read to its end gives the blob; a Commit that succeeds returns the digest
  -- of all bytes written and stores them under it, and one that fails stores nothing, or else these
  -- bytes under their digest.
  pub s3_store-IsLawful : IsPlatform P → IsLawful P (s3_store C P prefix)
  unfolding get exists key_to_name
  s3_store-IsLawful LP = record {
    view = view;
    IsLive = λ b. Unit {0};
    Holds = Holds;
    view-get = λ k j s. K.object-get_object (name_of k) (name_of j) s.bucket;
    get_ok = get_ok;
    get_missing = λ k s e h m. absurd (let q = get_err k s e h in cc);
    view-exists = λ k j s. K.object-head_object (name_of k) (name_of j) s.bucket;
    exists_ok = λ k s _ h. exists_ok k s h;
    view-put = λ j s. ap (λ (x : C.Bucket). K.object x (name_of j)) (put-bucket s);
    put_live = λ s b e. (tt, put_Holds s b e);
    write_live = λ p b s live. tt;
    view-write = λ p b s j _ _. ap (λ (x : C.Bucket). K.object x (name_of j)) (write-bucket p b s);
    write_holds = λ p b s c h e. write-Holds p b s c h e;
    commit_live = λ b s live. tt;
    commit_ok = λ b s c d j bytes live h e. commit_ok b s c d j LP bytes h e;
    commit_err = λ b s c e j bytes live h _. commit_view b s c j LP bytes h;
    view-cleanup = λ b s j _ _. ap (λ (x : C.Bucket). K.object x (name_of j)) (cleanup-bucket b s);
  }
