-- ===== src/Blobstore/S3.antt =====
-- cli/internal/blobstore/s3store/s3_store.go: a store in a bucket, over any S3 client. What is put is
-- first written to a temporary file.
pub mod Laws
use htvend.Base.{
  ◌≡◌, ◌⊎◌, ◌==◌, ◌++◌, ◌<>◌, String, Bool, true, false, Option, none, some, List, [], ◌∷◌, ℕ,
}
use htvend.Base.{Bytes, length, take, concat, string_eq, if◌then◌else◌}
use htvend.Base.Hex.{encode}
use htvend.Base.Error.{Error, message, wrap, blob_not_exist, errors_is, Result, ok, err, wrap_err}
use htvend.Platform.{Platform}
use htvend.Stream.{Reader}
use htvend.Blobstore.{Store}
use htvend.Blobstore.Disk.{Fault, pass, fail, io_error, next_fault}

-- GetObject, HeadObject and PutObject of the AWS SDK on the bucket, by the object's name.
-- `is_not_found` says of an error that it is a response with the status 404.
pub record S3Client : Type 1 where
  pub Bucket : Type 0
  pub get_object : String → Bucket → Result Reader × Bucket
  pub head_object : String → Bucket → Result (Unit {0}) × Bucket
  pub put_object : String → Bytes → Bucket → Result (Unit {0}) × Bucket
  pub is_not_found : Error → Bool

-- What the service promises: a read that ends gives the object, reads change nothing, an object that
-- answers to HeadObject is there, and PutObject stores the object under its name alone; when it
-- fails, it may have stored it.
-- An error of the SDK is not the program's ErrBlobNotExist.
pub record IsS3Client (C : S3Client) : Type 0 where
  pub object : C.Bucket → String → Option Bytes
  pub object-get_object : (n m : String) (b : C.Bucket) → object (C.get_object n b).1 m ≡ object b m
  pub get_object_ok :
      (n : String) (b : C.Bucket) (r : Reader)
      → (C.get_object n b).0 ≡ ok r
      → r.broken ≡ none
      → object b n ≡ some (concat r.chunks)
  pub get_object_err :
      (n : String) (b : C.Bucket) (e : Error)
      → (C.get_object n b).0 ≡ err e
      → errors_is blob_not_exist e ≡ false
  pub object-head_object :
      (n m : String) (b : C.Bucket) → object (C.head_object n b).1 m ≡ object b m
  pub head_object_ok :
      (n : String) (b : C.Bucket)
      → (C.head_object n b).0 ≡ ok tt
      → (c : Bytes) × (object b n ≡ some c)
  pub put_object_ok :
      (n m : String) (c : Bytes) (b : C.Bucket)
      → (C.put_object n c b).0 ≡ ok tt
      → object (C.put_object n c b).1 m ≡ (if m == n then some c else object b m)
  pub put_object_err :
      (n m : String) (c : Bytes) (b : C.Bucket) (e : Error)
      → (C.put_object n c b).0 ≡ err e
      → (object (C.put_object n c b).1 m ≡ object b m)
        ⊎ ((m ≡ n) × (object (C.put_object n c b).1 m ≡ some c))

-- The temporary file of an upload, which no one else uses: its bytes before its offset, and those from
-- the offset on.
pub record TempFile : Type 0 where
  pub before : Bytes
  pub after : Bytes
  pub closed : Bool

-- tbUploaded; `h` is what the hash has taken
pub record TbUploaded : Type 0 where
  pub f : Option TempFile
  pub h : Bytes

-- The bucket, and the outcomes of the next calls on temporary files.
pub record S3State (C : S3Client) : Type 0 where
  pub bucket : C.Bucket
  pub faults : List Fault

-- What is left of these bytes when others are written over them.
abbrev pub overwritten : Bytes → Bytes → Bytes
overwritten [] p = []
overwritten (a ∷ rest) [] = a ∷ rest
overwritten (a ∷ rest) (x ∷ p) = overwritten rest p

-- A write at the offset, which replaces as many bytes as it has.
abbrev pub written : Bytes → TempFile → TempFile
written p t = record t { before = t.before ++ p; after = overwritten t.after p }

-- Seek(0, io.SeekStart)
abbrev pub rewound : TempFile → TempFile
rewound t = record t { before = []; after = t.before ++ t.after }

-- A body that the client reads from its offset to its end.
abbrev pub read_out : TempFile → TempFile
read_out t = record t { before = t.before ++ t.after; after = [] }

abbrev already_closed : Error
already_closed = message "file already closed"

module _ (C : S3Client) where
  abbrev later : S3State C → S3State C
  later s = record s { faults = elim s.faults [ [] ↦ [] | f ∷ fs ↦ fs ] }

  -- A call on the temporary file, which may fail.
  abbrev temp_call : S3State C → Result (Unit {0}) × S3State C
  temp_call s = (elim (next_fault s.faults) [ pass ↦ ok tt | fail n ↦ err io_error ], later s)

  -- io.MultiWriter(f, h) on an open file: the hash takes the bytes only if the file took them all
  write_temp :
      Bytes → TempFile → TbUploaded → S3State C → (ℕ × Option Error) × TbUploaded × S3State C
  write_temp p t b s = elim (next_fault s.faults) [
    | pass ↦ ((length p, none), record { f = some (written p t); h = b.h ++ p }, later s)
    | fail n ↦
        ((length (take n p), some io_error), record b { f = some (written (take n p) t) }, later s)
  ]

  unfoldable pub write :
      Bytes → TbUploaded → S3State C → (ℕ × Option Error) × TbUploaded × S3State C
  unfolding write_temp
  write p b s = elim b.f [
    | none ↦ ((0, some already_closed), b, s)
    | some t ↦ if t.closed then ((0, some already_closed), b, s) else write_temp p t b s
  ]

  -- os.Remove of the temporary file, after its Close, whose error is ignored
  removed :
      TbUploaded
      → TempFile
      → Result (Unit {0}) × S3State C
      → Result (Unit {0}) × TbUploaded × S3State C
  removed b t (err e, s) = (
    err (wrap "error removing temp file for s3 upload" e),
    record b { f = some (record t { closed = true }) },
    s,
  )
  removed b t (ok _, s) = (ok tt, record b { f = none }, s)

  unfoldable pub cleanup : TbUploaded → S3State C → Result (Unit {0}) × TbUploaded × S3State C
  unfolding removed
  cleanup b s = elim b.f [ none ↦ (ok tt, b, s) | some t ↦ removed b t (temp_call (temp_call s).1) ]

  -- keyToName
  unfoldable pub key_to_name : String → Bytes → String
  key_to_name prefix k = prefix <> encode k

  returned :
      Bytes → Result (Unit {0}) × TbUploaded × S3State C → Result Bytes × TbUploaded × S3State C
  returned k (err e, b, s) = (err (wrap "error cleaning up after upload" e), b, s)
  returned k (ok _, b, s) = (ok k, b, s)

  uploaded :
      Bytes → TbUploaded → Result (Unit {0}) × S3State C → Result Bytes × TbUploaded × S3State C
  unfolding returned
  uploaded k b (err e, s) = (err (wrap "error uploading blob to s3" e), b, s)
  uploaded k b (ok _, s) = returned k (cleanup b s)

  module _ (P : Platform) (prefix : String) where
    -- PutObject, whose body is the file from its offset on
    upload : TempFile → TbUploaded → S3State C → Result (Unit {0}) × S3State C
    unfolding key_to_name
    upload t b s =
        let (r, bucket) = C.put_object (key_to_name prefix (P.sha256 b.h)) t.after s.bucket in
        (r, record s { bucket = bucket })

    -- From t.f.Seek on
    seeked :
        TempFile
        → TbUploaded
        → Result (Unit {0}) × S3State C
        → Result Bytes × TbUploaded × S3State C
    unfolding uploaded upload
    seeked t b (err e, s) = (err (wrap "error seeking file start" e), b, s)
    seeked t b (ok _, s) =
        uploaded (P.sha256 b.h) (record b { f = some (read_out (rewound t)) })
          (upload (rewound t) b s)

    unfoldable pub commit : TbUploaded → S3State C → Result Bytes × TbUploaded × S3State C
    unfolding seeked
    commit b s = elim b.f [
      | none ↦ (err (wrap "error seeking file start" already_closed), b, s)
      | some t ↦
          if t.closed
          then (err (wrap "error seeking file start" already_closed), b, s)
          else seeked t b (temp_call s)
    ]

    unfoldable pub get : Bytes → S3State C → Result Reader × S3State C
    unfolding key_to_name
    get k s =
        let (r, bucket) = C.get_object (key_to_name prefix k) s.bucket in
        (wrap_err "error getting object from S3" r, record s { bucket = bucket })

    found : Result (Unit {0}) → Result Bool
    found (ok _) = ok true
    found (err e) =
        if C.is_not_found e
        then ok false
        else err (wrap "error checking for object existence in s3" e)

    unfoldable pub exists : Bytes → S3State C → Result Bool × S3State C
    unfolding key_to_name found
    exists k s =
        let (r, bucket) = C.head_object (key_to_name prefix k) s.bucket in
        (found r, record s { bucket = bucket })

    created : Result (Unit {0}) × S3State C → Result TbUploaded × S3State C
    created (err e, s) = (err (wrap "error creating temp file" e), s)
    created (ok _, s) =
        (ok (record { f = some (record { before = []; after = []; closed = false }); h = [] }), s)

    unfoldable pub put : S3State C → Result TbUploaded × S3State C
    unfolding created
    put s = created (temp_call s)

    -- NewS3Store with the prefix of its S3StoreConfig, once the SDK has its configuration
    abbrev pub s3_store : Store
    s3_store = record {
      State = S3State C;
      Blob = TbUploaded;
      get = get;
      exists = exists;
      put = put;
      write = write;
      commit = commit;
      cleanup = cleanup;
      destroy = λ s. (
        err (
            message "destroy except currently not implemented for S3 blobstore implementation yet"),
        s,
      );
      remove_except = λ keep s. (
        err (message "remove except currently not implemented for S3 blobstore implementation yet"),
        s,
      );
    }
