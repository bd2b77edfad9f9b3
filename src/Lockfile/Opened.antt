-- ===== src/Lockfile/Opened.antt =====
-- NewMapFile: what it reads, what it returns, and where it panics.
use htvend.Base.{◌≡◌, ◌⊎◌, [], sym, subst, String, inl, inr, true, false, some, [], arith}
use htvend.Base.{string_eq, if◌then◌else◌, Option-cases, ◌||◌}
use htvend.Base.Dict.{lookup}
use htvend.Base.Error.{Error, Result, errors_is, ok, err}
use htvend.Re.{Engine}
use htvend.Lockfile.{BlobMap, Codec, MapFileOptions, File, Place, Outcome, returns, panics}
use htvend.Lockfile.Ops.{empty_file, close, lock, load, new_map_file}
use htvend.Lockfile.Laws.{SameInfo}
use htvend.Lockfile.Saved.{IsCodec, IsSynced, SameInfo-refl, close_ok}

module _ {C : Codec} {E : Engine} where
  -- What a map file that is opened has: nothing was remembered from a previous run, and either the
  -- disk holds the entries, or the manifest is dirty and there are none.
  pub record IsFresh (o : MapFileOptions E) (f : File E) (p : Place C) : Type 0 where
    pub options : f.options ≡ o
    pub no_previous : f.previous_blobs ≡ []
    pub synced : IsSynced f p

  load_fields :
      (o : MapFileOptions E) (p : Place C) (f : File E)
      → (load (empty_file o) p).0 ≡ ok f
      → (f.options ≡ o) × (f.previous_blobs ≡ [])
  unfolding load
  load_fields o p f h = ground arith

  load_content :
      (o : MapFileOptions E) (p : Place C) (f : File E)
      → (load (empty_file o) p).0 ≡ ok f
      → f.dirty ≡ false
      → (c : C.Content) × ((load (empty_file o) p).1.content ≡ some c)
        × (C.unmarshal c ≡ some f.blobs)
  unfolding load
  load_content o p f h clean = elim (Option-cases p.content) [
    | inl absent ↦ absurd (ground arith)
    | inr (c, held) ↦ (c, ground arith, ground arith)
  ]

  load-IsFresh :
      (o : MapFileOptions E) (p : Place C) (f : File E)
      → (load (empty_file o) p).0 ≡ ok f
      → IsFresh o f (load (empty_file o) p).1
  load-IsFresh o p f h =
      let (opts, prev) = load_fields o p f h in
      record {
        options = opts;
        no_previous = prev;
        synced = record {
          stored = λ clean.
              let (c, held, decoded) = load_content o p f h clean in
              (c, f.blobs, held, decoded, λ k. SameInfo-refl (lookup k f.blobs));
        };
      }

  new_map_file-load :
      (o : MapFileOptions E) (p : Place C) (f : File E)
      → (new_map_file o p).0 ≡ returns (ok f)
      → (q : Place C) × ((load (empty_file o) q).0 ≡ ok f)
        × ((new_map_file o p).1 ≡ (load (empty_file o) q).1)
  unfolding new_map_file
  new_map_file-load o p f h =
      ((if o.writable then lock p else (ok tt, p)).1, ground arith, ground arith)

  load_blobs :
      (o : MapFileOptions E) (p : Place C) (f : File E)
      → (load (empty_file o) p).0 ≡ ok f
      → (f.blobs ≡ []) ⊎ ((c : C.Content) × (p.content ≡ some c) × (C.unmarshal c ≡ some f.blobs))
  unfolding load errors_is
  load_blobs o p f h = elim (Option-cases p.content) [
    | inl absent ↦ inl (ground arith)
    | inr (c, held) ↦ inr (c, held, ground arith)
  ]

  -- Its entries are those of the disk, or there are none.
  pub new_map_file-blobs :
      (o : MapFileOptions E) (p : Place C) (f : File E)
      → (new_map_file o p).0 ≡ returns (ok f)
      → (f.blobs ≡ []) ⊎ ((c : C.Content) × (p.content ≡ some c) × (C.unmarshal c ≡ some f.blobs))
  unfolding new_map_file lock
  new_map_file-blobs o p f h =
      let q = (if o.writable then lock p else (ok tt, p)).1 in
      let e : (load (empty_file o) q).0 ≡ ok f = ground arith in
      let same : q.content ≡ p.content = ground arith in rw same at (load_blobs o q f e)

  -- A map file that NewMapFile returns has the given options, remembers no previous run, and is
  -- dirty or has the entries that the disk has.
  pub new_map_file-IsFresh :
      (o : MapFileOptions E) (p : Place C) (f : File E)
      → (new_map_file o p).0 ≡ returns (ok f)
      → IsFresh o f (new_map_file o p).1
  new_map_file-IsFresh o p f h =
      let (q, e, same) = new_map_file-load o p f h in
      subst (λ (r : Place C). IsFresh o f r) (sym same) (load-IsFresh o q f e)

  new_map_file-good_content :
      (o : MapFileOptions E) (p : Place C) (c : C.Content) (m : BlobMap)
      → p.content ≡ some c
      → C.unmarshal c ≡ some m
      → p.faults ≡ []
      → p.locked ≡ false
      → (new_map_file o p).0 ≡ returns (ok (record (empty_file o) { blobs = m }))
  unfolding new_map_file load
  new_map_file-good_content o p c m held good fine free = ground arith

  -- What NewMapFile returns, and the lock then.
  abbrev pub LockedAfter : MapFileOptions E → Place C → Outcome (Result (File E)) × Place C → Type 0
  LockedAfter o p (r, p') =
      ((f : File E) × (r ≡ returns (ok f)) × (p'.locked ≡ (o.writable || p.locked)))
      ⊎ ((e : Error) × (r ≡ returns (err e)) × (p'.locked ≡ p.locked))
      ⊎ ((r ≡ panics)
          × (o.writable ≡ true)
          × (p'.locked ≡ true)
          × ((e : Error) × ((load (empty_file o) (lock p).1).0 ≡ err e)))

-- Whatever is opened after a Close that succeeds, read-only or not, has the entries that were
-- closed.
module _ {C : Codec} (L : IsCodec C) {E : Engine} where
  -- If Close of a writable manifest succeeds, the manifest is dirty or else the disk has its
  -- entries, and no later call on the disk fails, then NewMapFile at that path succeeds, read-only
  -- or not, and has for every URL the same digest and headers.
  pub new_map_file-close :
      (f : File E) (p : Place C) (o : MapFileOptions E)
      → f.options.writable ≡ true
      → IsSynced f p
      → (close f p).0 ≡ ok tt
      → (close f p).2.faults ≡ []
      → (g : File E) × ((new_map_file o (close f p).2).0 ≡ returns (ok g))
        × ((k : String) → SameInfo (lookup k g.blobs) (lookup k f.blobs))
  new_map_file-close f p o w s h fine =
      let ((c, m, held, decoded, alike), free) = close_ok L f p w s h in
      (
        record (empty_file o) { blobs = m },
        new_map_file-good_content o (close f p).2 c m held decoded fine free,
        alike,
      )
