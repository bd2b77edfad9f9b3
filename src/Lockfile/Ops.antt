-- ===== src/Lockfile/Ops.antt =====
-- cli/internal/lockfile/lock_file.go: the functions and methods. The mutex makes each method one step.
use htvend.Base.{◌<>◌, String, Bool, true, false, not, Option, none, some, [], ◌∷◌}
use htvend.Base.{string_eq, if◌then◌else◌}
use htvend.Base.Dict.{lookup, insert, erase}
use htvend.Base.Error.{
  Error, message, wrap, sentinel, os_not_exist, errors_is, Result, ok, err, defer_error,
}
use htvend.Re.{Engine, matches}
use htvend.Lockfile.{
  BlobInfo, blob_equals, BlobMap, Codec, MapFileOptions, File, Fault, pass, fail, Place, Outcome,
  returns, panics, Urls,
}

abbrev pub io_error : Error
io_error = message "input/output error"

abbrev pub empty_file : {E : Engine} → MapFileOptions E → File E
empty_file o = record { options = o; blobs = []; previous_blobs = []; dirty = false }

module _ {C : Codec} where
  abbrev pub next_fault : Place C → Fault C.Content
  next_fault p = elim p.faults [ [] ↦ pass | f ∷ fs ↦ f ]

  abbrev pub later : Place C → Place C
  later p = record p { faults = elim p.faults [ [] ↦ [] | f ∷ fs ↦ fs ] }

  -- A call that does nothing when it fails.
  abbrev pub attempt : {A : Type 0} → (Place C → Result A × Place C) → Place C → Result A × Place C
  attempt body p = elim (next_fault p) [ pass ↦ body (later p) | fail _ ↦ (err io_error, later p) ]

  -- os.ReadFile
  read_file : Place C → Result C.Content × Place C
  read_file =
      attempt (λ p. (elim p.content [ none ↦ err (sentinel os_not_exist) | some c ↦ ok c ], p))

  -- os.WriteFile
  write_file : C.Content → Place C → Result (Unit {0}) × Place C
  write_file c p = elim (next_fault p) [
    | pass ↦ (ok tt, record (later p) { content = some c })
    | fail left ↦ (err io_error, record (later p) { content = left })
  ]

  -- fslock.Lock and Unlock
  unfoldable pub lock : Place C → Result (Unit {0}) × Place C
  lock = attempt (λ p.
      if p.locked then (err (message "lock held"), p) else (ok tt, record p { locked = true }))

  unlock : Place C → Result (Unit {0}) × Place C
  unlock = attempt (λ p. (ok tt, record p { locked = false }))

  -- os.Remove of the lock's path
  remove_lock : Place C → Result (Unit {0}) × Place C
  remove_lock = attempt (λ p. (ok tt, p))

  -- os.Remove of the manifest
  remove_file : Place C → Result (Unit {0}) × Place C
  remove_file = attempt (λ p. elim p.content [
    | none ↦ (err (sentinel os_not_exist), p)
    | some c ↦ (ok tt, record p { content = none })
  ])

module _ {C : Codec} {E : Engine} where
  saved : File E → Result (Unit {0}) × Place C → Result (Unit {0}) × File E × Place C
  saved f (ok _, p) = (ok tt, record f { dirty = false }, p)
  saved f (err e, p) = (err (wrap "error writing file" e), f, p)

  -- save(final)
  unfoldable pub save : Bool → File E → Place C → Result (Unit {0}) × File E × Place C
  unfolding saved write_file
  save final f p =
      if not f.dirty
      then (ok tt, f, p)
      else if not f.options.writable
      then (err (message (f.options.path <> " is not writable! should not get here")), f, p)
      else if not final
      then (ok tt, f, p)
      else elim (C.marshal f.blobs) [
        | none ↦ (err (message "error marshalling"), f, p)
        | some c ↦ saved f (write_file c p)
      ]

  -- internalAddBlob
  unfoldable pub internal_add_blob :
      String → BlobInfo → File E → Place C → Result (Unit {0}) × File E × Place C
  internal_add_blob k info f p =
      let put = save false (record f { blobs = insert k info f.blobs; dirty = true }) p in
      elim (lookup k f.blobs) [
        | none ↦ put
        | some v0 ↦
            if blob_equals v0 info
            then (ok tt, f, p)
            else if not f.options.allow_overwrite
            then (
              err (
                  message (
                    "wrong SHA256 for " <> k <> ": expected: " <> v0.sha256 <> " received: "
                    <> info.sha256 <> " (or different headers)")),
              f,
              p,
            )
            else put
      ]

  abbrev renewed :
      BlobInfo → Result (Unit {0}) × File E × Place C → Result (Option BlobInfo) × File E × Place C
  renewed rv (ok _, f, p) = (ok (some rv), f, p)
  renewed rv (err e, f, p) = (err (wrap "error storing previously cached blob info" e), f, p)

  -- Reset
  unfoldable pub reset : Bool → File E → Place C → Result (Unit {0}) × File E × Place C
  reset forget_blobs f p =
      let f' = record f { previous_blobs = if forget_blobs then [] else f.blobs } in
      elim f.blobs [
        | [] ↦ (ok tt, f', p)
        | _ ∷ _ ↦ save false (record f' { blobs = []; dirty = true }) p
      ]

  abbrev released : Result (Unit {0}) × File E × Place C → Result (Unit {0}) × File E × Place C
  released (r, f, p) =
      let (u, p1) = unlock p in
      let (m, p2) = remove_lock p1 in (defer_error (defer_error r u) m, f, p2)

  -- Close
  unfoldable pub close : File E → Place C → Result (Unit {0}) × File E × Place C
  unfolding unlock remove_lock
  close f p = if not f.options.writable then (ok tt, f, p) else released (save true f p)

  abbrev destroyed : Result (Unit {0}) × File E × Place C → Result (Unit {0}) × File E × Place C
  destroyed (err e, f, p) = (err (wrap "error closing manifest file prior to destruction" e), f, p)
  destroyed (ok _, f, p) = let (r, p') = remove_file p in (r, f, p')

  -- CloseAndDestroy
  unfoldable pub close_and_destroy : File E → Place C → Result (Unit {0}) × File E × Place C
  unfolding remove_file
  close_and_destroy f p =
      if not f.options.writable
      then (err (message "hmm, file should not be destroyable"), f, p)
      else destroyed (close f p)

  -- load, from the outcome of os.ReadFile
  parsed : File E → Result C.Content × Place C → Result (File E) × Place C
  parsed f (err e, p) = (
    if errors_is os_not_exist e
        then if f.options.writable
          then ok (record f { dirty = true })
          else err (wrap "error opening map" e)
        else err (wrap "error opening map" e),
    p,
  )
  parsed f (ok c, p) = (
    elim (C.unmarshal c) [
      | none ↦ err (message "cannot unmarshal")
      | some m ↦ ok (record f { blobs = m })
    ],
    p,
  )

  unfoldable pub load : File E → Place C → Result (File E) × Place C
  unfolding parsed read_file
  load f p = parsed (record f { blobs = [] }) (read_file p)

  -- The deferred function of NewMapFile, on an error and on the result that it finds: Close of a nil
  -- result dereferences it.
  abbrev pub releasing : Option (File E) → Error → Place C → Outcome (Result (File E)) × Place C
  releasing none e p = (panics, p)
  releasing (some f) e p = let (_, _, p') = close f p in (returns (err e), p')

  -- The end of NewMapFile. `return nil, …` sets the result to nil before the deferred function runs,
  -- which there is if the file is writable.
  opened : Bool → Result (File E) × Place C → Outcome (Result (File E)) × Place C
  opened w (ok f, p) = (returns (ok f), p)
  opened true (err e, p) = releasing none (wrap "error loading initial file" e) p
  opened false (err e, p) = (returns (err (wrap "error loading initial file" e)), p)

  locked_then : MapFileOptions E → Result (Unit {0}) × Place C → Outcome (Result (File E)) × Place C
  locked_then o (err e, p) =
      (returns (err (wrap ("error getting lock on map path (" <> o.path <> ")") e)), p)
  locked_then o (ok _, p) = opened o.writable (load (empty_file o) p)

  -- NewMapFile
  unfoldable pub new_map_file : MapFileOptions E → Place C → Outcome (Result (File E)) × Place C
  unfolding opened locked_then lock
  new_map_file o p = locked_then o (if o.writable then lock p else (ok tt, p))

module _ {E : Engine} (U : Urls) where
  -- SkipSave
  unfoldable pub skip_save : File E → U.Url → Bool
  skip_save f u = matches E f.options.no_cache (U.redacted u)

module _ {C : Codec} {E : Engine} (U : Urls) where
  -- GetBlob: the blob found, if any
  unfoldable pub get_blob : U.Url → File E → Place C → Result (Option BlobInfo) × File E × Place C
  get_blob u f p =
      let k = U.redacted u in
      if matches E f.options.no_cache k then (ok none, f, p) else elim (lookup k f.blobs) [
        | some rv ↦ (ok (some rv), f, p)
        | none ↦ elim (lookup k f.previous_blobs) [
          | some rv ↦ renewed rv (internal_add_blob k rv f p)
          | none ↦ (ok none, f, p)
        ]
      ]

  -- AddBlob
  unfoldable pub add_blob :
      U.Url → BlobInfo → File E → Place C → Result (Unit {0}) × File E × Place C
  add_blob u info f p =
      if matches E f.options.no_cache (U.redacted u)
      then (ok tt, f, p)
      else internal_add_blob (U.redacted u) info f p

  -- RemoveEntry
  unfoldable pub remove_entry : U.Url → File E → Place C → Result (Unit {0}) × File E × Place C
  remove_entry u f p =
      let k = U.redacted u in
      if matches E f.options.no_cache k then (ok tt, f, p) else elim (lookup k f.blobs) [
        | none ↦ (ok tt, f, p)
        | some _ ↦ save false (record f { blobs = erase k f.blobs; dirty = true }) p
      ]

module _ (U : Urls) {S : Type 0} (cb : U.Url → BlobInfo → S → Result (Unit {0}) × S) where
  -- The loop of ForEach, with a callback that works on a state of its own
  unfoldable pub visit : BlobMap → S → Result (Unit {0}) × S
  visit [] s = (ok tt, s)
  visit ((k, v) ∷ m) s = elim (U.parse k) [
    | none ↦ (err (message "parse"), s)
    | some u ↦ let (r, s') = cb u v s in elim r [ ok _ ↦ visit m s' | err e ↦ (err e, s') ]
  ]

  -- ForEach
  unfoldable pub for_each : {E : Engine} → File E → S → Result (Unit {0}) × S
  unfolding visit
  for_each f s = visit f.blobs s
