-- ===== src/App/Shutdown.antt =====
-- The metrics that a run of the program leaves behind.
use htvend.Base.{
  String, ◌==◌, ◌≡◌, refl, sym, ap, ◌∙◌, Option, some, false, List, [], ◌∷◌, ◌++◌, append-nil,
  append_assoc, arith, inl, inr,
}
use htvend.Base.{string_eq, Option-cases, ◌==◌, nat_eq}
use htvend.Base.Error.{Error, Result, ok, err, defer_error, defer_error_ok, Result-cases}
use htvend.App.{FlagsCommon, Environs, command_handler, executed}
use htvend.App.Metrics.{
  Formats, Metric, MetricFamily, Output, OutputFile, fprintf, each, selected, plain_value, line_of,
  write_metric, write_family, gathered, on_shutdown, Run, global_init, global_shutdown,
}
use htvend.App.Lines.{
  Lines, map_lines, map_lines-Lines, FamilyLines, metric_lines, family_lines, all_lines,
  family_lines-FamilyLines,
}

-- A loop whose rounds add these lines adds them one after the other.
each_ok :
    {A : Type 0} (body : A → Output → Result (Unit {0}) × Output) (lines : A → List String)
    → ((x : A) (d : Output) → (body x d).0 ≡ ok tt → (body x d).1.written ≡ d.written ++ lines x)
    → (xs : List A) (d : Output) → (each body xs d).0 ≡ ok tt
    → (each body xs d).1.written ≡ d.written ++ map_lines lines xs
unfolding each
each_ok body lines k [] d h = sym (append-nil d.written)
each_ok body lines k (x ∷ xs) d h = elim (Result-cases (body x d).0) [
  | inr (e, bad) ↦ absurd (let q = rw (bad, each) at h in cc)
  | inl (_, good) ↦
      rw (good, each)
        (each_ok body lines k xs (body x d).1 (rw (good, each) at h)
          ∙ ap (λ (l : List String). l ++ map_lines lines xs) (k x d good)
          ∙ append_assoc d.written (lines x) (map_lines lines xs))
]

module _ (V : Formats) where
  fprintf_ok :
      (line : String) (d : Output)
      → (fprintf line d).0 ≡ ok tt
      → (fprintf line d).1.written ≡ d.written ++ (line ∷ [])
  unfolding fprintf
  fprintf_ok line d h = ground arith

  write_metric_ok :
      (name : String) (mm : Metric V) (d : Output)
      → (write_metric V name mm d).0 ≡ ok tt
      → (write_metric V name mm d).1.written ≡ d.written ++ metric_lines V name mm
  unfolding write_metric
  write_metric_ok name mm d h = elim (Option-cases (plain_value V mm)) [
    | inl e ↦ rw (e, write_metric, metric_lines) (sym (append-nil d.written))
    | inr (v, e) ↦
        rw (e, write_metric, metric_lines)
          (fprintf_ok (line_of V name v) d (rw (e, write_metric) at h))
  ]

  write_family_ok :
      (m : MetricFamily V) (d : Output)
      → (write_family V m d).0 ≡ ok tt
      → (write_family V m d).1.written ≡ d.written ++ family_lines V m
  unfolding write_family
  write_family_ok m d h = elim (Option-cases (selected V m)) [
    | inl e ↦ rw (e, write_family, family_lines) (sym (append-nil d.written))
    | inr (name, e) ↦
        rw (e, write_family, family_lines)
          (each_ok (write_metric V name) (metric_lines V name) (write_metric_ok name) m.metric d
            (rw (e, write_family) at h))
  ]

  -- OnShutdown with a path: the lines of all families are added.
  on_shutdown_ok :
      (fc : FlagsCommon) (g : Result (List (MetricFamily V))) (fp : OutputFile)
      → (fc.github_output_path == "") ≡ false
      → (on_shutdown V fc g fp).0 ≡ ok tt
      → (ms : List (MetricFamily V)) × (g ≡ ok ms)
        × ((on_shutdown V fc g fp).1.output.written ≡ fp.output.written ++ all_lines V ms)
  unfolding on_shutdown gathered
  on_shutdown_ok fc (err e) fp path h = absurd (ground arith)
  on_shutdown_ok fc (ok ms) fp path h = elim (Result-cases fp.opening) [
    | inr (e, bad) ↦ absurd (let q = rw (path, bad, on_shutdown) at h in cc)
    | inl (_, good) ↦
        let r = (each (write_family V) ms fp.output).0 in
        let done = defer_error_ok r fp.closing (rw (path, good, on_shutdown) at h) in
        (
          ms,
          refl,
          rw (path, good, on_shutdown)
              (each_ok (write_family V) (family_lines V) write_family_ok ms fp.output done),
        )
  ]

both_ok : (r x : Result (Unit {0})) → defer_error r x ≡ ok tt → (r ≡ ok tt) × (x ≡ ok tt)
both_ok (ok _) (ok _) h = (refl, refl)
both_ok (ok _) (err e) h = absurd (cc)
both_ok (err e) x h = absurd (cc)

module _ (V : Environs) (M : Formats) {R : Type 0} (fc : FlagsCommon) (log_level : Option String)
    (gather : R → Result (List (MetricFamily M))) where
  abbrev init : Run V R → Result (Unit {0}) × Run V R
  init = global_init V M fc log_level

  abbrev shutdown : Run V R → Result (Unit {0}) × Run V R
  shutdown = global_shutdown V M fc gather

  -- What the whole of a run returns, once Apply has returned nil.
  executed-shutdown :
      (execute : Run V R → Result (Unit {0}) × Run V R) (s : Run V R)
      → (init s).0 ≡ ok tt
      → command_handler init shutdown (some execute) s ≡ (
        defer_error (execute (init s).1).0 (shutdown (execute (init s).1).1).0,
        (shutdown (execute (init s).1).1).1,
      )
  unfolding command_handler executed
  executed-shutdown execute s e = rw (e, executed) refl

  executed_err :
      (execute : Run V R → Result (Unit {0}) × Run V R) (s : Run V R) (e : Error)
      → (init s).0 ≡ err e
      → (command_handler init shutdown (some execute) s).0 ≡ err e
  unfolding command_handler executed
  executed_err execute s e bad = rw (bad, executed) refl

  -- A path for the metrics, and a command that leaves their file alone: if a run returns nil, then so
  -- did the command, and the metrics could be gathered after it; and the file has got one line
  -- name=value for each counter that has a value and no labels, of each family of counters whose name
  -- begins with htvend_, in the order of the families and of their metrics, and no other line.
  pub command_handler-Lines :
      (execute : Run V R → Result (Unit {0}) × Run V R) (s : Run V R)
      → (fc.github_output_path == "") ≡ false
      → ((t : Run V R) → (execute t).1.file ≡ t.file)
      → (command_handler init shutdown (some execute) s).0 ≡ ok tt
      → let t = (execute (init s).1) in
        (t.0 ≡ ok tt)
        × ((ms : List (MetricFamily M)) × (gather t.1.rest ≡ ok ms)
            × (lines : List String) × Lines (FamilyLines M) ms lines
            × ((command_handler init shutdown (some execute) s).1.file.output.written
                ≡ s.file.output.written ++ lines))
  unfolding global_init global_shutdown
  command_handler-Lines execute s path apart h = elim (Result-cases (init s).0) [
    | inr (e, bad) ↦ absurd (let q = executed_err execute s e bad in cc)
    | inl (_, good) ↦
        let whole = executed-shutdown execute s good in
        let (r, t) = execute (init s).1 in
        let (done, written) = both_ok r (shutdown t).0 (rw whole at h) in
        let (ms, got, lines) = on_shutdown_ok M fc (gather t.rest) t.file path written in
        (
          done,
          (
            ms,
            got,
            all_lines M ms,
            map_lines-Lines (FamilyLines M) (family_lines M) (family_lines-FamilyLines M) ms,
            rw whole (
                lines
                ∙ ap (λ (f : OutputFile). f.output.written ++ all_lines M ms) (apart (init s).1)),
          ),
        )
  ]
