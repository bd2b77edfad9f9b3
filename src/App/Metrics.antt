-- ===== src/App/Metrics.antt =====
-- OnShutdown of cli/internal/app/flags_all.go: the counters that are appended to a file.
use htvend.Base.{
  ℕ, String, ◌<>◌, ◌==◌, ◌&&◌, Option, none, some, Bool, true, false, List, [], ◌∷◌, ◌++◌,
}
use htvend.Base.{string_eq, if◌then◌else◌}
use htvend.Base.Text.{cut_prefix}
use htvend.Base.Error.{Error, wrap, Result, ok, err, defer_error}
use htvend.App.{FlagsCommon, Environs, Process, apply}

-- The conversions of a metric's float64 to uint64, and of that to text by %d.
pub record Formats : Type 1 where
  pub Float64 : Type 0
  pub uint64 : Float64 → ℕ
  pub decimal : ℕ → String

-- Package client_model: the type of a family of metrics, as far as it is told apart.
pub data MetricType : Type 0 where
  counter other : MetricType

-- A metric, by the names of its labels, and its counter with its value where these are not nil.
pub record Metric (V : Formats) : Type 0 where
  pub label : List String
  pub counter_value : Option (Option V.Float64)

pub record MetricFamily (V : Formats) : Type 0 where
  pub name : Option String
  pub type_of : Option MetricType
  pub metric : List (Metric V)

-- The writes to the file so far, and the outcomes of the next ones: a write that fails may have
-- written a part.
pub record Output : Type 0 where
  pub written : List String
  pub faults : List (Option (Error × String))

-- The file of GithubOutputPath: what opening and closing it return, and its writes.
pub record OutputFile : Type 0 where
  pub opening : Result (Unit {0})
  pub closing : Result (Unit {0})
  pub output : Output

-- fmt.Fprintf
unfoldable pub fprintf : String → Output → Result (Unit {0}) × Output
fprintf line d = elim d.faults [
  | [] ↦ (ok tt, record d { written = d.written ++ (line ∷ []) })
  | f ∷ fs ↦ elim f [
    | none ↦ (ok tt, record { written = d.written ++ (line ∷ []); faults = fs })
    | some (e, part) ↦ (
      err (wrap "error writing simple metric out" e),
      record { written = d.written ++ (part ∷ []); faults = fs },
    )
  ]
]

abbrev is_counter : Option MetricType → Bool
is_counter (some counter) = true
is_counter (some other) = false
is_counter none = false

abbrev has_prefix : String → String → Bool
has_prefix p s = elim (cut_prefix p s) [ none ↦ false | some _ ↦ true ]

-- A loop that an error ends.
unfoldable pub each :
    {A : Type 0}
    → (A → Output → Result (Unit {0}) × Output)
    → List A
    → Output
    → Result (Unit {0}) × Output
each body [] d = (ok tt, d)
each body (x ∷ xs) d =
    let (r, d') = body x d in elim r [ ok _ ↦ each body xs d' | err e ↦ (err e, d') ]

module _ (V : Formats) where
  -- Whether a family is one that is written out, and its name.
  unfoldable pub selected : MetricFamily V → Option String
  selected m = elim m.name [
    | none ↦ none
    | some name ↦ if has_prefix "htvend_" name && is_counter m.type_of then some name else none
  ]

  -- Whether a metric is one that is written out, and its value.
  unfoldable pub plain_value : Metric V → Option V.Float64
  plain_value mm = elim mm.label [
    | _ ∷ _ ↦ none
    | [] ↦ elim mm.counter_value [ none ↦ none | some v ↦ v ]
  ]

  abbrev pub line_of : String → V.Float64 → String
  line_of name v = name <> "=" <> V.decimal (V.uint64 v) <> "\n"

  unfoldable pub write_metric : String → Metric V → Output → Result (Unit {0}) × Output
  write_metric name mm d = elim (plain_value mm) [
    | none ↦ (ok tt, d)
    | some v ↦ fprintf (line_of name v) d
  ]

  unfoldable pub write_family : MetricFamily V → Output → Result (Unit {0}) × Output
  write_family m d = elim (selected m) [
    | none ↦ (ok tt, d)
    | some name ↦ each (write_metric name) m.metric d
  ]

  -- What follows DefaultGatherer.Gather.
  unfoldable pub gathered : Result (List (MetricFamily V)) → Output → Result (Unit {0}) × Output
  gathered (err e) d = (err (wrap "error gathering metrics" e), d)
  gathered (ok ms) d = each write_family ms d

  -- OnShutdown
  unfoldable pub on_shutdown :
      FlagsCommon → Result (List (MetricFamily V)) → OutputFile → Result (Unit {0}) × OutputFile
  on_shutdown fc gather fp = if fc.github_output_path == "" then (ok tt, fp) else elim fp.opening [
    | err e ↦ (err (wrap "error opening file to write simple metrics to" e), fp)
    | ok _ ↦
        let (r, d) = gathered gather fp.output in
        (defer_error r fp.closing, record fp { output = d })
  ]

-- What a run of the program works on: the process, whatever the commands use, and the metrics' file.
pub record Run (V : Environs) (R : Type 0) : Type 0 where
  pub process : Process V
  pub rest : R
  pub file : OutputFile

module _ (V : Environs) (M : Formats) {R : Type 0} (fc : FlagsCommon) where
  -- The two functions that main passes to RunWithFlags, where LOG_LEVEL is the variable's value, if
  -- it is set, and `gather` is DefaultGatherer.Gather.
  unfoldable pub global_init : Option String → Run V R → Result (Unit {0}) × Run V R
  global_init log_level s =
      let (r, p) = apply V fc log_level s.process in (r, record s { process = p })

  unfoldable pub global_shutdown :
      (R → Result (List (MetricFamily M))) → Run V R → Result (Unit {0}) × Run V R
  global_shutdown gather s =
      let (r, fp) = on_shutdown M fc (gather s.rest) s.file in (r, record s { file = fp })
