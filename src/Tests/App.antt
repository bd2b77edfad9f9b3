-- ===== src/Tests/App.antt =====
-- A run that leaves metrics, and a temporary directory that was made read-only.
use htvend.Base.{
  ◌≡◌, refl, ℕ, Bool, true, false, String, ◌==◌, ◌&&◌, Option, none, some, List, [], ◌∷◌, ◌++◌,
  string_eq, nat_eq, arith,
}
use htvend.Base.{if◌then◌else◌}
use htvend.Base.Error.{Result, message, ok, err}
use htvend.App.{FlagsCommon, Environs, command_handler}
use htvend.App.Metrics.{
  Formats, Metric, MetricFamily, counter, other, Run, global_init, global_shutdown,
}
use htvend.App.Lines.{Lines, FamilyLines}
use htvend.App.Shutdown.{command_handler-Lines}
use htvend.App.TempDir.{Node, Nodes, EachOpen, file, dir, empty, entry, is_open, RemoveAll, AllOpen}

abbrev environs : Environs
environs = record {
  Level = ℕ;
  info_level = 4;
  debug_level = 5;
  parse_level = λ s. err (message "not a level");
  chdir = λ from to. ok to;
}

abbrev formats : Formats
formats = record { Float64 = ℕ; uint64 = λ n. n; decimal = λ n. "7" }

abbrev flags : FlagsCommon
flags = record { dir_to_change_to = "."; verbose = false; github_output_path = "/out" }

abbrev families : List (MetricFamily formats)
families =
    record {
      name = some "htvend_missing";
      type_of = some counter;
      metric = record { label = []; counter_value = some (some 7) } ∷ [];
    }
    ∷ (record {
      name = some "go_threads";
      type_of = some other;
      metric = record { label = []; counter_value = some (some 7) } ∷ [];
    }
        ∷ [])

abbrev gather : ℕ → Result (List (MetricFamily formats))
gather n = ok families

abbrev start : Run environs ℕ
start = record {
  process = record { level = 0; dir = "/" };
  rest = 0;
  file = record {
    opening = ok tt;
    closing = ok tt;
    output = record { written = "before\n" ∷ []; faults = [] };
  };
}

abbrev execute : Run environs ℕ → Result (Unit {0}) × Run environs ℕ
execute s = (ok tt, record s { rest = 1 })

abbrev whole : Result (Unit {0}) × Run environs ℕ
whole =
    command_handler (global_init environs formats flags none)
      (global_shutdown environs formats flags gather) (some execute) start

command_handler-Lines_example :
    ((execute (global_init environs formats flags none start).1).0 ≡ ok tt)
    × ((ms : List (MetricFamily formats)) × (gather 1 ≡ ok ms)
        × (lines : List String) × Lines (FamilyLines formats) ms lines
        × (whole.1.file.output.written ≡ ("before\n" ∷ []) ++ lines))
unfolding command_handler htvend.App.executed global_init global_shutdown htvend.App.apply
    htvend.App.level_of htvend.App.change_dir htvend.App.Metrics.on_shutdown
    htvend.App.Metrics.gathered htvend.App.Metrics.each htvend.App.Metrics.write_family
    htvend.App.Metrics.write_metric htvend.App.Metrics.selected htvend.App.Metrics.plain_value
    htvend.App.Metrics.fprintf htvend.Base.Text.cut_prefix string_eq nat_eq
command_handler-Lines_example =
    command_handler-Lines environs formats flags none gather execute start refl (λ t. refl) refl

-- A removal that fails as soon as one directory of the tree is not open.
unfoldable mutual
  all_open : Node → Bool
  all_open file = true
  all_open (dir sealed mode es) = let rest = each_open es in is_open mode && rest

  each_open : Nodes → Bool
  each_open empty = true
  each_open (entry name n es) = let rest = each_open es in all_open n && rest

abbrev remove_all : RemoveAll
remove_all n = if all_open n then (ok tt, none) else (err (message "permission denied"), some n)

mutual
  unfolding all_open each_open AllOpen EachOpen

  AllOpen-all_open : (n : Node) → AllOpen n → all_open n ≡ true
  AllOpen-all_open file h = refl
  AllOpen-all_open (dir sealed mode es) (e, h) = rw (e, EachOpen-each_open es h) refl

  EachOpen-each_open : (es : Nodes) → EachOpen es → each_open es ≡ true
  EachOpen-each_open empty h = refl
  EachOpen-each_open (entry name n es) (h, k) =
      rw (AllOpen-all_open n h, EachOpen-each_open es k) refl

-- Mode 0500, and inside it 0.
abbrev left_over : String → Result (Unit {0}) × Node
left_over td = (
  err (message "exit status 1"),
  dir false 320 (entry "a" file (entry "b" (dir false 0 (entry "c" file empty)) empty)),
)
