-- ===== src/App.antt =====
-- cli/internal/app and cli/cmd/htvend/main.go: the common flags, and how a command runs under them.
pub mod Metrics
pub mod Lines
pub mod Shutdown
pub mod TempDir
use htvend.Base.{String, ◌==◌, not, Option, none, some, Bool, true, false}
use htvend.Base.{string_eq, if◌then◌else◌}
use htvend.Base.Error.{Error, wrap, Result, ok, err, defer_error}

pub record FlagsCommon : Type 0 where
  pub dir_to_change_to : String
  pub verbose : Bool
  pub github_output_path : String

-- Package logrus, and os.Chdir from one directory to a path.
pub record Environs : Type 1 where
  pub Level : Type 0
  pub info_level : Level
  pub debug_level : Level
  pub parse_level : String → Result Level
  pub chdir : String → String → Result String

-- The log level and the working directory of the process.
pub record Process (V : Environs) : Type 0 where
  pub level : V.Level
  pub dir : String

-- How the program ends.
pub data Exit : Type 0 where
  returns : Exit
  fatal : Error → Exit

module _ (V : Environs) where
  -- The level that the variable LOG_LEVEL asks for, if it is set.
  unfoldable pub level_of : Option String → Result V.Level
  level_of none = ok V.info_level
  level_of (some lls) = elim (V.parse_level lls) [
    | err e ↦ err (wrap "bad log level" e)
    | ok ll ↦ ok ll
  ]

  unfoldable pub change_dir : FlagsCommon → Process V → Result (Unit {0}) × Process V
  change_dir fc p =
      if fc.dir_to_change_to == "." then (ok tt, p) else elim (V.chdir p.dir fc.dir_to_change_to) [
        | err e ↦ (err e, p)
        | ok d ↦ (ok tt, record p { dir = d })
      ]

  -- Apply
  unfoldable pub apply : FlagsCommon → Option String → Process V → Result (Unit {0}) × Process V
  unfolding level_of change_dir
  apply fc log_level p = elim (level_of log_level) [
    | err e ↦ (err e, p)
    | ok ll ↦ change_dir fc (record p { level = if fc.verbose then V.debug_level else ll })
  ]

-- The end of RunWithFlags: nothing more is said after the help.
unfoldable pub exit_of : (Error → Bool) → Result (Unit {0}) → Exit
exit_of wrote_help (ok _) = returns
exit_of wrote_help (err e) = if wrote_help e then returns else fatal e

module _ {S : Type 0} where
  -- parser.CommandHandler, from the results of globalInit on
  unfoldable pub executed :
      (S → Result (Unit {0}) × S)
      → Option (S → Result (Unit {0}) × S)
      → Result (Unit {0}) × S
      → Result (Unit {0}) × S
  executed shutdown command (err e, s) = (err e, s)
  executed shutdown none (ok _, s) = let (x, s1) = shutdown s in (defer_error (ok tt) x, s1)
  executed shutdown (some execute) (ok _, s) =
      let (r, s1) = execute s in let (x, s2) = shutdown s1 in (defer_error r x, s2)

  unfoldable pub command_handler :
      (init shutdown : S → Result (Unit {0}) × S)
      → Option (S → Result (Unit {0}) × S)
      → S
      → Result (Unit {0}) × S
  command_handler init shutdown command s = executed shutdown command (init s)

  -- RunWithFlags, given what the parser makes of the arguments: a command, if any, or an error.
  unfoldable pub run_with_flags :
      (Error → Bool)
      → (init shutdown : S → Result (Unit {0}) × S) → Result (Option (S → Result (Unit {0}) × S))
      → S
      → Exit × S
  run_with_flags wrote_help init shutdown (err e) s = (exit_of wrote_help (err e), s)
  run_with_flags wrote_help init shutdown (ok command) s =
      let (r, s') = command_handler init shutdown command s in (exit_of wrote_help r, s')
