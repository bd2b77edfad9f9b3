-- ===== src/Environment/Command.antt =====
-- cli/internal/app/run_subprocess.go: RunSubprocess.
use htvend.Base.{String, List, [], ◌∷◌, ◌++◌, ◌<>◌, ◌==◌}
use htvend.Base.{string_eq, if◌then◌else◌}
use htvend.Base.Text.{has_suffix}
use htvend.Base.Error.{message, Result, ok, err}

pub record SubprocessOptions : Type 0 where
  pub process : String
  pub args : List String

-- The variable SHELL, empty if it is not set, the other variables of the program's own environment,
-- and what running a command with arguments in an environment returns.
pub record Machine : Type 0 where
  pub shell : String
  pub environ : List String
  pub run : (process : String) (args env : List String) → Result (Unit {0})

-- The process, its arguments and the variables it gets beside the inherited ones.
unfoldable pub shell_command :
    String → String → SubprocessOptions → List String → Result (SubprocessOptions × List String)
shell_command shell prompt opts extra_env =
    if opts.process == ""
    then if shell == ""
      then err (message "no args specified, and unable to find SHELL envariable to default to")
      else if has_suffix shell "bash"
      then ok (
        record { process = shell; args = "--norc" ∷ [] },
        extra_env ++ (("PS1=(" <> prompt <> ") \\$ ") ∷ []),
      )
      else ok (record { process = shell; args = [] }, extra_env)
    else ok (opts, extra_env)

-- RunSubprocess
unfoldable pub run_subprocess :
    Machine → String → SubprocessOptions → List String → Result (Unit {0})
run_subprocess M prompt opts extra_env = elim (shell_command M.shell prompt opts extra_env) [
  | err e ↦ err e
  | ok (cmd, extra) ↦ M.run cmd.process cmd.args (M.environ ++ extra)
]
