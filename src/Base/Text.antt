-- ===== src/Base/Text.antt =====
-- Go's strings.CutPrefix and strings.HasSuffix.
use Prim.Native.Char.{code}
use Prim.Native.String.{String}
use mathlib.Core.Bool.{Bool, ◌||◌}
use mathlib.Core.Option.{Option, none, some}
use htvend.Base.Equality.{◌==◌, if◌then◌else◌, string_eq, nat_eq}

unfoldable pub cut_prefix : String → String → Option String
cut_prefix String.[] s = some s
cut_prefix (String.◌∷◌ c p) String.[] = none
cut_prefix (String.◌∷◌ c p) (String.◌∷◌ d s) =
    let rest = cut_prefix p s in if code c == code d then rest else none

unfoldable pub has_suffix : String → String → Bool
has_suffix String.[] t = String.[] == t
has_suffix (String.◌∷◌ c s) t = let rest = has_suffix s t in String.◌∷◌ c s == t || rest
