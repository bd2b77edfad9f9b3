-- ===== src/Re.antt =====
-- cli/internal/re/multi_regexp.go, over any regular-expression engine.
pub mod Laws
use htvend.Base.{String, Bool, false, ◌||◌, Option, none, some, List, [], ◌∷◌, ◌++◌, ◌<>◌}
use htvend.Base.Error.{message, Result, ok, err}

-- Package regexp: compiled expressions, regexp.Compile and MatchString.
pub record Engine : Type 1 where
  pub Regexp : Type 0
  pub compile : String → Option Regexp
  pub match_string : Regexp → String → Bool

module _ (E : Engine) where
  -- A *MultiRegexMatcher; `none` is the nil pointer.
  abbrev pub MultiRegexMatcher : Type 0
  MultiRegexMatcher = Option (List E.Regexp)

  unfoldable pub compile_all : List E.Regexp → List String → Result MultiRegexMatcher
  compile_all done [] = ok (some done)
  compile_all done (r ∷ rs) = elim (E.compile r) [
    | none ↦ err (message ("error compiling regex " <> r))
    | some re ↦ compile_all (done ++ (re ∷ [])) rs
  ]

  unfoldable pub new_multi_regex_matcher : List String → Result MultiRegexMatcher
  unfolding compile_all
  new_multi_regex_matcher rs = compile_all [] rs

  unfoldable pub match_any : List E.Regexp → String → Bool
  match_any [] s = false
  match_any (re ∷ regexes) s = E.match_string re s || match_any regexes s

  unfoldable pub matches : MultiRegexMatcher → String → Bool
  unfolding match_any
  matches none s = false
  matches (some regexes) s = match_any regexes s
