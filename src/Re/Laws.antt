-- ===== src/Re/Laws.antt =====
-- The matcher of a list of regular expressions, and each of them alone.
use htvend.Base.{◌≡◌, String, Bool, false, ◌||◌, none, some, List, [], ◌∷◌, ◌++◌, inl, inr, arith}
use htvend.Base.{Option-cases}
use htvend.Base.Error.{ok}
use htvend.Re.{Engine, MultiRegexMatcher, compile_all, match_any, new_multi_regex_matcher, matches}

module _ (E : Engine) where
  -- Whether the text matches an expression that compiles.
  abbrev pub fits : String → String → Bool
  fits r s = elim (E.compile r) [ none ↦ false | some re ↦ E.match_string re s ]

  -- Whether the text matches one of the expressions.
  abbrev pub fits_any : List String → String → Bool
  fits_any [] s = false
  fits_any (r ∷ rs) s = fits r s || fits_any rs s

  match_any-snoc :
      (a : List E.Regexp) (re : E.Regexp) (s : String)
      → match_any E (a ++ (re ∷ [])) s ≡ (match_any E a s || E.match_string re s)
  unfolding match_any
  match_any-snoc [] re s = ground arith
  match_any-snoc (x ∷ a) re s = let ih = match_any-snoc a re s in ground arith

  compile_all_ok :
      (done : List E.Regexp) (rs : List String) (m : MultiRegexMatcher E) (s : String)
      → compile_all E done rs ≡ ok m
      → matches E m s ≡ (match_any E done s || fits_any rs s)
  unfolding compile_all matches
  compile_all_ok done [] m s h = ground arith
  compile_all_ok done (r ∷ rs) m s h = elim (Option-cases (E.compile r)) [
    | inl bad ↦ absurd (let q = rw (bad, compile_all) at h in cc)
    | inr (re, good) ↦
        let ih = compile_all_ok (done ++ (re ∷ [])) rs m s (rw (good, compile_all) at h) in
        let one = match_any-snoc done re s in ground (arith, ih, one)
  ]

  -- If a list of expressions compiles to a matcher, then the matcher matches a text exactly if one
  -- of the expressions, compiled alone, matches it.
  pub matches-fits_any :
      (rs : List String) (m : MultiRegexMatcher E) (s : String)
      → new_multi_regex_matcher E rs ≡ ok m
      → matches E m s ≡ fits_any rs s
  unfolding new_multi_regex_matcher match_any
  matches-fits_any rs m s h = compile_all_ok [] rs m s h
