-- ===== src/Tests/Setup.antt =====
-- Concrete surroundings for the tests.
use htvend.Base.{
  ◌≡◌, refl, subst, some-injective, ap, ◌∙◌, ◌==◌, ◌<>◌, ◌≢◌, ℕ, ◌+◌, ◌%◌, suc, ◌<◌, String, false,
  some, List, [], ◌∷◌, arith, inl, inr,
}
use htvend.Base.{Bytes, contains, string_eq, ==_sound, Bool-cases}
use htvend.Base.Dict.{lookup}
use Prim.Native.String.append
use htvend.Platform.{Platform, IsPlatform}
use htvend.Re.{Engine}
use htvend.Lockfile.{BlobMap, Codec, Urls}
use htvend.Lockfile.Laws.{SameInfo}
use htvend.Lockfile.Saved.{IsCodec, SameInfo-refl}

size : String → ℕ
size String.[] = 0
size (String.◌∷◌ c s) = suc (size s)

size-append : (a b : String) → size (a <> b) ≡ size a + size b
unfolding size
size-append String.[] b = ap size (append.nil b) ∙ omega arith
size-append (String.◌∷◌ c a) b =
    ap size (append.cons c a b) ∙ ap suc (size-append a b) ∙ omega arith

unfoldable pub joined : List String → String
joined [] = ""
joined (n ∷ ns) = n <> joined ns

-- A name that is longer than all that there are.
abbrev pub temp_name : List String → String
temp_name ns = "tmp" <> joined ns

too_long : (n : String) (ns : List String) → size (joined ns) < size n → contains ns n ≡ false
unfolding joined
too_long n [] h = refl
too_long n (x ∷ ns) h =
    let rest = too_long n ns (omega (arith, h, size-append x (joined ns))) in
    elim (Bool-cases (n == x)) [
      | inl same ↦ absurd (omega (arith, h, size-append x (joined ns), ap size (==_sound n x same)))
      | inr other ↦ rw (other, rest) refl
    ]

size_tmp : size "tmp" ≡ 3
unfolding size
size_tmp = refl

cons-ne-nil : (x : ℕ) → x ∷ [] ≢ []
cons-ne-nil x h = cc

-- The "digest" is the sum of the bytes, in one byte.
abbrev pub sum : Bytes → ℕ
sum [] = 0
sum (b ∷ bs) = b + sum bs

abbrev pub test_platform : Platform
test_platform = record { sha256 = λ b. (sum b % 256) ∷ []; temp_name = temp_name }

pub test_platform-IsPlatform : IsPlatform test_platform
test_platform-IsPlatform = record {
  sha256_bytes = λ b. (omega arith, tt);
  sha256_nonempty = λ b h. cons-ne-nil (sum b % 256) h;
  temp_fresh =
      λ ns. too_long (temp_name ns) ns (omega (arith, size-append "tmp" (joined ns), size_tmp));
  temp_prefix = λ ns. (joined ns, refl);
}

abbrev pub test_codec : Codec
test_codec = record { Content = BlobMap; marshal = λ m. some m; unmarshal = λ m. some m }

pub test_codec-IsCodec : IsCodec test_codec
test_codec-IsCodec = record {
  round_trip = λ m c e. (
    c,
    refl,
    λ k.
        subst (λ (x : BlobMap). SameInfo (lookup k x) (lookup k m)) (some-injective m c e)
          (SameInfo-refl (lookup k m)),
  );
}

-- An expression is a text, which matches itself.
abbrev pub test_engine : Engine
test_engine = record { Regexp = String; compile = λ s. some s; match_string = λ re s. re == s }

-- A URL is its text.
abbrev pub test_urls : Urls
test_urls = record {
  Url = String;
  redacted = λ u. u;
  to_string = λ u. u;
  parse = λ s. some s;
  from_parts = λ scheme host path query fragment. scheme <> "://" <> host <> path;
}
