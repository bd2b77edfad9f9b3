-- ===== src/Base/Hex.antt =====
-- Go's encoding/hex: two lower-case digits for each byte; decoding takes either case.
use Prim.Native.Nat.{ℕ, zero, suc, ◌+◌, ◌-◌, ◌*◌, ◌/◌, ◌%◌, ◌<◌}
use Prim.Native.Char.{Char, code}
use Prim.Native.String.append
use Prim.Native.String.{String, ◌++◌ as ◌<>◌}
use mathlib.Core.Path.{◌≡◌, refl, ap, sym, ◌∙◌}
use mathlib.Core.Logic.{◌≢◌}
use mathlib.Core.Bool.{Bool, true, false, ◌&&◌}
use mathlib.Core.Option.{Option, none, some, some-injective}
use mathlib.Core.List.{[], ◌∷◌}
use native.Mathlib.Omega.{arith}
use htvend.Base.Equality.{ltb, if◌then◌else◌}
use htvend.Base.Lists.{Bytes, IsBytes}

-- the table "0123456789abcdef"
digit_at : ℕ → String → Char
digit_at n String.[] = "0"
digit_at zero (String.◌∷◌ c s) = c
digit_at (suc n) (String.◌∷◌ c s) = digit_at n s

digit : ℕ → Char
unfolding digit_at
digit n = digit_at n "0123456789abcdef"

abbrev within : ℕ → ℕ → ℕ → Bool
within lo hi c = ltb c (hi + 1) && ltb lo (c + 1)

value : ℕ → Option ℕ
value c =
    if within b'0' b'9' c
    then some (c - b'0')
    else if within b'a' b'f' c
    then some (c - b'a' + 10)
    else if within b'A' b'F' c
    then some (c - b'A' + 10)
    else none

-- hex.EncodeToString
unfoldable pub encode : Bytes → String
unfolding digit
encode [] = String.[]
encode (b ∷ bs) = String.◌∷◌ (digit (b / 16)) (String.◌∷◌ (digit (b % 16)) (encode bs))

prepend : Option ℕ → Option ℕ → Option Bytes → Option Bytes
prepend (some h) (some l) (some bs) = some ((h * 16 + l) ∷ bs)
prepend none _ _ = none
prepend (some h) none _ = none
prepend (some h) (some l) none = none

-- hex.DecodeString: `none` for an odd length or a character that is no digit
unfoldable pub decode : String → Option Bytes
unfolding value prepend
decode String.[] = some []
decode (String.◌∷◌ c String.[]) = none
decode (String.◌∷◌ c (String.◌∷◌ d s)) = prepend (value (code c)) (value (code d)) (decode s)

names : Option ℕ → ℕ → Bool
names none n = false
names (some m) n = ltb m (n + 1) && ltb n (m + 1)

-- Whether the digit for `d` has the value `d`.
has_own_value : ℕ → Bool
unfolding names value digit
has_own_value d = names (value (code (digit d))) d

-- The digits below `count` all have their own value.
spelled : ℕ → Bool
spelled zero = true
spelled (suc d) = let lower = spelled d in if has_own_value d then lower else false

names_sound : (o : Option ℕ) (n : ℕ) → names o n ≡ true → o ≡ some n
unfolding names
names_sound none n h = cc
names_sound (some m) n h = ap some (let e : m ≡ n = ground arith in e)

spelled-names : (count d : ℕ) → d < count → spelled count ≡ true → has_own_value d ≡ true
unfolding spelled
spelled-names zero d below all = absurd (omega arith)
spelled-names (suc c) d below all = let lower = spelled-names c d in ground (arith, lower)

spelled_all : spelled 16 ≡ true
unfolding spelled has_own_value
spelled_all = refl

value-digit : (n : ℕ) → n < 16 → value (code (digit n)) ≡ some n
unfolding has_own_value
value-digit n h = names_sound (value (code (digit n))) n (spelled-names 16 n h spelled_all)

-- Decoding what was encoded gives the bytes back.
pub decode-encode : (bs : Bytes) → IsBytes bs → decode (encode bs) ≡ some bs
unfolding decode encode
decode-encode [] h = refl
decode-encode (b ∷ bs) (h, hs) =
    rw (value-digit (b / 16) (omega arith), value-digit (b % 16) (omega arith), decode-encode bs hs)
      (ap some (ap (λ c. c ∷ bs) (omega arith)))

pub encode_injective : (a b : Bytes) → IsBytes a → IsBytes b → encode a ≡ encode b → a ≡ b
encode_injective a b ha hb e =
    some-injective a b (sym (decode-encode a ha) ∙ ap decode e ∙ decode-encode b hb)

-- No digit is a `t`.
digit-ne-t : (n : ℕ) → n < 16 → code (digit n) ≢ b't'
unfolding value
digit-ne-t n h e = cc (sym (value-digit n h) ∙ ap value e)

head_code : String → ℕ
head_code String.[] = 0
head_code (String.◌∷◌ c s) = code c

head_code-tmp : (s : String) → head_code ("tmp" <> s) ≡ b't'
unfolding head_code
head_code-tmp s = ap head_code (append.cons "t" "mp" s)

-- An encoded key is no name of a temporary file.
pub encode-ne-tmp : (bs : Bytes) → IsBytes bs → (s : String) → encode bs ≢ "tmp" <> s
unfolding encode head_code
encode-ne-tmp [] h s e = absurd (omega (arith, head_code-tmp s, ap head_code e))
encode-ne-tmp (b ∷ bs) (h, hs) s e =
    digit-ne-t (b / 16) (omega arith) (ap head_code e ∙ head_code-tmp s)

pub encode-eq-nil : (bs : Bytes) → encode bs ≡ "" → bs ≡ []
unfolding encode
encode-eq-nil [] e = refl
encode-eq-nil (b ∷ bs) e = cc
