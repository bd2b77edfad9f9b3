-- ===== src/Platform.antt =====
-- What the program takes from its surroundings and this library leaves open.
use htvend.Base.{◌≡◌, ◌≢◌, [], false, String, ◌<>◌, List, Bytes, IsBytes, contains, string_eq}

pub record Platform : Type 0 where
  -- crypto/sha256
  pub sha256 : Bytes → Bytes
  -- The name that os.CreateTemp(dir, "tmp") picks, given the names in the directory.
  pub temp_name : List String → String

-- What the two promise: a digest is a string of bytes and not empty, and the name is new and begins with "tmp".
pub record IsPlatform (P : Platform) : Type 0 where
  pub sha256_bytes : (b : Bytes) → IsBytes (P.sha256 b)
  pub sha256_nonempty : (b : Bytes) → P.sha256 b ≢ []
  pub temp_fresh : (names : List String) → contains names (P.temp_name names) ≡ false
  pub temp_prefix : (names : List String) → (s : String) × (P.temp_name names ≡ "tmp" <> s)
