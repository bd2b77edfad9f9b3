-- ===== src/Lockfile.antt =====
-- cli/internal/lockfile/lock_file.go: the manifest, a map from URLs to digests and headers that is
-- read from a file, changed in memory and written back by Close.
pub mod Locking
pub mod Ops
pub mod Laws
pub mod Opened
pub mod Saved
use htvend.Base.{
  ◌≡◌, ◌==◌, ◌<>◌, String, Bool, true, false, not, ◌&&◌, Option, none, some, List, [], ◌∷◌, length,
  ℕ,
}
use htvend.Base.{string_eq, nat_eq, if◌then◌else◌}
use htvend.Base.Dict
use htvend.Base.Dict.{Dict}
use htvend.Base.Error.{
  Error, message, wrap, sentinel, os_not_exist, errors_is, Result, ok, err, defer_error, wrap_err,
}
use htvend.Re.{Engine, MultiRegexMatcher, matches}

pub record BlobInfo : Type 0 where
  pub sha256 : String
  pub headers : Dict String String

agree : Option String → String → Bool
agree none v = false
agree (some w) v = v == w

entries_in : Dict String String → Dict String String → Bool
entries_in [] b = true
entries_in ((k, v) ∷ a) b = agree (Dict.lookup k b) v && entries_in a b

-- maps.Equal
maps_equal : Dict String String → Dict String String → Bool
maps_equal a b = length a == length b && entries_in a b

unfoldable pub blob_equals : BlobInfo → BlobInfo → Bool
unfolding maps_equal entries_in agree
blob_equals a b = a.sha256 == b.sha256 && maps_equal a.headers b.headers

abbrev pub BlobMap : Type 0
BlobMap = Dict String BlobInfo

-- Package encoding/json on a blob map, over the contents of a file: json.MarshalIndent and
-- json.Unmarshal.
pub record Codec : Type 1 where
  pub Content : Type 0
  pub marshal : BlobMap → Option Content
  pub unmarshal : Content → Option BlobMap

pub record MapFileOptions (E : Engine) : Type 0 where
  pub path : String
  pub writable : Bool
  pub allow_overwrite : Bool
  pub no_cache : MultiRegexMatcher E

-- The fields of the struct that the operations read and write. The handle `lock` is there exactly if
-- the file is writable; `previousBlobs` is read only by key, where a nil map is an empty one.
pub record File (E : Engine) : Type 0 where
  pub options : MapFileOptions E
  pub blobs : BlobMap
  pub previous_blobs : BlobMap
  pub dirty : Bool

-- A call of package os or of the lock succeeds or fails. After a failed write the file is left with
-- what `fail` says.
pub data Fault (A : Type 0) : Type 0 where
  pass : Fault A
  fail : Option A → Fault A

-- The manifest's path on the disk, the lock beside it, and the outcomes of the next calls on them.
pub record Place (C : Codec) : Type 0 where
  pub content : Option C.Content
  pub locked : Bool
  pub faults : List (Fault C.Content)

-- A call that returns, or that panics.
pub data Outcome {ℓ} (A : Type ℓ) : Type ℓ where
  returns : A → Outcome A
  panics : Outcome A

-- Package net/url: Redacted(), String(), url.Parse, and a URL of a scheme, a host, a path, a raw
-- query and a fragment.
pub record Urls : Type 1 where
  pub Url : Type 0
  pub redacted : Url → String
  pub to_string : Url → String
  pub parse : String → Option Url
  pub from_parts : (scheme host path raw_query fragment : String) → Url
