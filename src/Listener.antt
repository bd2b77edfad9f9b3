-- ===== src/Listener.antt =====
-- cli/internal/htvend/flags_listener.go: the types of a request and of an answer, filterHeaders and
-- extractReqFromURL. The handlers stand in Listener/Fetch and Listener/Handle.
pub mod Reply
pub mod Fetch
pub mod Copied
pub mod Backed
pub mod Recorded
pub mod Handled
pub mod Handle
pub mod Served
pub mod Recording
pub mod Replay
pub mod Kept
pub mod Unfetched
pub mod Concurrent
use htvend.Base.{contains, ◌==◌, String, Bool, true, false, Option, none, some, List, [], ◌∷◌, ℕ}
use htvend.Base.{Bytes, string_eq, if◌then◌else◌}
use htvend.Base.Dict
use htvend.Base.Dict.{Dict}
use htvend.Base.Error.{Result}
use htvend.Stream.{Reader}
use htvend.Lockfile.{Codec, File, Place, Urls}
use htvend.Re.{Engine, MultiRegexMatcher}
use htvend.Blobstore.{Store}

-- An http.Header, by canonical names. A header that is there has a first value.
abbrev pub Headers : Type 0
Headers = Dict String (String × List String)

-- What the program reads of an *http.Request that the proxy receives, but its body, which the client
-- forwards unseen. `tls` says that r.TLS is set.
pub record Request : Type 0 where
  pub method : String
  pub tls : Bool
  pub host : String
  pub path : String
  pub raw_query : String
  pub fragment : String
  pub headers : Headers

pub record Response : Type 0 where
  pub status_code : ℕ
  pub headers : Headers
  pub body : Reader

-- Package net/http as a client: whether http.NewRequest takes a method and a URL, and what
-- client.Do answers to a request with these headers.
pub record Client : Type 0 where
  pub new_request : String → String → Result (Unit {0})
  pub send : String → String → Headers → Result Response

abbrev pub status_ok : ℕ
status_ok = 200

abbrev pub status_not_found : ℕ
status_not_found = 404

abbrev pub status_internal_server_error : ℕ
status_internal_server_error = 500

-- The manifest and the blob store that all requests share.
pub record Site (C : Codec) (E : Engine) (S : Store) : Type 0 where
  pub assets : File E
  pub place : Place C
  pub blobs : S.State

-- The fields of listenerCtx beside `Assets` and `Blobs`.
pub record ListenerCtx (E : Engine) : Type 0 where
  pub fetch_if_missing : Bool
  pub fail_if_missing : Bool
  pub dummy_ok : MultiRegexMatcher E
  pub headers_to_cache : List String

-- filterHeaders: the first value of each header that is wanted
unfoldable pub filter_headers : List String → Headers → Dict String String
filter_headers desired [] = []
filter_headers desired ((k, (v, more)) ∷ actual) =
    let rest = filter_headers desired actual in if contains desired k then (k, v) ∷ rest else rest

-- extractReqFromURL
unfoldable pub extract_req_from_url : (U : Urls) → Request → U.Url
extract_req_from_url U r =
    U.from_parts (if r.tls then "https" else "http") r.host r.path r.raw_query r.fragment
