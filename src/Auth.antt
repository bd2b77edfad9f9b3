-- ===== src/Auth.antt =====
-- cli/internal/registryauthclient/wrapping_registry_auth_client.go: a transport that answers a
-- registry's challenge with a token, and keeps the token until it expires.
pub mod Ttl
pub mod Requests
pub mod Tokens
use htvend.Base.{
  ℕ, ◌+◌, ◌-◌, ◌*◌, ◌%◌, ltb, ◌==◌, ◌<>◌, not, String, Bool, true, false, Option, none, some, List,
  [], ◌∷◌, ◌++◌,
}
use htvend.Base.{string_eq, nat_eq, if◌then◌else◌}
use htvend.Base.Dict
use htvend.Base.Dict.{Dict}
use htvend.Base.Error.{message, wrap, Result, ok, err}
use htvend.Stream.{Reader}
use htvend.Listener.{Headers, Response}

-- What the transport reads and sets of an *http.Request.
pub record Outgoing : Type 0 where
  pub method : String
  pub url : String
  pub headers : Headers

-- `expires_in` is the two's-complement pattern of the int.
pub record TokenResp : Type 0 where
  pub token : String
  pub expires_in : ℕ

-- An instant is in nanoseconds since Go's zero time.
pub record CachedToken : Type 0 where
  pub token : String
  pub ttl : ℕ

-- What www.Parse gives of a Www-Authenticate header.
pub record Challenge : Type 0 where
  pub auth_type : String
  pub params : Dict String String

-- The transport underneath, whose answer may depend on all that was sent before, and the packages
-- regexp (dockerRegistryRegex.FindStringSubmatch), go-www-authenticate-parser, net/url (Values.Encode
-- of a scope and a service), net/http (NewRequest with GET and no body) and encoding/json.
pub record Upstream : Type 0 where
  pub round_trip : List Outgoing → Outgoing → Result Response
  pub find_string_submatch : String → List String
  pub parse_challenge : String → Challenge
  pub encode_values : (scope service : String) → String
  pub new_request : String → Result (Unit {0})
  pub decode_token : Reader → Option TokenResp

-- The tokens, and the requests that went to the transport underneath, the oldest first.
pub record AuthClient : Type 0 where
  pub tokens : Dict String CachedToken
  pub sent : List Outgoing

-- NewClient
abbrev pub new_client : AuthClient
new_client = record { tokens = []; sent = [] }

-- time.Second * time.Duration(expires - 10), in 64 bits
unfoldable pub token_duration : ℕ → ℕ
token_duration expires =
    ((expires + 18446744073709551616 - 10) % 18446744073709551616 * 1000000000)
    % 18446744073709551616

-- now.Add(d) for a duration in two's complement
unfoldable pub add_duration : ℕ → ℕ → ℕ
add_duration now d = if ltb d 9223372036854775808 then now + d else now + d - 18446744073709551616

-- resp.Header.Get
unfoldable pub get_header : String → Headers → String
get_header k h = elim (Dict.lookup k h) [ none ↦ "" | some (v, vs) ↦ v ]

unfoldable pub bearer : String → Outgoing → Outgoing
bearer token r = record r {
  headers = Dict.insert "Authorization" ("Bearer " <> token, []) r.headers;
}

-- regexResult[1] + regexResult[2], if there are four parts
unfoldable pub token_key : List String → Option String
token_key (whole ∷ base ∷ image ∷ kind ∷ []) = some (base <> image)
token_key _ = none

-- What RoundTrip takes of a challenge: the realm, the service and the scope.
unfoldable pub challenge_params : Challenge → Option (String × String × String)
challenge_params c =
    if not (c.auth_type == "Bearer") then none else elim (Dict.lookup "realm" c.params) [
      | none ↦ none
      | some realm ↦ elim (Dict.lookup "service" c.params) [
        | none ↦ none
        | some service ↦ elim (Dict.lookup "scope" c.params) [
          | none ↦ none
          | some scope ↦ some (realm, service, scope)
        ]
      ]
    ]

module _ (P : Upstream) where
  -- c.upstream.RoundTrip
  unfoldable pub send : Outgoing → AuthClient → Result Response × AuthClient
  send r c = (P.round_trip c.sent r, record c { sent = c.sent ++ (r ∷ []) })

  abbrev pub get_request : String → Outgoing
  get_request url = record { method = "GET"; url = url; headers = [] }

  abbrev pub Answer : Type 0
  Answer = Result Response × AuthClient

  -- From the outcome of the last http.NewRequest on.
  unfoldable pub final_requested : Outgoing → String → Result (Unit {0}) → AuthClient → Answer
  unfolding send bearer
  final_requested r token (err e) c = (err (wrap "error making final request" e), c)
  final_requested r token (ok _) c = send (bearer token (get_request r.url)) c

  -- c.tokens[key] = cachedToken{…}; `later` is the time at which this is done.
  unfoldable pub store_token : String → ℕ → TokenResp → AuthClient → AuthClient
  store_token key later tr c = record c {
    tokens =
        Dict.insert key
          (record { token = tr.token; ttl = add_duration later (token_duration tr.expires_in) })
          c.tokens;
  }

  unfoldable pub token_decoded : Outgoing → String → ℕ → Option TokenResp → AuthClient → Answer
  unfolding final_requested store_token
  token_decoded r key later none c = (err (message "error getting token"), c)
  token_decoded r key later (some tr) c =
      if tr.token == ""
      then (err (message "error got blank token"), c)
      else final_requested r tr.token (P.new_request r.url) (store_token key later tr c)

  unfoldable pub token_answered : Outgoing → String → ℕ → Answer → Answer
  unfolding token_decoded
  token_answered r key later (err e, c) = (err (wrap "error making upstream RT" e), c)
  token_answered r key later (ok resp, c) = token_decoded r key later (P.decode_token resp.body) c

  unfoldable pub token_requested :
      Outgoing → String → ℕ → String → Result (Unit {0}) → AuthClient → Answer
  unfolding token_answered
  token_requested r key later url (err e) c = (err (wrap "error making GET request" e), c)
  token_requested r key later url (ok _) c = token_answered r key later (send (get_request url) c)

  -- From the Close of the answer that is ignored on.
  unfoldable pub challenge_closed :
      Outgoing → String → ℕ → String × String × String → Result (Unit {0}) → AuthClient → Answer
  unfolding token_requested
  challenge_closed r key later params (err e) c =
      (err (wrap "error closing response that we're ignoring" e), c)
  challenge_closed r key later (realm, service, scope) (ok _) c =
      let url = realm <> "?" <> P.encode_values scope service in
      token_requested r key later url (P.new_request url) c

  unfoldable pub challenge_read :
      Outgoing → String → ℕ → Response → Option (String × String × String) → AuthClient → Answer
  unfolding challenge_closed
  challenge_read r key later resp none c = (ok resp, c)
  challenge_read r key later resp (some params) c =
      challenge_closed r key later params resp.body.closing c

  -- What follows the request without a token.
  unfoldable pub challenged : Outgoing → String → ℕ → Answer → Answer
  unfolding challenge_read
  challenged r key later (err e, c) = (err e, c)
  challenged r key later (ok resp, c) =
      if not (resp.status_code == 401)
      then (ok resp, c)
      else challenge_read r key later resp
          (challenge_params (P.parse_challenge (get_header "Www-Authenticate" resp.headers))) c

  -- The token for the key, unless it has expired; an expired one is deleted.
  unfoldable pub cached : String → ℕ → AuthClient → Option CachedToken × AuthClient
  cached key now c = elim (Dict.lookup key c.tokens) [
    | none ↦ (none, c)
    | some t ↦
        if ltb t.ttl now then (none, record c { tokens = Dict.erase key c.tokens }) else (some t, c)
  ]

  unfoldable pub with_token : Outgoing → String → ℕ → Option CachedToken × AuthClient → Answer
  unfolding challenged
  with_token r key later (some t, c) = send (bearer t.token r) c
  with_token r key later (none, c) = challenged r key later (send r c)

  unfoldable pub keyed : Outgoing → (now later : ℕ) → Option String → AuthClient → Answer
  unfolding with_token
  keyed r now later none c = send r c
  keyed r now later (some key) c = with_token r key later (cached key now c)

  -- RoundTrip; `now` and `later` are what the clock shows when it is read.
  unfoldable pub round_trip : Outgoing → (now later : ℕ) → AuthClient → Answer
  unfolding keyed
  round_trip r now later c =
      if not (r.method == "GET")
      then send r c
      else keyed r now later (token_key (P.find_string_submatch r.url)) c
