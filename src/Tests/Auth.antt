-- ===== src/Tests/Auth.antt =====
-- The transport with tokens, over a registry that refuses the first request.
use htvend.Base.{◌≡◌, ℕ, ◌+◌, ◌*◌, none, some, String, [], ◌∷◌, arith}
use htvend.Base.Error.{ok}
use htvend.Listener.{Response}
use htvend.Auth.{
  Outgoing, TokenResp, Challenge, Upstream, AuthClient, new_client, token_duration, add_duration,
  round_trip,
}
use htvend.Auth.Ttl.{add_duration-token_duration}
use htvend.Auth.Requests.{Sends, round_trip-Sends}

abbrev year : ℕ
year = 63000000000000000000

add_duration-token_duration_example :
    add_duration year (token_duration 300) + 10000000000 ≡ year + 300 * 1000000000
add_duration-token_duration_example =
    add_duration-token_duration year 300 (omega arith) (omega arith)

abbrev answer : ℕ → Response
answer status = record {
  status_code = status;
  headers = [];
  body = record { chunks = []; broken = none; closing = ok tt };
}

abbrev token : TokenResp
token = record { token = "t"; expires_in = 300 }

abbrev challenge : Challenge
challenge = record {
  auth_type = "Bearer";
  params = ("realm", "https://auth") ∷ (("service", "registry") ∷ (("scope", "pull") ∷ []));
}

abbrev upstream : Upstream
upstream = record {
  round_trip = λ sent r. elim sent [ [] ↦ ok (answer 401) | _ ∷ _ ↦ ok (answer 200) ];
  find_string_submatch = λ url. url ∷ ("https://r/v2/" ∷ ("image" ∷ ("blobs" ∷ [])));
  parse_challenge = λ s. challenge;
  encode_values = λ scope service. scope;
  new_request = λ url. ok tt;
  decode_token = λ r. some token;
}

abbrev request : String → Outgoing
request url = record { method = "GET"; url = url; headers = [] }

round_trip-Sends_example :
    Sends 1 3 new_client (round_trip upstream (request "https://r/a") year year new_client).1
round_trip-Sends_example = round_trip-Sends upstream (request "https://r/a") year year new_client

-- A client with a token for the image.
abbrev client : AuthClient
client = record {
  tokens = ("https://r/v2/image", record { token = "t"; ttl = year }) ∷ [];
  sent = [];
}
