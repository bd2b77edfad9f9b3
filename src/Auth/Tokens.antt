-- ===== src/Auth/Tokens.antt =====
-- Which token RoundTrip uses, and that it is used again until it expires.
use htvend.Base.{
  ◌≡◌, refl, subst, ap, ◌∙◌, ℕ, ltb, ◌==◌, ◌<>◌, not, String, Bool, true, false, Option, none, some,
  List, [], ◌∷◌, ◌++◌, arith, append_assoc,
}
use htvend.Base.{string_eq, nat_eq, if◌then◌else◌}
use htvend.Base.Dict
use htvend.Base.Dict.{Dict, lookup}
use htvend.Base.Error.{ok}
use htvend.Listener.{Response}
use htvend.Auth.Requests.{challenged-Sends}
use htvend.Auth.{
  Outgoing, TokenResp, CachedToken, Upstream, AuthClient, get_header, bearer, token_key,
  challenge_params, send, get_request, cached, with_token, keyed, round_trip,
}

-- A token that is kept for the key and has not expired.
abbrev usable : ℕ → Option CachedToken → Option CachedToken
usable now none = none
usable now (some t) = if ltb t.ttl now then none else some t

none-ne-some {ℓ} : {A : Type ℓ} (a : A) → none ≡ some a → ⊥
none-ne-some a h = cc

module _ (P : Upstream) where
  send_sent :
      (r : Outgoing) (c c' : AuthClient)
      → c'.sent ≡ c.sent
      → (send P r c').1.sent ≡ c.sent ++ (r ∷ [])
  unfolding send
  send_sent r c c' e = ap (λ (l : List Outgoing). l ++ (r ∷ [])) e

  -- The key under which a request's token is kept, if it may have one.
  abbrev key_of : Outgoing → Option String
  key_of r = if r.method == "GET" then token_key (P.find_string_submatch r.url) else none

  abbrev usable_for : Outgoing → ℕ → AuthClient → Option CachedToken
  usable_for r now c = elim (key_of r) [ none ↦ none | some key ↦ usable now (lookup key c.tokens) ]

  -- The first request of a call: with the token, if there is a usable one, and nothing follows;
  -- otherwise unchanged.
  abbrev first_request : Outgoing → Option CachedToken → Outgoing
  first_request r none = r
  first_request r (some t) = bearer t.token r

  pub record StartsWith (c : AuthClient) (r : Outgoing) (o : Option CachedToken) (c' : AuthClient)
      : Type 0 where
    pub more : List Outgoing
    pub sent : c'.sent ≡ c.sent ++ (first_request r o ∷ more)
    pub alone : (t : CachedToken) → o ≡ some t → more ≡ []

  send-StartsWith :
      (r : Outgoing) (o : Option CachedToken) (c c' : AuthClient)
      → c'.sent ≡ c.sent
      → StartsWith c r o (send P (first_request r o) c').1
  unfolding send
  send-StartsWith r o c c' e = record {
    more = [];
    sent = ap (λ (l : List Outgoing). l ++ (first_request r o ∷ [])) e;
    alone = λ t h. refl;
  }

  with_token-StartsWith :
      (r : Outgoing) (key : String) (later : ℕ) (o : Option CachedToken) (c c' : AuthClient)
      → c'.sent ≡ c.sent
      → StartsWith c r o (with_token P r key later (o, c')).1
  unfolding with_token
  with_token-StartsWith r key later (some t) c c' e = send-StartsWith r (some t) c c' e
  with_token-StartsWith r key later none c c' e =
      let o = send P r c' in
      let first = send-StartsWith r none c c' e in
      let rest = challenged-Sends P r key later o.0 o.1 in
      record {
        more = rest.new;
        sent =
            rest.sent
            ∙ ap (λ (l : List Outgoing). l ++ rest.new) (send_sent r c c' e)
            ∙ append_assoc c.sent (r ∷ []) rest.new;
        alone = λ t h. absurd (none-ne-some t h);
      }

  cached-usable :
      (key : String) (now : ℕ) (c : AuthClient)
      → ((cached P key now c).0 ≡ usable now (lookup key c.tokens))
        × ((cached P key now c).1.sent ≡ c.sent)
  unfolding cached
  cached-usable key now c = (ground arith, ground arith)

  keyed-StartsWith :
      (r : Outgoing) (now later : ℕ) (key : Option String) (c : AuthClient)
      → StartsWith c r
          (elim key [ none ↦ none | some k ↦ usable now (lookup k c.tokens) ])
          (keyed P r now later key c).1
  unfolding keyed
  keyed-StartsWith r now later none c = send-StartsWith r none c c refl
  keyed-StartsWith r now later (some key) c =
      let (same, sent) = cached-usable key now c in
      subst (λ (o : Option CachedToken). StartsWith c r o (keyed P r now later (some key) c).1) same
        (with_token-StartsWith r key later (cached P key now c).0 c (cached P key now c).1 sent)

  method-StartsWith :
      (r : Outgoing) (now later : ℕ) (get : Bool) (key : Option String) (c : AuthClient)
      → StartsWith c r
          (elim (if get then key else none) [
            | none ↦ none
            | some k ↦ usable now (lookup k c.tokens)
          ])
          (if not get then send P r c else keyed P r now later key c).1
  method-StartsWith r now later true key c = keyed-StartsWith r now later key c
  method-StartsWith r now later false key c = send-StartsWith r none c c refl

  -- RoundTrip, on every branch: the first request that it sends is the given one, with the token that
  -- is kept for the key if there is one that has not expired, and then it is the only one.
  pub round_trip-StartsWith :
      (r : Outgoing) (now later : ℕ) (c : AuthClient)
      → StartsWith c r (usable_for r now c) (round_trip P r now later c).1
  unfolding round_trip
  round_trip-StartsWith r now later c =
      method-StartsWith r now later (r.method == "GET") (token_key (P.find_string_submatch r.url)) c

  -- A registry that answers 401 to the request and a token to the request for one.
  pub record IsExchange (r : Outgoing) (key : String) (tr : TokenResp) (c : AuthClient)
      : Type 0 where
    pub get : (r.method == "GET") ≡ true
    pub keyed_by : token_key (P.find_string_submatch r.url) ≡ some key
    pub no_token : lookup key c.tokens ≡ none
    pub refusal : Response
    pub realm : String
    pub service : String
    pub scope : String
    pub refused : P.round_trip c.sent r ≡ ok refusal
    pub status : (refusal.status_code == 401) ≡ true
    pub challenge :
        challenge_params (P.parse_challenge (get_header "Www-Authenticate" refusal.headers))
        ≡ some (realm, service, scope)
    pub closed : refusal.body.closing ≡ ok tt
    pub answer : Response
    pub makes_request : (url : String) → P.new_request url ≡ ok tt
    pub answered :
        P.round_trip
          (c.sent ++ (r ∷ []))
          (get_request P (realm <> "?" <> P.encode_values scope service))
        ≡ ok answer
    pub decoded : P.decode_token answer.body ≡ some tr
    pub some_token : (tr.token == "") ≡ false
