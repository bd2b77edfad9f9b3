-- ===== src/Auth/Requests.antt =====
-- Which requests RoundTrip sends.
use htvend.Base.{
  ◌≡◌, refl, sym, ap, ◌∙◌, ℕ, ◌+◌, ◌≤◌, ◌==◌, ◌<>◌, not, String, Option, none, some, List, [], ◌∷◌,
  ◌++◌, arith, append-nil, append_assoc,
}
use htvend.Base.{length, length-append, if_both, string_eq, nat_eq}
use htvend.Base.Error.{message, Result, ok, err}
use htvend.Listener.{Response}
use htvend.Auth.{
  Outgoing, TokenResp, CachedToken, Upstream, AuthClient, get_header, bearer, token_key,
  challenge_params, send, get_request, Answer, final_requested, store_token, token_decoded,
  token_answered, token_requested, challenge_closed, challenge_read, challenged, cached, with_token,
  keyed, round_trip,
}

-- Between the two states, from `least` to `most` requests were sent.
pub record Sends (least most : ℕ) (c c' : AuthClient) : Type 0 where
  pub new : List Outgoing
  pub sent : c'.sent ≡ c.sent ++ new
  pub at_least : least ≤ length new
  pub at_most : length new ≤ most

module _ (P : Upstream) where
  send-Sends : (r : Outgoing) (c : AuthClient) → Sends 1 1 c (send P r c).1
  unfolding send
  send-Sends r c = record {
    new = r ∷ [];
    sent = refl;
    at_least = omega arith;
    at_most = omega arith;
  }

  -- Nothing, on a failure.
  no-Sends : (c c' : AuthClient) → c'.sent ≡ c.sent → Sends 0 0 c c'
  no-Sends c c' e = record {
    new = [];
    sent = e ∙ sym (append-nil c.sent);
    at_least = omega arith;
    at_most = omega arith;
  }

  Sends-le :
      (a b a' b' : ℕ) (c c' : AuthClient) → a' ≤ a → b ≤ b' → Sends a b c c' → Sends a' b' c c'
  Sends-le a b a' b' c c' p q s = record {
    new = s.new;
    sent = s.sent;
    at_least = omega (arith, s.at_least);
    at_most = omega (arith, s.at_most);
  }

  -- A return before any request.
  none-Sends : (most : ℕ) (c : AuthClient) → Sends 0 most c c
  none-Sends most c = Sends-le 0 0 0 most c c (omega arith) (omega arith) (no-Sends c c refl)

  Sends-trans :
      (a b x y : ℕ) (c c' c'' : AuthClient)
      → Sends a b c c'
      → Sends x y c' c''
      → Sends (a + x) (b + y) c c''
  Sends-trans a b x y c c' c'' s t = record {
    new = s.new ++ t.new;
    sent = t.sent ∙ ap (λ (l : List Outgoing). l ++ t.new) s.sent ∙ append_assoc c.sent s.new t.new;
    at_least = omega (arith, s.at_least, t.at_least, length-append s.new t.new);
    at_most = omega (arith, s.at_most, t.at_most, length-append s.new t.new);
  }

  abbrev pub Counted : ℕ → ℕ → AuthClient → Answer P → Type 0
  Counted least most c o = Sends least most c o.1

  final_requested-Sends :
      (r : Outgoing) (token : String) (x : Result (Unit {0})) (c : AuthClient)
      → Counted 0 1 c (final_requested P r token x c)
  unfolding final_requested
  final_requested-Sends r token (err e) c = none-Sends 1 c
  final_requested-Sends r token (ok _) c =
      let q = bearer token (get_request P r.url) in
      Sends-le 1 1 0 1 c (send P q c).1 (omega arith) (omega arith) (send-Sends q c)

  token_decoded-Sends :
      (r : Outgoing) (key : String) (later : ℕ) (o : Option TokenResp) (c : AuthClient)
      → Counted 0 1 c (token_decoded P r key later o c)
  unfolding token_decoded store_token
  token_decoded-Sends r key later none c = none-Sends 1 c
  token_decoded-Sends r key later (some tr) c =
      let c' = store_token P key later tr c in
      if_both (Counted 0 1 c) (tr.token == "") (err (message "error got blank token"), c)
        (final_requested P r tr.token (P.new_request r.url) c') (none-Sends 1 c)
        (Sends-trans 0 0 0 1 c c' (final_requested P r tr.token (P.new_request r.url) c').1
          (no-Sends c c' refl) (final_requested-Sends r tr.token (P.new_request r.url) c'))

  token_answered-Sends :
      (r : Outgoing) (key : String) (later : ℕ) (x : Result Response) (c : AuthClient)
      → Counted 0 1 c (token_answered P r key later (x, c))
  unfolding token_answered
  token_answered-Sends r key later (err e) c = none-Sends 1 c
  token_answered-Sends r key later (ok resp) c =
      token_decoded-Sends r key later (P.decode_token resp.body) c

  token_requested-Sends :
      (r : Outgoing) (key : String) (later : ℕ) (url : String) (x : Result (Unit {0}))
      (c : AuthClient)
      → Counted 0 2 c (token_requested P r key later url x c)
  unfolding token_requested
  token_requested-Sends r key later url (err e) c = none-Sends 2 c
  token_requested-Sends r key later url (ok _) c =
      let q = get_request P url in
      let o = send P q c in
      Sends-le 1 2 0 2 c (token_answered P r key later o).1 (omega arith) (omega arith) (
        Sends-trans 1 1 0 1 c o.1 (token_answered P r key later o).1 (send-Sends q c)
          (token_answered-Sends r key later o.0 o.1))

  challenge_read-Sends :
      (r : Outgoing) (key : String) (later : ℕ) (resp : Response)
      (params : Option (String × String × String)) (x : Result (Unit {0})) (c : AuthClient)
      → resp.body.closing ≡ x
      → Counted 0 2 c (challenge_read P r key later resp params c)
  unfolding challenge_read challenge_closed
  challenge_read-Sends r key later resp none x c e = none-Sends 2 c
  challenge_read-Sends r key later resp (some p) (err x) c e =
      rw (e, challenge_closed) (none-Sends 2 c)
  challenge_read-Sends r key later resp (some (realm, service, scope)) (ok _) c e =
      let url = realm <> "?" <> P.encode_values scope service in
      rw (e, challenge_closed) (token_requested-Sends r key later url (P.new_request url) c)

  pub challenged-Sends :
      (r : Outgoing) (key : String) (later : ℕ) (x : Result Response) (c : AuthClient)
      → Counted 0 2 c (challenged P r key later (x, c))
  unfolding challenged
  challenged-Sends r key later (err e) c = none-Sends 2 c
  challenged-Sends r key later (ok resp) c =
      let params =
        challenge_params (P.parse_challenge (get_header "Www-Authenticate" resp.headers)) in
      if_both (Counted 0 2 c) (not (resp.status_code == 401)) (ok resp, c)
        (challenge_read P r key later resp params c) (none-Sends 2 c)
        (challenge_read-Sends r key later resp params resp.body.closing c refl)

  with_token-Sends :
      (r : Outgoing) (key : String) (later : ℕ) (o : Option CachedToken) (c : AuthClient)
      → Counted 1 3 c (with_token P r key later (o, c))
  unfolding with_token
  with_token-Sends r key later (some t) c =
      let q = bearer t.token r in
      Sends-le 1 1 1 3 c (send P q c).1 (omega arith) (omega arith) (send-Sends q c)
  with_token-Sends r key later none c =
      let o = send P r c in
      Sends-trans 1 1 0 2 c o.1 (challenged P r key later o).1 (send-Sends r c)
        (challenged-Sends r key later o.0 o.1)

  cached-sent : (key : String) (now : ℕ) (c : AuthClient) → (cached P key now c).1.sent ≡ c.sent
  unfolding cached
  cached-sent key now c = ground arith

  keyed-Sends :
      (r : Outgoing) (now later : ℕ) (key : Option String) (c : AuthClient)
      → Counted 1 3 c (keyed P r now later key c)
  unfolding keyed
  keyed-Sends r now later none c =
      Sends-le 1 1 1 3 c (send P r c).1 (omega arith) (omega arith) (send-Sends r c)
  keyed-Sends r now later (some key) c =
      let (o, c') = cached P key now c in
      Sends-trans 0 0 1 3 c c' (with_token P r key later (o, c')).1
        (no-Sends c c' (cached-sent key now c)) (with_token-Sends r key later o c')

  -- RoundTrip, on every branch and whatever fails: it sends at least one request and at most three.
  pub round_trip-Sends :
      (r : Outgoing) (now later : ℕ) (c : AuthClient) → Sends 1 3 c (round_trip P r now later c).1
  unfolding round_trip
  round_trip-Sends r now later c =
      let key = token_key (P.find_string_submatch r.url) in
      if_both (Counted 1 3 c) (not (r.method == "GET")) (send P r c) (keyed P r now later key c)
        (Sends-le 1 1 1 3 c (send P r c).1 (omega arith) (omega arith) (send-Sends r c))
        (keyed-Sends r now later key c)
