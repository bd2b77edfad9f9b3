-- ===== src/Proxy/Connect.antt =====
-- handleConnect of cli/internal/proxyserver/http_proxy.go: the tunnel from a client to the second
-- server, which two copies at the same time make.
use htvend.Base.{
  ◌≡◌, ◌⊎◌, inl, inr, refl, not, String, Bool, true, false, Option, none, some, List, [], ◌∷◌, ◌++◌,
  ◌&&◌, if_both, subst, sym, some-injective,
}
use htvend.Base.{if◌then◌else◌}
use htvend.Base.Error.{
  Error, message, wrap, wrap_err, conn_reset, errors_is, Result, ok, err, defer_error,
}
use htvend.Listener.{status_ok, status_internal_server_error}
use htvend.Listener.Reply.{Reply, write_header, http_error}

-- The connections of a tunnel: to the client, and to the second server.
pub data End : Type 0 where
  source destination : End

-- What is done to the connections.
pub data Call : Type 0 where
  opens closes : End → Call

-- The outcomes of the calls: net.DialTimeout, whether the writer is an http.Hijacker, Hijack, the
-- copies to the client and from it (none if the copy does not end), and Close of both connections.
pub record Network : Type 0 where
  pub dial : Result (Unit {0})
  pub is_hijacker : Bool
  pub hijack : Result (Unit {0})
  pub receiving : Option (Result (Unit {0}))
  pub sending : Option (Result (Unit {0}))
  pub source_closing : Result (Unit {0})
  pub destination_closing : Result (Unit {0})

-- What handleConnect leaves. From a hijacked writer nothing more is sent.
pub record Connected : Type 0 where
  pub result : Result (Unit {0})
  pub calls : List Call
  pub hijacked : Bool
  pub reply : Reply

-- A deferred Close, whose error counts if there is no other.
unfoldable pub closed : End → String → Result (Unit {0}) → Connected → Connected
closed x m r o = record o {
  result = defer_error o.result (wrap_err m r);
  calls = o.calls ++ (closes x ∷ []);
}

-- The copy to the client, and then the deferred wait for the other copy.
unfoldable pub copied :
    Option (Result (Unit {0})) → Option (Result (Unit {0})) → Option (Result (Unit {0}))
copied none sending = none
copied (some r) none = none
copied (some r) (some s) = some (
    defer_error (wrap_err "error getting response from server" r)
      (wrap_err "error sending to dest" s))

module _ (t : Network) where
  -- From Hijack on.
  unfoldable pub tunnelled : Result (Unit {0}) → Reply → Option Connected
  unfolding closed copied
  tunnelled (err e) w = some (record {
    result = err (wrap "error hijacking conn" e);
    calls = opens destination ∷ [];
    hijacked = false;
    reply = w;
  })
  tunnelled (ok _) w = elim (copied t.receiving t.sending) [
    | none ↦ none
    | some r ↦ some (
        closed source "error closing src conn" t.source_closing (record {
          result = r;
          calls = opens destination ∷ opens source ∷ [];
          hijacked = true;
          reply = w;
        }))
  ]

  -- From w.WriteHeader on.
  unfoldable pub hijacking : Reply → Option Connected
  unfolding tunnelled
  hijacking w =
      if not t.is_hijacker
      then some (record {
        result = err (message "oops, webserver does not support hijacking");
        calls = opens destination ∷ [];
        hijacked = false;
        reply = w;
      })
      else tunnelled t.hijack w

  -- The function literal that handleConnect calls.
  unfoldable pub connected : Result (Unit {0}) → Reply → Option Connected
  unfolding hijacking closed
  connected (err e) w = some (record {
    result = err (wrap "error dialing upstream" e);
    calls = [];
    hijacked = false;
    reply = w;
  })
  connected (ok _) w = elim (hijacking (write_header status_ok w)) [
    | none ↦ none
    | some o ↦ some (closed destination "error closing dest conn" t.destination_closing o)
  ]

  -- The answer to an error, whose text err.Error() is a parameter.
  unfoldable pub answered : (Error → String) → Result (Unit {0}) → Connected → Connected
  answered text (ok _) o = o
  answered text (err e) o =
      if errors_is conn_reset e
      then o
      else if o.hijacked
      then o
      else record o { reply = http_error (text e) status_internal_server_error o.reply }

  -- handleConnect; none if it waits forever
  unfoldable pub handle_connect : (Error → String) → Reply → Option Connected
  unfolding connected answered
  handle_connect text w = elim (connected t.dial w) [
    | none ↦ none
    | some o ↦ some (answered text o.result o)
  ]

abbrev same_end : End → End → Bool
same_end source source = true
same_end destination destination = true
same_end _ _ = false

-- Whether calls close what is open, the last opened first, and nothing is left open.
abbrev pub is_nested : List Call → List End → Bool
is_nested [] [] = true
is_nested [] (x ∷ xs) = false
is_nested (opens x ∷ cs) xs = is_nested cs (x ∷ xs)
is_nested (closes x ∷ cs) [] = false
is_nested (closes x ∷ cs) (y ∷ ys) = same_end x y && is_nested cs ys

-- There is a tunnel, and one of its copies does not end.
abbrev pub IsStuck : Network → Type 0
IsStuck t =
    (t.dial ≡ ok tt)
    × (t.is_hijacker ≡ true)
    × (t.hijack ≡ ok tt)
    × ((t.receiving ≡ none) ⊎ (t.sending ≡ none))

-- All is closed, and what the client was told is not changed once there is a tunnel.
abbrev pub IsOver : Reply → Connected → Type 0
IsOver w o =
    (is_nested o.calls [] ≡ true)
    × ((o.hijacked ≡ false) ⊎ ((o.hijacked ≡ true) × (o.reply ≡ write_header status_ok w)))

abbrev pub IsStuckOrOver : Network → Reply → Option Connected → Type 0
IsStuckOrOver t w x = ((x ≡ none) × IsStuck t) ⊎ ((o : Connected) × (x ≡ some o) × IsOver w o)

connected_lem :
    (dial : Result (Unit {0})) (is_hijacker : Bool) (hijack : Result (Unit {0}))
    (receiving sending : Option (Result (Unit {0}))) (closing1 closing2 : Result (Unit {0}))
    (w : Reply)
    → let t : Network = record {
      dial = dial;
      is_hijacker = is_hijacker;
      hijack = hijack;
      receiving = receiving;
      sending = sending;
      source_closing = closing1;
      destination_closing = closing2;
    } in
      IsStuckOrOver t w (connected t dial w)
unfolding connected hijacking tunnelled copied closed
connected_lem (err e) b h r s c d w = inr (_, refl, (refl, inl refl))
connected_lem (ok _) false h r s c d w = inr (_, refl, (refl, inl refl))
connected_lem (ok _) true (err e) r s c d w = inr (_, refl, (refl, inl refl))
connected_lem (ok _) true (ok _) none s c d w = inl (refl, (refl, refl, refl, inl refl))
connected_lem (ok _) true (ok _) (some r) none c d w = inl (refl, (refl, refl, refl, inr refl))
connected_lem (ok _) true (ok _) (some r) (some s) c d w = inr (_, refl, (refl, inr (refl, refl)))

module _ (t : Network) (text : Error → String) (w : Reply) where
  answered-IsOver :
      (r : Result (Unit {0})) (o : Connected) → IsOver w o → IsOver w (answered t text r o)
  unfolding answered
  answered-IsOver (ok _) o k = k
  answered-IsOver (err e) o (nested, told) =
      let told_more = record o {
        reply = http_error (text e) status_internal_server_error o.reply;
      } in
      if_both (IsOver w) (errors_is conn_reset e) o (if o.hijacked then o else told_more)
        (nested, told)
        (elim told [
          | inl never ↦
              if_both (IsOver w) o.hijacked o told_more (nested, inl never) (nested, inl never)
          | inr (made, same) ↦
              subst (λ b. IsOver w (if b then o else told_more)) (sym made)
                (nested, inr (made, same))
        ])

  answered-IsStuckOrOver :
      (x : Option Connected)
      → IsStuckOrOver t w x
      → IsStuckOrOver t w (elim x as (λ _. Option Connected) [
        | none ↦ none
        | some o ↦ some (answered t text o.result o)
      ])
  answered-IsStuckOrOver none (inl (e, stuck)) = inl (refl, stuck)
  answered-IsStuckOrOver none (inr (o, e, over)) = absurd (cc)
  answered-IsStuckOrOver (some o) (inl (e, stuck)) = absurd (cc)
  answered-IsStuckOrOver (some o) (inr (o', e, over)) = inr (
    answered t text o.result o,
    refl,
    answered-IsOver o.result o (subst (IsOver w) (sym (some-injective o o' e)) over),
  )

  -- handleConnect either waits forever, which it does only if a tunnel was made and one of the two
  -- copies does not end; or it returns with every connection closed that it has opened, the last
  -- one first, and if there was a tunnel, the writer has sent the status 200 and no error page,
  -- whatever error there is.
  pub handle_connect-IsStuckOrOver : IsStuckOrOver t w (handle_connect t text w)
  unfolding handle_connect
  handle_connect-IsStuckOrOver = answered-IsStuckOrOver (connected t t.dial w) (
      connected_lem t.dial t.is_hijacker t.hijack t.receiving t.sending t.source_closing
        t.destination_closing w)
