-- ===== src/Proxy/Shutdown.antt =====
-- ServeUntilDone of cli/internal/proxyserver/http_proxy.go: its deferred functions, and where it waits.
use htvend.Base.{
  ◌≡◌, ◌↔◌, ◌⊎◌, inl, inr, Bool-cases, refl, ◌||◌, not, Bool, true, false, Option, none, some, List,
  [], ◌∷◌,
}
use htvend.Base.{if◌then◌else◌}
use htvend.Base.Error.{Error, wrap, Result, ok, err}

-- The deferred functions, in the order in which they are deferred; `cancel_at_end` is the one that
-- calls cancel whether or not it was called before.
pub data Deferred : Type 0 where
  cancel_once close_main wait_main close_tls wait_tls cancel_at_end : Deferred

-- Whether the context is cancelled, which the parent's signals may have done, and which of the two
-- listeners are open.
pub record Serving : Type 0 where
  pub cancelled : Bool
  pub main_open : Bool
  pub tls_open : Bool

-- What the two servers return when they end, unless it is http.ErrServerClosed, and whether the main
-- server ends by itself, while its listener is open and the context is not cancelled.
pub record Ends : Type 0 where
  pub main : Option Error
  pub tls : Option Error
  pub main_fails : Bool

-- `if err := <-serverErr; err != nil && retErr == nil { retErr = … }`
unfoldable pub received : Option Error → (Error → Error) → Result (Unit {0}) → Result (Unit {0})
received (some e) m (ok _) = err (m e)
received (some e) m (err x) = err x
received none m r = r

module _ (ends : Ends) where
  -- One deferred function; `none` if it waits until the context is cancelled, by a signal. A server
  -- ends by itself, or once the context is cancelled or its listener is closed.
  unfoldable pub perform :
      Deferred → Serving → Result (Unit {0}) → Option (Serving × Result (Unit {0}))
  perform cancel_once s r = some (record s { cancelled = true }, r)
  perform cancel_at_end s r = some (record s { cancelled = true }, r)
  perform close_main s r = some (record s { main_open = false }, r)
  perform close_tls s r = some (record s { tls_open = false }, r)
  perform wait_main s r =
      if s.cancelled || not s.main_open || ends.main_fails
      then some (s, received ends.main (wrap "error from main server") r)
      else none
  perform wait_tls s r =
      if s.cancelled || not s.tls_open
      then some (s, received ends.tls (wrap "error from tls server") r)
      else none

  -- The deferred functions, the last one first.
  unfoldable pub perform_all :
      List Deferred → Serving → Result (Unit {0}) → Option (Result (Unit {0}))
  perform_all [] s r = some r
  perform_all (f ∷ fs) s r = elim (perform f s r) [
    | none ↦ none
    | some (s', r') ↦ perform_all fs s' r'
  ]

  -- ServeUntilDone, given the outcomes of making the keys, of the two calls of net.Listen and of the
  -- child process, which is none if it does not end, and whether the parent's context is cancelled by
  -- then.
  unfoldable pub serve_until_done :
      Bool
      → (keys first second : Result (Unit {0})) → Option (Result (Unit {0}))
      → Option (Result (Unit {0}))
  serve_until_done signalled (err e) first second child =
      some (err (wrap "error creating keys for server" e))
  serve_until_done signalled (ok _) (err e) second child =
      perform_all (cancel_once ∷ [])
        (record { cancelled = signalled; main_open = false; tls_open = false })
        (err (wrap "error making listener" e))
  serve_until_done signalled (ok _) (ok _) (err e) child =
      perform_all (wait_main ∷ (close_main ∷ (cancel_once ∷ [])))
        (record { cancelled = signalled; main_open = true; tls_open = false })
        (err (wrap "error making internal listener" e))
  serve_until_done signalled (ok _) (ok _) (ok _) none = none
  serve_until_done signalled (ok _) (ok _) (ok _) (some r) =
      perform_all
        (cancel_at_end ∷ (wait_tls ∷ (close_tls ∷ (wait_main ∷ (close_main ∷ (cancel_once ∷ []))))))
        (record { cancelled = signalled; main_open = true; tls_open = true }) r

  -- If the keys are there and both listeners open, then ServeUntilDone returns once the child
  -- process has: the child's error, else the TLS server's, else the main server's.
  serve_until_done_ok :
      (signalled : Bool) (r : Result (Unit {0}))
      → serve_until_done signalled (ok tt) (ok tt) (ok tt) (some r)
        ≡ some (
            received ends.main
              (wrap "error from main server")
              (received ends.tls (wrap "error from tls server") r))
  unfolding serve_until_done perform_all perform
  serve_until_done_ok signalled r = refl

  -- ServeUntilDone does not return exactly if the keys are there, the main listener opens, and
  -- either the second listener opens and the child process does not end; or the second listener
  -- does not open, no signal comes and the main server does not end by itself: the deferred function
  -- that waits for the main server runs before those that close its listener and cancel the context.
  pub serve_until_done-none :
      (signalled : Bool) (keys first second : Result (Unit {0}))
      (child : Option (Result (Unit {0})))
      → (serve_until_done signalled keys first second child ≡ none) ↔ (
          (keys ≡ ok tt)
          × (first ≡ ok tt)
          × (((second ≡ ok tt) × (child ≡ none))
              ⊎ (((e : Error) × (second ≡ err e))
                  × (signalled ≡ false)
                  × (ends.main_fails ≡ false))))
  unfolding serve_until_done perform_all perform
  serve_until_done-none signalled (err e) first second child = (λ h. absurd (cc), λ h. absurd (cc))
  serve_until_done-none signalled (ok _) (err e) second child = (λ h. absurd (cc), λ h. absurd (cc))
  serve_until_done-none true (ok _) (ok _) (err e) child =
      (λ h. absurd (cc), λ h. elim h.2 [ inl (s, _) ↦ absurd (cc) | inr (_, s, _) ↦ absurd (cc) ])
  serve_until_done-none false (ok _) (ok _) (err e) child = elim (Bool-cases ends.main_fails) [
    | inl fails ↦ (
      λ h. absurd (let q = rw fails at h in cc),
      λ h. elim h.2 [ inl (s, _) ↦ absurd (cc) | inr (_, _, s) ↦ absurd (cc) ],
    )
    | inr waits ↦ (λ h. (refl, refl, inr ((e, refl), refl, waits)), λ h. rw waits refl)
  ]
  serve_until_done-none signalled (ok _) (ok _) (ok _) none =
      (λ h. (refl, refl, inl (refl, refl)), λ h. refl)
  serve_until_done-none signalled (ok _) (ok _) (ok _) (some r) = (
    λ h. absurd (cc),
    λ h. elim h.2 [ inl (_, s) ↦ absurd (cc) | inr ((e, s), _, _) ↦ absurd (cc) ],
  )
