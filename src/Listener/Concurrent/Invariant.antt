-- ===== src/Listener/Concurrent/Invariant.antt =====
-- What is true of a handler between two of its steps, and what a step of one may do to the others.
use htvend.Base.{◌<>◌, ◌≡◌, ◌++◌, refl, Option, none, some, ℕ}
use htvend.Base.{Bytes, concat}
use htvend.Base.Hex.{encode}
use htvend.Base.Error.{Result, ok, err, defer_error, wrap, wrap_err}
use htvend.Platform.{Platform}
use htvend.Lockfile.{Urls}
use htvend.Blobstore.{Store}
use htvend.Blobstore.Growth.{Grows, Grows-same, IsBacked, IsBacked-Grows}
use htvend.Blobstore.Shared.{IsShared, Undisturbed}
use htvend.Listener.{Request, Response, Client}
use htvend.Listener.Reply.{Reply}
use htvend.Listener.Concurrent.{
  Handler, arrived, found, asking, answering, copying, committing, recording, cleaning, ended,
  returned, closed, after_response, after_request,
}

module _ {P : Platform} {S : Store} (X : IsShared P S) where
  -- A blob that its handler may go on to write.
  abbrev pub IsWritten : S.State → S.Blob → Type 0
  IsWritten s b = X.lawful.IsLive b × X.Owns b s

  -- A handler that has found an entry can serve its bytes; one that writes a blob owns it; while it
  -- copies, the blob holds the chunks of the body before those that are left, and in the end all; a
  -- digest to be recorded is that of the body, and its bytes are stored.
  abbrev pub IsSound : {U : Urls} → S.State → Handler S U → Type 0
  IsSound s (arrived _ _) = Unit
  IsSound s (found bi _) = IsBacked X.lawful s bi.sha256
  IsSound s (asking _ _ _) = Unit
  IsSound s (answering _ _ _) = Unit
  IsSound s (copying _ resp ps b _) =
      IsWritten s b
      × ((c : Bytes) × X.lawful.Holds b s c × (c ++ concat ps ≡ concat resp.body.chunks))
  IsSound s (committing _ resp b _) =
      IsWritten s b × X.lawful.Holds b s (concat resp.body.chunks) × (resp.body.broken ≡ none)
  IsSound s (recording _ resp d b _) =
      IsWritten s b
      × (resp.body.broken ≡ none)
      × ((k : Bytes)
          → d ≡ ok k
          → (k ≡ P.sha256 (concat resp.body.chunks)) × IsBacked X.lawful s (encode k))
  IsSound s (cleaning _ _ b _) = IsWritten s b
  IsSound s (ended _ _ _) = Unit

  -- The blob that a handler writes, if any, shares nothing with this one.
  abbrev pub IsApartFrom : {U : Urls} → Handler S U → S.Blob → Type 0
  IsApartFrom (arrived _ _) b' = Unit
  IsApartFrom (found _ _) b' = Unit
  IsApartFrom (asking _ _ _) b' = Unit
  IsApartFrom (answering _ _ _) b' = Unit
  IsApartFrom (copying _ _ _ b _) b' = X.IsApart b b'
  IsApartFrom (committing _ _ b _) b' = X.IsApart b b'
  IsApartFrom (recording _ _ _ b _) b' = X.IsApart b b'
  IsApartFrom (cleaning _ _ b _) b' = X.IsApart b b'
  IsApartFrom (ended _ _ _) b' = Unit

  -- The blob that a handler writes, if any.
  abbrev pub blob_of : {U : Urls} → Handler S U → Option S.Blob
  blob_of (arrived _ _) = none
  blob_of (found _ _) = none
  blob_of (asking _ _ _) = none
  blob_of (answering _ _ _) = none
  blob_of (copying _ _ _ b _) = some b
  blob_of (committing _ _ b _) = some b
  blob_of (recording _ _ _ b _) = some b
  blob_of (cleaning _ _ b _) = some b
  blob_of (ended _ _ _) = none

  -- Two handlers write no blob in common.
  abbrev pub AreApart : {U : Urls} → Handler S U → Handler S U → Type 0
  AreApart h h' = (b : S.Blob) → blob_of h' ≡ some b → IsApartFrom h b

  -- A step from `h` and `s` to `h1` and `s1` leaves the owners of other blobs alone.
  pub record IsStep {U : Urls} (h : Handler S U) (s : S.State) (h1 : Handler S U) (s1 : S.State)
      : Type 0 where
    pub sound : IsSound s1 h1
    pub grown : Grows X.lawful s s1
    pub others :
        (b' : S.Blob)
        → X.Owns b' s
        → IsApartFrom h b'
        → IsApartFrom h1 b' × Undisturbed X.lawful X.Owns b' s s1

  module _ {U : Urls} where
    -- A handler that works on no blob and has nothing to serve.
    pub record IsFree (h : Handler S U) : Type 0 where
      pub sound : (s : S.State) → IsSound s h
      pub apart : (b : S.Blob) → IsApartFrom h b

    pub free_step :
        (h h1 : Handler S U) (s s1 : S.State)
        → IsFree h1
        → Grows X.lawful s s1
        → ((b' : S.Blob) → X.Owns b' s → IsApartFrom h b' → Undisturbed X.lawful X.Owns b' s s1)
        → IsStep h s h1 s1
    free_step h h1 s s1 f g q = record {
      sound = f.sound s1;
      grown = g;
      others = λ b' own apart. (f.apart b', q b' own apart);
    }

    -- A step that leaves the store alone.
    pub same_step : (h h1 : Handler S U) (s : S.State) → IsFree h1 → IsStep h s h1 s
    same_step h h1 s f =
        free_step h h1 s s f (Grows-same X.lawful s s (λ j _. refl)) (λ b' own _. (own, λ c k. k))

    pub returned-IsFree : (r : Result (Unit {0})) (w : Reply) (n : ℕ) → IsFree (returned r w n)
    unfolding returned
    returned-IsFree (ok _) w n = record { sound = λ s. tt; apart = λ b. tt }
    returned-IsFree (err e) w n = record { sound = λ s. tt; apart = λ b. tt }

    pub closed-IsFree :
        (resp : Response) (r : Result (Unit {0})) (w : Reply) → IsFree (closed resp r w)
    unfolding closed
    closed-IsFree resp r w =
        returned-IsFree (defer_error r (wrap_err "error closing response" resp.body.closing)) w 1

    after_response-IsFree :
        (u : U.Url) (r : Result Response) (w : Reply) → IsFree (after_response u r w)
    unfolding after_response
    after_response-IsFree u (err e) w =
        returned-IsFree (err (wrap ("error performing request (" <> U.to_string u <> ")") e)) w 1
    after_response-IsFree u (ok resp) w = record { sound = λ s. tt; apart = λ b. tt }

    pub after_request-IsFree :
        (client : Client) (r : Request) (u : U.Url) (x : Result (Unit {0})) (w : Reply)
        → IsFree (after_request client r u x w)
    unfolding after_request
    after_request-IsFree client r u (err e) w =
        returned-IsFree (err (wrap "error making request object" e)) w 1
    after_request-IsFree client r u (ok _) w =
        after_response-IsFree u (client.send r.method (U.to_string u) r.headers) w

    -- What another handler's step leaves sound.
    pub IsSound-other :
        (h h' : Handler S U) (s s1 : S.State)
        → Grows X.lawful s s1
        → ((b' : S.Blob) → X.Owns b' s → IsApartFrom h b' → Undisturbed X.lawful X.Owns b' s s1)
        → AreApart h h'
        → IsSound s h'
        → IsSound s1 h'
    IsSound-other h (arrived r w) s s1 g q apart k = tt
    IsSound-other h (found bi w) s s1 g q apart k = IsBacked-Grows X.lawful s s1 bi.sha256 g k
    IsSound-other h (asking r u w) s s1 g q apart k = tt
    IsSound-other h (answering u resp w) s s1 g q apart k = tt
    IsSound-other h (copying u resp ps b w) s s1 g q apart ((live, own), (c, held, split)) =
        let (own1, keeps) = q b own (apart b refl) in ((live, own1), (c, keeps c held, split))
    IsSound-other h (committing u resp b w) s s1 g q apart ((live, own), held, whole) =
        let (own1, keeps) = q b own (apart b refl) in
        ((live, own1), keeps (concat resp.body.chunks) held, whole)
    IsSound-other h (recording u resp d b w) s s1 g q apart ((live, own), whole, backed) =
        let (own1, keeps) = q b own (apart b refl) in
        (
          (live, own1),
          whole,
          λ k e.
              let (digest, stored) = backed k e in
              (digest, IsBacked-Grows X.lawful s s1 (encode k) g stored),
        )
    IsSound-other h (cleaning resp r b w) s s1 g q apart (live, own) =
        let (own1, keeps) = q b own (apart b refl) in (live, own1)
    IsSound-other h (ended r w n) s s1 g q apart k = tt
