-- ===== src/Listener/Concurrent/Writing.antt =====
-- The steps of a handler that writes a blob: none breaks what is true of the site or of another handler.
use htvend.Base.{
  ◌≡◌, ◌∙◌, append-nil, append_assoc, concat, refl, sym, Option, none, some, [], ◌∷◌, ◌++◌, ℕ, List,
}
use htvend.Base.{Bytes, nat_eq, string_eq, subst}
use htvend.Base.Error.{Error, Result, ok, err, defer_error, wrap}
use htvend.Platform.{Platform, IsPlatform}
use htvend.Stream.{copy_one}
use htvend.Stream.Laws.{Keeps, copy_one_keeps}
use htvend.Lockfile.{Codec, Urls}
use htvend.Re.{Engine}
use htvend.Blobstore.{Store}
use htvend.Blobstore.Growth.{
  Grows, Grows-same, Grows-trans, Grows-write, Grows-commit, Grows-cleanup,
}
use htvend.Blobstore.Shared.{IsShared, Undisturbed}
use htvend.Listener.{Response, Client, Site, ListenerCtx}
use htvend.Listener.Reply.{Reply}
use htvend.Listener.Fetch.{Copying, write_reply, write_blob, recorded}
use htvend.Listener.Copied.{write_reply_same, tee_round}
use htvend.Listener.Backed.{IsSiteBacked, committed-IsBacked, recorded-IsRecorded}
use htvend.Listener.Concurrent.{
  Handler, copying, committing, recording, cleaning, ended, closed, after_round, step,
}
use htvend.Listener.Concurrent.Invariant.{
  IsWritten, IsSound, IsApartFrom, IsStep, free_step, closed-IsFree,
}
use htvend.Listener.Concurrent.Steps.{IsGoodStep, good_step}

module _ {P : Platform} {S : Store} (X : IsShared P S) where
  -- What a round of the copy into the blob `b` from the state `s` on may have done.
  record IsRound (b : S.Blob) (s : S.State) (c : Copying S) : Type 0 where
    written : IsWritten X c.state c.blob
    grown : Grows X.lawful s c.state
    others :
        (b' : S.Blob)
        → X.Owns b' s
        → X.IsApart b b'
        → X.IsApart c.blob b' × Undisturbed X.lawful X.Owns b' s c.state

  write_blob-IsRound : (b : S.Blob) (s : S.State) → Keeps (IsRound b s) (write_blob S)
  unfolding write_blob
  write_blob-IsRound b s p c k =
      let (live, own) = k.written in
      record {
        written = (X.lawful.write_live p c.blob c.state live, X.write_owns p c.blob c.state own);
        grown =
            Grows-trans X.lawful s c.state (S.write p c.blob c.state).2 k.grown
              (Grows-write X.lawful p c.blob c.state live);
        others = λ b' own' apart.
            let (apart1, (own1, keeps1)) = k.others b' own' apart in
            let (apart2, (own2, keeps2)) = X.write_frame p c.blob c.state b' own1 apart1 in
            (apart2, (own2, λ x held. keeps2 x (keeps1 x held)));
      }

  write_reply-IsRound : (b : S.Blob) (s : S.State) → Keeps (IsRound b s) (write_reply S)
  write_reply-IsRound b s p c k =
      let (w, same) = write_reply_same X.lawful p c in
      subst (IsRound b s) (sym same)
        (record { written = k.written; grown = k.grown; others = k.others })

  -- A round of io.Copy.
  copy_one-IsRound :
      (b : S.Blob) (s : S.State) (p : Bytes) (w : Reply)
      → IsWritten X s b
      → IsRound b s
          (copy_one
            (write_reply S)
            (write_blob S ∷ [])
            p
            (record { reply = some w; blob = b; state = s })).1
  copy_one-IsRound b s p w k =
      copy_one_keeps (IsRound b s) (write_reply S) (write_blob S ∷ []) (write_reply-IsRound b s)
        (write_blob-IsRound b s, tt) p (record { reply = some w; blob = b; state = s })
        (record {
          written = k;
          grown = Grows-same X.lawful s s (λ j _. refl);
          others = λ b' own apart. (apart, (own, λ c held. held));
        })

  module _ {U : Urls} where
    after_round-IsStep :
        (u : U.Url) (resp : Response) (left ps : List Bytes) (b : S.Blob) (w : Reply) (s : S.State)
        (r : Result (Unit {0})) (c : Copying S)
        → IsRound b s c
        → (r ≡ ok tt
            → (x : Bytes) × X.lawful.Holds c.blob c.state x
              × (x ++ concat ps ≡ concat resp.body.chunks))
        → IsStep X {U = U} (copying u resp left b w) s (after_round u resp ps w r c) c.state
    unfolding after_round
    after_round-IsStep u resp left ps b w s (ok _) c k held = record {
      sound = (k.written, held refl);
      grown = k.grown;
      others = k.others;
    }
    after_round-IsStep u resp left ps b w s (err e) c k held = record {
      sound = k.written;
      grown = k.grown;
      others = k.others;
    }

    -- A step that only moves on.
    moved :
        (h h1 : Handler S U) (s : S.State)
        → IsSound X s h1
        → ((b' : S.Blob) → IsApartFrom X h b' → IsApartFrom X h1 b')
        → IsStep X h s h1 s
    moved h h1 s k q = record {
      sound = k;
      grown = Grows-same X.lawful s s (λ j _. refl);
      others = λ b' own apart. (q b' apart, (own, λ c held. held));
    }

module _ {P : Platform} (LP : IsPlatform P) {S : Store} (X : IsShared P S) where
  module _ {C : Codec} {E : Engine} (U : Urls) (lctx : ListenerCtx E) (client : Client) where
    -- A handler from the start of the copy on.
    abbrev IsGood : Handler S U → Site C E S → Type 0
    IsGood h site = IsGoodStep LP X U lctx h site (step U lctx client h site)

    -- The end of the body.
    copied-IsGoodStep :
        (u : U.Url) (resp : Response) (b : S.Blob) (w : Reply) (site : Site C E S)
        (end : Option Error)
        → resp.body.broken ≡ end
        → IsSiteBacked X.lawful site
        → IsSound X {U = U} site.blobs (copying u resp [] b w)
        → IsGoodStep LP X U lctx (copying u resp [] b w) site (elim end [
          | none ↦ (committing u resp b w, site)
          | some x ↦ (cleaning resp (err (wrap "error copying response via tee" x)) b w, site)
        ])
    copied-IsGoodStep u resp b w site none e k (written, (c, held, all)) = record {
      step =
          moved X (copying u resp [] b w) (committing u resp b w) site.blobs
            (written, subst (λ x. X.lawful.Holds b site.blobs x) (sym (append-nil c) ∙ all) held, e)
            (λ b' apart. apart);
      backed = k;
    }
    copied-IsGoodStep u resp b w site (some x) e k sound = record {
      step =
          moved X (copying u resp [] b w)
            (cleaning resp (err (wrap "error copying response via tee" x)) b w) site.blobs sound.0
            (λ b' apart. apart);
      backed = k;
    }

    pub copying-IsGoodStep :
        (u : U.Url) (resp : Response) (left : List Bytes) (b : S.Blob) (w : Reply)
        (site : Site C E S)
        → IsSiteBacked X.lawful site
        → IsSound X {U = U} site.blobs (copying u resp left b w)
        → IsGood (copying u resp left b w) site
    unfolding step
    copying-IsGoodStep u resp [] b w site k sound =
        copied-IsGoodStep u resp b w site resp.body.broken refl k sound
    copying-IsGoodStep u resp (p ∷ ps) b w site k (written, (x, held, all)) =
        let c : Copying S = record { reply = some w; blob = b; state = site.blobs } in
        let (r, c') = copy_one (write_reply S) (write_blob S ∷ []) p c in
        good_step LP X U lctx (copying u resp (p ∷ ps) b w) (after_round u resp ps w r c') site
          c'.state k
          (after_round-IsStep X u resp (p ∷ ps) ps b w site.blobs r c'
            (copy_one-IsRound X b site.blobs p w written)
            (λ e. (x ++ p, tee_round X.lawful p x c held e, append_assoc x p (concat ps) ∙ all)))

    pub committing-IsGoodStep :
        (u : U.Url) (resp : Response) (b : S.Blob) (w : Reply) (site : Site C E S)
        → IsSiteBacked X.lawful site
        → IsSound X {U = U} site.blobs (committing u resp b w)
        → IsGood (committing u resp b w) site
    unfolding step
    committing-IsGoodStep u resp b w site k ((live, own), held, whole) =
        let x = concat resp.body.chunks in
        let (d, b', s) = S.commit b site.blobs in
        good_step LP X U lctx (committing u resp b w) (recording u resp d b' w) site s k (record {
          sound = (
            (X.lawful.commit_live b site.blobs live, X.commit_owns b site.blobs own),
            whole,
            λ j e. (
              (X.lawful.commit_ok b site.blobs x j [] tt live held e).0,
              committed-IsBacked LP X.lawful b site.blobs x j live held e,
            ),
          );
          grown = Grows-commit X.lawful b site.blobs x live held;
          others = λ b'' own' apart. X.commit_frame b site.blobs b'' own' apart;
        })

    pub recording-IsGoodStep :
        (u : U.Url) (resp : Response) (d : Result Bytes) (b : S.Blob) (w : Reply)
        (site : Site C E S)
        → IsSiteBacked X.lawful site
        → IsSound X {U = U} site.blobs (recording u resp d b w)
        → IsGood (recording u resp d b w) site
    unfolding step
    recording-IsGoodStep u resp d b w site k ((live, own), whole, backed) =
        let c : Copying S = record { reply = some w; blob = b; state = site.blobs } in
        let (r, f, p) = recorded U lctx.headers_to_cache u resp.headers d site.assets site.place in
        let o =
          recorded-IsRecorded LP X.lawful U lctx.headers_to_cache u resp.headers d c site.assets
            site.place site.blobs
            (record {
              live = live;
              grown = Grows-same X.lawful site.blobs site.blobs (λ j _. refl);
            })
            k.blobs (λ j e. (backed j e).1) in
        record {
          step =
              moved X (recording u resp d b w) (cleaning resp r b w) site.blobs (live, own)
                (λ b' apart. apart);
          backed = record { blobs = o.blobs; previous = rw o.previous k.previous };
        }

    pub cleaning-IsGoodStep :
        (resp : Response) (r : Result (Unit {0})) (b : S.Blob) (w : Reply) (site : Site C E S)
        → IsSiteBacked X.lawful site
        → IsSound X {U = U} site.blobs (cleaning resp r b w)
        → IsGood (cleaning resp r b w) site
    unfolding step
    cleaning-IsGoodStep resp r b w site k (live, own) =
        let (x, b', s) = S.cleanup b site.blobs in
        good_step LP X U lctx (cleaning resp r b w) (closed resp (defer_error r x) w) site s k (
          free_step X (cleaning resp r b w) (closed resp (defer_error r x) w) site.blobs s
            (closed-IsFree X resp (defer_error r x) w) (Grows-cleanup X.lawful b site.blobs live)
            (λ b'' own' apart. X.cleanup_frame b site.blobs b'' own' apart))

    -- A handler that has returned.
    pub ended-IsGoodStep :
        (r : Result (Unit {0})) (w : Reply) (n : ℕ) (site : Site C E S)
        → IsSiteBacked X.lawful site
        → IsGood (ended r w n) site
    unfolding step
    ended-IsGoodStep r w n site k = record {
      step = moved X (ended r w n) (ended r w n) site.blobs tt (λ b' a. a);
      backed = k;
    }
