-- ===== src/Listener/Concurrent/Uninterrupted.antt =====
-- Steps of one handler that no other interrupts: the copy of a body.
use htvend.Base.{
  ◌≡◌, refl, subst, nat_eq, Option, none, some, [], ◌∷◌, arith, inl, inr, ℕ, zero, suc, List,
  if◌then◌else◌, false, true, Bytes, Bool,
}
use htvend.Base.Error.{Error, Result, ok, err, Result-cases, wrap, wrap_err}
use htvend.Stream.{copy_one, copy_chunks}
use htvend.Stream.Laws.{Keeps, copy_one_keeps}
use htvend.Lockfile.{Codec, Urls}
use htvend.Re.{Engine}
use htvend.Blobstore.{Store}
use htvend.Listener.{Response, Client, Site, ListenerCtx}
use htvend.Listener.Reply.{Reply, write_body}
use htvend.Listener.Fetch.{Copying, write_reply, write_blob, commit_copied, cleaned, closing}
use htvend.Listener.Handle.{Handled, fetched, with_error_page}
use htvend.Listener.Concurrent.{
  Handler, copying, committing, cleaning, ended, step, returned, closed, after_round,
}

pub if_pair {ℓ κ μ} :
    {A : Type ℓ} {B : Type κ} (Q : A → B → Type μ) (b : Bool) (x y : A) (z w : B)
    → Q x z
    → Q y w
    → Q (if b then x else y) (if b then z else w)
if_pair Q true x y z w h k = h
if_pair Q false x y z w h k = k

module _ {S : Store} {U : Urls} where
  -- From the end of io.Copy on.
  abbrev pub copied : U.Url → Response → Result (Unit {0}) → Reply → S.Blob → Handler S U
  copied u resp (ok _) v b = committing u resp b v
  copied u resp (err x) v b = cleaning resp (err (wrap "error copying response via tee" x)) b v

module _ {C : Codec} {E : Engine} {S : Store} (U : Urls) (lctx : ListenerCtx E)
    (client : Client) where
  -- Some steps of one handler, with no step of another between them.
  unfoldable pub alone : ℕ → Handler S U × Site C E S → Handler S U × Site C E S
  alone zero o = o
  alone (suc n) (h, site) = alone n (step U lctx client h site)

  abbrev pub Reaches : Handler S U × Site C E S → Handler S U × Site C E S → Type 0
  Reaches o o' = (n : ℕ) × (alone n o ≡ o')

  pub next :
      (h : Handler S U) (site : Site C E S) (o : Handler S U × Site C E S)
      → Reaches (step U lctx client h site) o
      → Reaches (h, site) o
  unfolding alone
  next h site o (n, e) = (suc n, e)

  abbrev pub outcome : Handled C E S → Handler S U × Site C E S
  outcome h = (returned h.result h.reply h.missing, h.site)

  pub outcome_lem :
      (h : Handled C E S)
      → outcome h ≡ (
        ended (with_error_page h).result (with_error_page h).reply (with_error_page h).missing,
        (with_error_page h).site,
      )
  unfolding returned
  outcome_lem h = elim (Result-cases h.result) [
    | inl (_, e) ↦ ground arith
    | inr (x, e) ↦ ground arith
  ]

  pub copied-Reaches :
      (u : U.Url) (resp : Response) (r : Result (Unit {0})) (v w : Reply) (b : S.Blob) (s : S.State)
      (site : Site C E S)
      → let c : Copying S = record { reply = some v; blob = b; state = s } in
        Reaches
          (copied u resp r v b, record site { blobs = s })
          (outcome (
            fetched U lctx client
              (closing U lctx.headers_to_cache resp.body (
                cleaned U lctx.headers_to_cache (
                  commit_copied U lctx.headers_to_cache u resp.headers
                    (wrap_err "error copying response via tee" r, c)
                    site.assets
                    site.place)))
              w))
  unfolding alone step commit_copied closed
  copied-Reaches u resp (ok _) v w b s site = (3, refl)
  copied-Reaches u resp (err x) v w b s site = (1, refl)

module _ (S : Store) where
  -- What a copy works on that has a client.
  abbrev pub at_work : Reply → S.Blob → S.State → Copying S
  at_work v b s = record { reply = some v; blob = b; state = s }

  abbrev HasClient : Copying S → Type 0
  HasClient c = (v : Reply) × (c.reply ≡ some v)

  write_reply-HasClient : Keeps HasClient (write_reply S)
  unfolding write_reply
  write_reply-HasClient p c (v, e) = rw (e, write_reply) ((write_body p v).1, refl)

  write_blob-HasClient : Keeps HasClient (write_blob S)
  unfolding write_blob
  write_blob-HasClient p c k = k

  round-HasClient :
      (p : Bytes) (v : Reply) (b : S.Blob) (s : S.State)
      → HasClient (copy_one (write_reply S) (write_blob S ∷ []) p (at_work v b s)).1
  round-HasClient p v b s =
      copy_one_keeps HasClient (write_reply S) (write_blob S ∷ []) write_reply-HasClient
        (write_blob-HasClient, tt) p (at_work v b s) (v, refl)

module _ {C : Codec} {E : Engine} {S : Store} (U : Urls) (lctx : ListenerCtx E)
    (client : Client) where
  abbrev pub CopyReaches :
      U.Url → Response → List Bytes → Site C E S → Copying S → Handler S U × Site C E S → Type 0
  CopyReaches u resp ps site c o =
      let (r, c') = copy_chunks (write_reply S) (write_blob S ∷ []) ps resp.body.broken c in
      (v : Reply)
      → c'.reply ≡ some v
      → Reaches U lctx client (copied u resp r v c'.blob, record site { blobs = c'.state }) o

  copied_all-Reaches :
      (u : U.Url) (resp : Response) (v : Reply) (b : S.Blob) (s : S.State) (site : Site C E S)
      (o : Handler S U × Site C E S) (end : Option Error)
      → (let (r, c') = copy_chunks (write_reply S) (write_blob S ∷ []) [] end (at_work S v b s) in
          (v' : Reply)
          → c'.reply ≡ some v'
          → Reaches U lctx client (copied u resp r v' c'.blob, record site { blobs = c'.state }) o)
      → Reaches U lctx client
          (elim end [
            | none ↦ (committing u resp b v, record site { blobs = s })
            | some x ↦ (
              cleaning resp (err (wrap "error copying response via tee" x)) b v,
              record site { blobs = s },
            )
          ])
          o
  unfolding copy_chunks
  copied_all-Reaches u resp v b s site o none k = k v refl
  copied_all-Reaches u resp v b s site o (some x) k = k v refl

  -- After a round of the copy, given what holds of the rounds that follow.
  round-Reaches :
      (u : U.Url) (resp : Response) (ps : List Bytes) (w : Reply) (site : Site C E S)
      (o : Handler S U × Site C E S) (r : Result (Unit {0})) (c : Copying S) (v : Reply)
      → c.reply ≡ some v
      → (CopyReaches u resp ps site (at_work S v c.blob c.state) o
          → Reaches U lctx client (copying u resp ps c.blob v, record site { blobs = c.state }) o)
      → (let (r', c') = elim r as (λ _. Result (Unit {0}) × Copying S) [
        | ok _ ↦ copy_chunks (write_reply S) (write_blob S ∷ []) ps resp.body.broken c
        | err x ↦ (err x, c)
      ] in
          (v' : Reply)
          → c'.reply ≡ some v'
          → Reaches U lctx client (copied u resp r' v' c'.blob, record site { blobs = c'.state }) o)
      → Reaches U lctx client (after_round u resp ps w r c, record site { blobs = c.state }) o
  unfolding after_round
  round-Reaches u resp ps w site o (err x) c v e ih k = rw e (k v e)
  round-Reaches u resp ps w site o (ok _) c v e ih k =
      let same : c ≡ at_work S v c.blob c.state =
        λ i. record { reply = e i; blob = c.blob; state = c.state } in
      rw e (ih (subst (λ x. CopyReaches u resp ps site x o) same k))

  pub copying-Reaches :
      (u : U.Url) (resp : Response) (ps : List Bytes) (v : Reply) (b : S.Blob) (s : S.State)
      (site : Site C E S) (o : Handler S U × Site C E S)
      → CopyReaches u resp ps site (at_work S v b s) o
      → Reaches U lctx client (copying u resp ps b v, record site { blobs = s }) o
  unfolding copy_chunks step
  copying-Reaches u resp [] v b s site o k =
      next U lctx client (copying u resp [] b v) (record site { blobs = s }) o
        (copied_all-Reaches u resp v b s site o resp.body.broken k)
  copying-Reaches u resp (p ∷ ps) v b s site o k =
      let (r, c) = copy_one (write_reply S) (write_blob S ∷ []) p (at_work S v b s) in
      let (v', e) = round-HasClient S p v b s in
      next U lctx client (copying u resp (p ∷ ps) b v) (record site { blobs = s }) o
        (round-Reaches u resp ps v site o r c v' e
          (copying-Reaches u resp ps v' c.blob c.state site o) k)
