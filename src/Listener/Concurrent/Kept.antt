-- ===== src/Listener/Concurrent/Kept.antt =====
-- Handlers in any order of their steps: an entry that is recorded stays as it is, and is served.
use htvend.Base.{
  ◌≡◌, refl, sym, ap, ◌∙◌, ◌==◌, ◌||◌, ◌++◌, not, nat_eq, string_eq, some, [], ◌∷◌, arith, inl, inr,
  ℕ, List, String, if_both, false, Bytes, ==_sound, subst,
}
use htvend.Base.Dict.{lookup}
use htvend.Base.Hex.{decode}
use htvend.Base.Error.{ok, Result-cases}
use htvend.Platform.{Platform, IsPlatform}
use htvend.Lockfile.{BlobInfo, Codec, File, Place, Urls}
use htvend.Lockfile.Ops.{get_blob, add_blob, skip_save}
use htvend.Lockfile.Laws.{lookup-get_blob, lookup-add_blob, get_blob-options, add_blob-options}
use htvend.Re.{Engine, matches}
use htvend.Blobstore.{Store}
use htvend.Blobstore.Shared.{IsShared}
use htvend.Listener.{Request, Client, Site, ListenerCtx, status_ok, extract_req_from_url}
use htvend.Listener.Reply.{Reply, write_header}
use htvend.Listener.Fetch.{copy_out}
use htvend.Listener.Handle.{serve_found_blob}
use htvend.Listener.Served.{serve_found_blob-digest}
use htvend.Listener.Replay.{get_blob_hit}
use htvend.Listener.Kept.{IsKept, recorded_keeps}
use htvend.Listener.Concurrent.{
  Handler, Proxied, arrived, found, asking, answering, copying, committing, recording, cleaning,
  ended, step, turn, interleaved, returned, closed, after_lookup, after_put, client_of,
}
use htvend.Listener.Concurrent.Invariant.{IsSound}
use htvend.Listener.Concurrent.Interleaved.{IsConsistent, interleaved-IsConsistent}

module _ {C : Codec} {E : Engine} (U : Urls) (Q : File E → Place C → Type 0) (K : IsKept U Q)
    (lctx : ListenerCtx E) (client : Client) where
  module _ {S : Store} where
    abbrev HasSite : Site C E S → Type 0
    HasSite site = Q site.assets site.place

    step_keeps :
        (h : Handler S U) (site : Site C E S) → HasSite site → HasSite (step U lctx client h site).1
    unfolding step
    step_keeps (arrived r w) site q =
        let u = extract_req_from_url U r in
        let (x, f, p) = get_blob U u site.assets site.place in
        if_both (λ (o : Handler S U × Site C E S). HasSite o.1)
          (matches E lctx.dummy_ok (U.redacted u))
          (returned (ok tt) (write_header status_ok w) 0, site)
          (after_lookup lctx r u x w, record site { assets = f; place = p }) q
          (K.by_get u site.assets site.place q)
    step_keeps (found bi w) site q = q
    step_keeps (asking r u w) site q = q
    step_keeps (answering u resp w) site q =
        let (r, w') = copy_out S resp.body (some w) in
        let (x, s) = S.put site.blobs in
        if_both (λ (o : Handler S U × Site C E S). HasSite o.1)
          (skip_save U site.assets u || not (resp.status_code == status_ok))
          (closed resp r (client_of w w'), site) (after_put u resp x w, record site { blobs = s }) q
          q
    step_keeps (copying u resp [] b w) site q = ground (arith, q)
    step_keeps (copying u resp (p ∷ ps) b w) site q = q
    step_keeps (committing u resp b w) site q = q
    step_keeps (recording u resp d b w) site q =
        recorded_keeps U Q K lctx.headers_to_cache u resp.headers d site.assets site.place q
    step_keeps (cleaning resp r b w) site q = q
    step_keeps (ended r w n) site q = q

    -- What GetBlob and AddBlob keep, any interleaving keeps.
    pub interleaved_keeps :
        (is : List ℕ) (p : Proxied C E S U)
        → HasSite p.site
        → HasSite (interleaved U lctx client is p).site
    unfolding interleaved turn
    interleaved_keeps [] p q = q
    interleaved_keeps (i ∷ is) p q =
        interleaved_keeps is (turn U lctx client i p) (step_keeps (p.handlers i) p.site q)

-- The manifest does not allow overwriting and has this entry, whose key is not to be left out.
abbrev pub HasEntry : {C : Codec} {E : Engine} → String → BlobInfo → File E → Place C → Type 0
HasEntry {E = E} k bi f p =
    (f.options.allow_overwrite ≡ false)
    × (matches E f.options.no_cache k ≡ false)
    × (lookup k f.blobs ≡ some bi)

module _ {C : Codec} {E : Engine} (U : Urls) where
  get_blob-HasEntry :
      (k : String) (bi : BlobInfo) (u : U.Url) (f : File E) (p : Place C)
      → HasEntry k bi f p
      → HasEntry k bi (get_blob U u f p).1 (get_blob U u f p).2
  get_blob-HasEntry k bi u f p (closed_to, cache, entry) = (
    ap (λ o. o.allow_overwrite) (get_blob-options U u f p) ∙ closed_to,
    ap (λ o. matches E o.no_cache k) (get_blob-options U u f p) ∙ cache,
    lookup-get_blob U u k f p ∙ ground (arith, ==_sound k (U.redacted u)),
  )

  add_blob-HasEntry :
      (k : String) (bi info : BlobInfo) (u : U.Url) (f : File E) (p : Place C)
      → HasEntry k bi f p
      → HasEntry k bi (add_blob U u info f p).1 (add_blob U u info f p).2
  add_blob-HasEntry k bi info u f p (closed_to, cache, entry) = (
    ap (λ o. o.allow_overwrite) (add_blob-options U u info f p) ∙ closed_to,
    ap (λ o. matches E o.no_cache k) (add_blob-options U u info f p) ∙ cache,
    lookup-add_blob U u k info f p ∙ ground (arith, ==_sound k (U.redacted u)),
  )

  HasEntry-IsKept : (k : String) (bi : BlobInfo) → IsKept {C = C} {E = E} U (HasEntry k bi)
  HasEntry-IsKept k bi = record {
    by_get = λ u f p h. get_blob-HasEntry k bi u f p h;
    by_add = λ u info f p h. add_blob-HasEntry k bi info u f p h;
  }

module _ {C : Codec} {E : Engine} {S : Store} (U : Urls) (lctx : ListenerCtx E)
    (client : Client) where
  -- Without permission to overwrite, for a URL on neither the list of dummy answers nor the no-cache
  -- list: its entry in the manifest stays as it is, digest and headers, however the steps of any
  -- number of handlers interleave and whatever they fetch, so that at any later time a handler that
  -- asks for it finds this entry.
  pub interleaved-HasEntry :
      (is : List ℕ) (p : Proxied C E S U) (r : Request) (w : Reply) (bi : BlobInfo)
      → let k = U.redacted (extract_req_from_url U r) in
        matches E lctx.dummy_ok k ≡ false
        → HasEntry k bi p.site.assets p.site.place
        → let later = (interleaved U lctx client is p).site in
          HasEntry k bi later.assets later.place
          × ((step U lctx client (arrived r w) later).0 ≡ found bi w)
  unfolding step
  interleaved-HasEntry is p r w bi dummy h =
      let k = U.redacted (extract_req_from_url U r) in
      let kept = interleaved_keeps U (HasEntry k bi) (HasEntry-IsKept U k bi) lctx client is p h in
      let later = (interleaved U lctx client is p).site in
      let hit =
        get_blob_hit U (extract_req_from_url U r) later.assets later.place bi kept.1 kept.2 in
      (kept, rw (dummy, hit) refl)

module _ {C : Codec} {E : Engine} {S : Store} (U : Urls) (lctx : ListenerCtx E)
    (client : Client) where
  found_done :
      (bi : BlobInfo) (w w' : Reply) (n : ℕ) (site : Site C E S)
      → (step {S = S} U lctx client (found bi w) site).0 ≡ ended (ok tt) w' n
      → ((serve_found_blob S bi site.blobs w).0 ≡ ok tt)
        × ((serve_found_blob S bi site.blobs w).2 ≡ w')
  unfolding step returned
  found_done bi w w' n site h = elim (Result-cases (serve_found_blob S bi site.blobs w).0) [
    | inr (e, bad) ↦ absurd (let q = rw (bad, returned) at h in cc)
    | inl (_, good) ↦ let q = rw (good, returned) at h in (good, cc)
  ]

module _ {P : Platform} (LP : IsPlatform P) {S : Store} (X : IsShared P S) where
  module _ {C : Codec} {E : Engine} (U : Urls) (lctx : ListenerCtx E) (client : Client) where
    -- For a backed manifest, sound handlers and blobs that are apart at first: if after any
    -- interleaving a handler has found an entry, and its next step returns nil, then its reply has
    -- grown by bytes whose SHA-256 is the digest that the entry spells in hex, whatever the other
    -- handlers have written meanwhile.
    pub interleaved-digest :
        (is : List ℕ) (p : Proxied C E S U) (i : ℕ) (bi : BlobInfo) (w w' : Reply) (n : ℕ)
        → IsConsistent X p
        → let q = interleaved U lctx client is p in
          q.handlers i ≡ found bi w
          → (step U lctx client (q.handlers i) q.site).0 ≡ ended (ok tt) w' n
          → (c : Bytes) × (decode bi.sha256 ≡ some (P.sha256 c)) × (w'.body ≡ w.body ++ c)
    interleaved-digest is p i bi w w' n k here done =
        let q = interleaved U lctx client is p in
        let backed =
          subst (IsSound X q.site.blobs) here
            ((interleaved-IsConsistent LP X U lctx client is p k).sound i) in
        let next : (step U lctx client (found bi w) q.site).0 ≡ ended (ok tt) w' n =
          rw here at done in
        let (served, same) = found_done U lctx client bi w w' n q.site next in
        let (c, digest, sent) = serve_found_blob-digest X.lawful bi q.site.blobs w backed served in
        (c, digest, sym (ap (λ (v : Reply). v.body) same) ∙ sent)
