-- ===== src/Listener/Copied.antt =====
-- The copy of an answer's body, to the client and into a blob.
use htvend.Base.{
  ◌≡◌, sym, subst, ◌∙◌, Option, none, some, [], ◌∷◌, ◌++◌, arith, append-nil, inl, inr,
}
use htvend.Base.{Bytes, concat, Option-cases}
use htvend.Base.Error.{ok}
use htvend.Platform.{Platform}
use htvend.Stream.{Reader, copy_one, tee_all, copy_chunk, copy_chunks}
use htvend.Stream.Laws.{
  copy_chunks_keeps, copy_chunks_ok, copy_one_keeps, Keeps, copy_one_direct, copy_one_tee,
}
use htvend.Blobstore.{Store, IsLawful}
use htvend.Blobstore.Growth.{Grows, Grows-trans, Grows-write}
use htvend.Listener.Reply.{Reply, write_body}
use htvend.Listener.Fetch.{Copying, write_reply, write_blob, copy_body}

module _ {S : Store} (body : Reader) (c : Copying S) where
  copy_body_direct :
      c.reply ≡ none
      → (copy_body S body c).0 ≡ ok tt
      → ((copy_chunks (write_blob S) [] body.chunks body.broken c).0 ≡ ok tt)
        × ((copy_body S body c).1 ≡ (copy_chunks (write_blob S) [] body.chunks body.broken c).1)
  unfolding copy_body
  copy_body_direct alone h = ground arith

  copy_body_tee :
      (w : Reply)
      → c.reply ≡ some w
      → (copy_body S body c).0 ≡ ok tt
      → ((copy_chunks (write_reply S) (write_blob S ∷ []) body.chunks body.broken c).0 ≡ ok tt)
        × ((copy_body S body c).1
            ≡ (copy_chunks (write_reply S) (write_blob S ∷ []) body.chunks body.broken c).1)
  unfolding copy_body
  copy_body_tee w client h = ground arith

module _ {P : Platform} {S : Store} (L : IsLawful P S) where
  -- The blob is this store's, and the store has only grown.
  pub record IsCopying (s0 : S.State) (c : Copying S) : Type 0 where
    pub live : L.IsLive c.blob
    pub grown : Grows L s0 c.state

  pub write_blob-IsCopying : (s0 : S.State) → Keeps (IsCopying s0) (write_blob S)
  unfolding write_blob
  write_blob-IsCopying s0 p c k = record {
    live = L.write_live p c.blob c.state k.live;
    grown =
        Grows-trans L s0 c.state (S.write p c.blob c.state).2 k.grown
          (Grows-write L p c.blob c.state k.live);
  }

  -- A write to the client leaves the blob and the store alone.
  pub write_reply_same :
      (p : Bytes) (c : Copying S)
      → (w : Option Reply) × ((write_reply S p c).1 ≡ record c { reply = w })
  unfolding write_reply
  write_reply_same p c = elim (Option-cases c.reply) [
    | inl e ↦ (none, ground arith)
    | inr (w, e) ↦ (some (write_body p w).1, ground arith)
  ]

  pub write_reply-IsCopying : (s0 : S.State) → Keeps (IsCopying s0) (write_reply S)
  write_reply-IsCopying s0 p c k =
      let (w, same) = write_reply_same p c in
      subst (IsCopying s0) (sym same) (record { live = k.live; grown = k.grown })

  -- Whatever fails during the copy, the store only grows.
  pub copy_body-IsCopying :
      (s0 : S.State) (body : Reader) (c : Copying S)
      → IsCopying s0 c
      → IsCopying s0 (copy_body S body c).1
  unfolding copy_body
  copy_body-IsCopying s0 body c k = elim (Option-cases c.reply) [
    | inl e ↦
        rw (e, copy_body)
          (copy_chunks_keeps (write_blob S) [] (IsCopying s0)
            (copy_one_keeps (IsCopying s0) (write_blob S) [] (write_blob-IsCopying s0) tt)
            body.chunks body.broken c k)
    | inr (w, e) ↦
        rw (e, copy_body)
          (copy_chunks_keeps (write_reply S) (write_blob S ∷ []) (IsCopying s0)
            (copy_one_keeps (IsCopying s0) (write_reply S) (write_blob S ∷ [])
              (write_reply-IsCopying s0) (write_blob-IsCopying s0, tt))
            body.chunks body.broken c k)
  ]

  abbrev pub HoldsBytes : Bytes → Copying S → Type 0
  HoldsBytes b c = L.Holds c.blob c.state b

  write_blob-HoldsBytes :
      (p b : Bytes) (c : Copying S)
      → HoldsBytes b c
      → (write_blob S p c).0.1 ≡ none
      → HoldsBytes (b ++ p) (write_blob S p c).1
  unfolding write_blob
  write_blob-HoldsBytes p b c h e = L.write_holds p c.blob c.state b h e

  pub direct_round :
      (p b : Bytes) (c : Copying S)
      → HoldsBytes b c
      → (copy_one (write_blob S) [] p c).0 ≡ ok tt
      → HoldsBytes (b ++ p) (copy_one (write_blob S) [] p c).1
  unfolding copy_one tee_all copy_chunk
  direct_round [] b c h e = rw append-nil h
  direct_round (x ∷ p) b c h e =
      let (done, same) = copy_one_direct (write_blob S) x p c e in
      subst (HoldsBytes (b ++ (x ∷ p))) (sym same) (write_blob-HoldsBytes (x ∷ p) b c h done)

  pub tee_round :
      (p b : Bytes) (c : Copying S)
      → HoldsBytes b c
      → (copy_one (write_reply S) (write_blob S ∷ []) p c).0 ≡ ok tt
      → HoldsBytes (b ++ p) (copy_one (write_reply S) (write_blob S ∷ []) p c).1
  unfolding copy_one tee_all copy_chunk
  tee_round [] b c h e = rw append-nil h
  tee_round (x ∷ p) b c h e =
      let (done, _, same) = copy_one_tee (write_reply S) x p c (write_blob S) e in
      let c1 = (write_blob S (x ∷ p) c).1 in
      let (w, alike) = write_reply_same (x ∷ p) c1 in
      subst (HoldsBytes (b ++ (x ∷ p))) (sym (same ∙ alike))
        (write_blob-HoldsBytes (x ∷ p) b c h done)

  -- For a blob that has taken some bytes: if the copy of an answer's body, with or without a
  -- client, succeeds, then the blob has taken these bytes and the whole body, and the body was
  -- read to its end.
  pub copy_body-Holds :
      (body : Reader) (b : Bytes) (c : Copying S)
      → L.Holds c.blob c.state b
      → (copy_body S body c).0 ≡ ok tt
      → L.Holds (copy_body S body c).1.blob (copy_body S body c).1.state (b ++ concat body.chunks)
        × (body.broken ≡ none)
  copy_body-Holds body b c h e = elim (Option-cases c.reply) [
    | inl alone ↦
        let (r, same) = copy_body_direct body c alone e in
        let (held, whole) =
          copy_chunks_ok (write_blob S) [] HoldsBytes direct_round body.chunks body.broken b c h
            r in
        (subst (HoldsBytes (b ++ concat body.chunks)) (sym same) held, whole)
    | inr (w, client) ↦
        let (r, same) = copy_body_tee body c w client e in
        let (held, whole) =
          copy_chunks_ok (write_reply S) (write_blob S ∷ []) HoldsBytes tee_round body.chunks
            body.broken b c h r in
        (subst (HoldsBytes (b ++ concat body.chunks)) (sym same) held, whole)
  ]
