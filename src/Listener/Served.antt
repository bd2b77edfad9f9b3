-- ===== src/Listener/Served.antt =====
-- serveFoundBlob: the bytes that it sends.
use htvend.Base.{
  ◌≡◌, refl, sym, ap, ◌∙◌, String, none, some, [], ◌∷◌, ◌++◌, arith, append-nil, append_assoc,
}
use htvend.Base.{Bytes, concat, some-injective}
use htvend.Base.Dict.{Dict}
use htvend.Base.Hex.{decode}
use htvend.Base.Error.{Result, ok, err}
use htvend.Platform.{Platform}
use htvend.Stream.{Reader, copy_one, tee_all, copy_chunk, io_copy}
use htvend.Stream.Laws.{copy_chunks_ok, copy_one_direct}
use htvend.Lockfile.{BlobInfo}
use htvend.Blobstore.{Store, IsLawful}
use htvend.Blobstore.Growth.{IsBacked}
use htvend.Listener.Reply.{Reply, write_header, write_body, set_value, set_headers}
use htvend.Listener.Handle.{served, serve_found_blob}

write_body_ok :
    (p : Bytes) (w : Reply) → (write_body p w).0.1 ≡ none → (write_body p w).1.body ≡ w.body ++ p
unfolding write_body write_header
write_body_ok p w h = ground arith

-- A reply that has taken `b` after `start`.
abbrev HasSent : Bytes → Bytes → Reply → Type 0
HasSent start b w = w.body ≡ start ++ b

write_body_round :
    (start p b : Bytes) (w : Reply)
    → HasSent start b w
    → (copy_one write_body [] p w).0 ≡ ok tt
    → HasSent start (b ++ p) (copy_one write_body [] p w).1
unfolding copy_one tee_all copy_chunk
write_body_round start [] b w h e = rw append-nil h
write_body_round start (x ∷ p) b w h e =
    let (done, same) = copy_one_direct write_body x p w e in
    ap (λ (v : Reply). v.body) same
    ∙ write_body_ok (x ∷ p) w done
    ∙ ap (λ (v : Bytes). v ++ (x ∷ p)) h
    ∙ append_assoc start b (x ∷ p)

io_copy_ok :
    (r : Reader) (w : Reply)
    → (io_copy write_body [] r w).0 ≡ ok tt
    → ((io_copy write_body [] r w).1.body ≡ w.body ++ concat r.chunks) × (r.broken ≡ none)
io_copy_ok r w e =
    copy_chunks_ok write_body [] (HasSent w.body) (write_body_round w.body) r.chunks r.broken [] w
      (sym (append-nil w.body)) e

set_headers_body : (hs : Dict String String) (w : Reply) → (set_headers hs w).body ≡ w.body
unfolding set_headers set_value
set_headers_body [] w = refl
set_headers_body ((k, v) ∷ hs) w = set_headers_body hs (set_value k v w)

served_ok :
    (bi : BlobInfo) (x : Result Reader) (w : Reply)
    → (served bi x w).0 ≡ ok tt
    → (br : Reader) × (x ≡ ok br)
      × (br.broken ≡ none)
      × ((served bi x w).1.body ≡ w.body ++ concat br.chunks)
unfolding served
served_ok bi (err e) w h = absurd (cc)
served_ok bi (ok br) w h =
    let (sent, whole) = io_copy_ok br (set_headers bi.headers w) (ground arith) in
    (
      br,
      refl,
      whole,
      sent ∙ ap (λ (b : Bytes). b ++ concat br.chunks) (set_headers_body bi.headers w),
    )

module _ {P : Platform} {S : Store} (L : IsLawful P S) where
  pub serve_found_blob-view :
      (bi : BlobInfo) (s : S.State) (w : Reply) (k : Bytes)
      → decode bi.sha256 ≡ some k
      → (serve_found_blob S bi s w).0 ≡ ok tt
      → (c : Bytes) × (L.view s k ≡ some c) × ((serve_found_blob S bi s w).2.body ≡ w.body ++ c)
  unfolding serve_found_blob
  serve_found_blob-view bi s w k e h =
      let opened : serve_found_blob S bi s w
          ≡ ((served bi (S.get k s).0 w).0, (S.get k s).1, (served bi (S.get k s).0 w).1) =
        rw (e, serve_found_blob) refl in
      let fine : (served bi (S.get k s).0 w).0 ≡ ok tt =
        sym (ap (λ (x : Result (Unit {0}) × S.State × Reply). x.0) opened) ∙ h in
      let (br, got, whole, sent) = served_ok bi (S.get k s).0 w fine in
      (
        concat br.chunks,
        L.get_ok k s br got whole,
        ap (λ (x : Result (Unit {0}) × S.State × Reply). x.2.body) opened ∙ sent,
      )

  -- For an entry that names bytes which the store holds under their own digest: if serveFoundBlob
  -- returns nil, then it has appended to the reply's body exactly some bytes whose SHA-256 is the
  -- digest that the entry spells in hex.
  pub serve_found_blob-digest :
      (bi : BlobInfo) (s : S.State) (w : Reply)
      → IsBacked L s bi.sha256
      → (serve_found_blob S bi s w).0 ≡ ok tt
      → (c : Bytes) × (decode bi.sha256 ≡ some (P.sha256 c))
        × ((serve_found_blob S bi s w).2.body ≡ w.body ++ c)
  serve_found_blob-digest bi s w b h =
      let (c, held, sent) = serve_found_blob-view bi s w b.key b.decoded h in
      let same : b.content ≡ c = some-injective b.content c (sym b.held ∙ held) in
      (c, b.decoded ∙ ap some (sym b.digest ∙ ap P.sha256 same), sent)
