-- ===== src/Blobstore/Growth.antt =====
-- What a blob store may do to the bytes it holds: leave them, or put bytes under their own digest.
use htvend.Base.{◌≡◌, refl, sym, ◌∙◌, ◌==◌, ◌⊎◌, inl, inr, String, some, arith}
use htvend.Base.{Bytes, IsBytes, list_eq, nat_eq, Bool-cases, ==_sound}
use htvend.Base.Hex.{decode}
use htvend.Base.Error.{Error, Result, ok, err}
use htvend.Platform.{Platform}
use htvend.Blobstore.{Store, IsLawful}

module _ {P : Platform} {S : Store} (L : IsLawful P S) where
  -- At every key, the later state holds what the earlier one held, or bytes with that digest.
  pub record Grows (s s' : S.State) : Type 0 where
    pub at_key :
        (j : Bytes)
        → IsBytes j
        → (L.view s' j ≡ L.view s j) ⊎ ((c : Bytes) × (L.view s' j ≡ some c) × (P.sha256 c ≡ j))

  pub Grows-same :
      (s s' : S.State) → ((j : Bytes) → IsBytes j → L.view s' j ≡ L.view s j) → Grows s s'
  Grows-same s s' h = record { at_key = λ j b. inl (h j b) }

  pub Grows-trans : (s t u : S.State) → Grows s t → Grows t u → Grows s u
  Grows-trans s t u g h = record { at_key = λ j b. ground (arith, g.at_key j b, h.at_key j b) }

  -- A digest's text that stands for bytes which the store holds, under their own digest.
  pub record IsBacked (s : S.State) (sha256 : String) : Type 0 where
    pub key : Bytes
    pub content : Bytes
    pub decoded : decode sha256 ≡ some key
    pub bytes : IsBytes key
    pub held : L.view s key ≡ some content
    pub digest : P.sha256 content ≡ key

  -- What is backed stays backed.
  pub IsBacked-Grows : (s s' : S.State) (h : String) → Grows s s' → IsBacked s h → IsBacked s' h
  IsBacked-Grows s s' h g b = go (g.at_key b.key b.bytes)
    where
      go :
          (L.view s' b.key ≡ L.view s b.key)
            ⊎ ((c : Bytes) × (L.view s' b.key ≡ some c) × (P.sha256 c ≡ b.key))
          → IsBacked s' h
      go (inl same) = record {
        key = b.key;
        content = b.content;
        decoded = b.decoded;
        bytes = b.bytes;
        held = same ∙ b.held;
        digest = b.digest;
      }
      go (inr (c, held, digest)) = record {
        key = b.key;
        content = c;
        decoded = b.decoded;
        bytes = b.bytes;
        held = held;
        digest = digest;
      }

  pub Grows-put : (s : S.State) → Grows s (S.put s).1
  Grows-put s = Grows-same s (S.put s).1 (λ j _. L.view-put j s)

  pub Grows-get : (k : Bytes) (s : S.State) → Grows s (S.get k s).1
  Grows-get k s = Grows-same s (S.get k s).1 (λ j _. L.view-get k j s)

  pub Grows-write : (p : Bytes) (b : S.Blob) (s : S.State) → L.IsLive b → Grows s (S.write p b s).2
  Grows-write p b s live = Grows-same s (S.write p b s).2 (λ j h. L.view-write p b s j h live)

  pub Grows-cleanup : (b : S.Blob) (s : S.State) → L.IsLive b → Grows s (S.cleanup b s).2
  Grows-cleanup b s live = Grows-same s (S.cleanup b s).2 (λ j h. L.view-cleanup b s j h live)

  pub Grows-commit_err :
      (b : S.Blob) (s : S.State) (c : Bytes) (e : Error)
      → L.IsLive b
      → L.Holds b s c
      → (S.commit b s).0 ≡ err e
      → Grows s (S.commit b s).2
  Grows-commit_err b s c e live held h = record {
    at_key = λ j bytes. elim (L.commit_err b s c e j bytes live held h) [
      | inl same ↦ inl same
      | inr (stored, digest) ↦ inr (c, stored, digest)
    ];
  }

  pub Grows-commit_ok :
      (b : S.Blob) (s : S.State) (c d : Bytes)
      → L.IsLive b
      → L.Holds b s c
      → (S.commit b s).0 ≡ ok d
      → Grows s (S.commit b s).2
  Grows-commit_ok b s c d live held h = record {
    at_key = λ j bytes.
        let (digest, view) = L.commit_ok b s c d j bytes live held h in
        elim (Bool-cases (j == d)) [
          | inl same ↦ inr (c, rw same at view, sym (==_sound j d same ∙ digest))
          | inr other ↦ inl (rw other at view)
        ];
  }

  pub Grows-commit :
      (b : S.Blob) (s : S.State) (c : Bytes) → L.IsLive b → L.Holds b s c → Grows s (S.commit b s).2
  Grows-commit b s c live held = go (S.commit b s).0 refl
    where
      go : (r : Result Bytes) → (S.commit b s).0 ≡ r → Grows s (S.commit b s).2
      go (ok d) e = Grows-commit_ok b s c d live held e
      go (err x) e = Grows-commit_err b s c x live held e
