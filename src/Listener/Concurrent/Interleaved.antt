-- ===== src/Listener/Concurrent/Interleaved.antt =====
-- Handlers in any order of their steps: every entry of the manifest stays backed.
use htvend.Base.{
  ◌≡◌, refl, sym, ◌∙◌, ◌≢◌, ◌==◌, nat_eq, some, [], ◌∷◌, inl, inr, ℕ, List, subst, some-injective,
  if◌then◌else◌, Bool-cases, ==_sound, ==_refl, false,
}
use htvend.Platform.{Platform, IsPlatform}
use htvend.Lockfile.{Codec, Urls}
use htvend.Re.{Engine}
use htvend.Blobstore.{Store}
use htvend.Blobstore.Shared.{IsShared}
use htvend.Listener.Reply.{Reply}
use htvend.Listener.{Request, Client, Site, ListenerCtx}
use htvend.Listener.Backed.{IsSiteBacked}
use htvend.Listener.Concurrent.{
  Handler, Proxied, arrived, found, asking, answering, copying, committing, recording, cleaning,
  ended, step, turn, interleaved,
}
use htvend.Listener.Concurrent.Invariant.{
  IsSound, IsApartFrom, AreApart, IsStep, blob_of, IsSound-other,
}
use htvend.Listener.Concurrent.Steps.{
  IsGoodStep, arrived-IsGoodStep, found-IsGoodStep, asking-IsGoodStep, answering-IsGoodStep,
}
use htvend.Listener.Concurrent.Writing.{
  copying-IsGoodStep, committing-IsGoodStep, recording-IsGoodStep, cleaning-IsGoodStep,
  ended-IsGoodStep,
}

module _ {P : Platform} {S : Store} (X : IsShared P S) where
  module _ {U : Urls} where
    IsApartFrom-blob :
        (h : Handler S U) (b b' : S.Blob)
        → IsApartFrom X h b'
        → blob_of X h ≡ some b
        → X.IsApart b b'
    IsApartFrom-blob (arrived r w) x b' k e = absurd (cc)
    IsApartFrom-blob (found bi w) x b' k e = absurd (cc)
    IsApartFrom-blob (asking r u w) x b' k e = absurd (cc)
    IsApartFrom-blob (answering u resp w) x b' k e = absurd (cc)
    IsApartFrom-blob (copying u resp ps b w) x b' k e =
        subst (λ c. X.IsApart c b') (some-injective b x e) k
    IsApartFrom-blob (committing u resp b w) x b' k e =
        subst (λ c. X.IsApart c b') (some-injective b x e) k
    IsApartFrom-blob (recording u resp d b w) x b' k e =
        subst (λ c. X.IsApart c b') (some-injective b x e) k
    IsApartFrom-blob (cleaning resp r b w) x b' k e =
        subst (λ c. X.IsApart c b') (some-injective b x e) k
    IsApartFrom-blob (ended r w n) x b' k e = absurd (cc)

    blob-IsApartFrom :
        (h : Handler S U) (b' : S.Blob)
        → ((b : S.Blob) → blob_of X h ≡ some b → X.IsApart b b')
        → IsApartFrom X h b'
    blob-IsApartFrom (arrived r w) b' k = tt
    blob-IsApartFrom (found bi w) b' k = tt
    blob-IsApartFrom (asking r u w) b' k = tt
    blob-IsApartFrom (answering u resp w) b' k = tt
    blob-IsApartFrom (copying u resp ps b w) b' k = k b refl
    blob-IsApartFrom (committing u resp b w) b' k = k b refl
    blob-IsApartFrom (recording u resp d b w) b' k = k b refl
    blob-IsApartFrom (cleaning resp r b w) b' k = k b refl
    blob-IsApartFrom (ended r w n) b' k = tt

    IsSound-Owns :
        (h : Handler S U) (s : S.State) (b : S.Blob)
        → IsSound X s h
        → blob_of X h ≡ some b
        → X.Owns b s
    IsSound-Owns (arrived r w) s x k e = absurd (cc)
    IsSound-Owns (found bi w) s x k e = absurd (cc)
    IsSound-Owns (asking r u w) s x k e = absurd (cc)
    IsSound-Owns (answering u resp w) s x k e = absurd (cc)
    IsSound-Owns (copying u resp ps b w) s x k e =
        subst (λ c. X.Owns c s) (some-injective b x e) k.0.1
    IsSound-Owns (committing u resp b w) s x k e =
        subst (λ c. X.Owns c s) (some-injective b x e) k.0.1
    IsSound-Owns (recording u resp d b w) s x k e =
        subst (λ c. X.Owns c s) (some-injective b x e) k.0.1
    IsSound-Owns (cleaning resp r b w) s x k e = subst (λ c. X.Owns c s) (some-injective b x e) k.1
    IsSound-Owns (ended r w n) s x k e = absurd (cc)

    AreApart-sym : (h h' : Handler S U) → AreApart X h h' → AreApart X h' h
    AreApart-sym h h' k b e =
        blob-IsApartFrom h' b (λ b' e'. X.sym_apart b b' (IsApartFrom-blob h b b' (k b' e') e))

    -- A step of `h` keeps it apart from another handler.
    AreApart-step :
        (h h1 h' : Handler S U) (s s1 : S.State)
        → IsStep X h s h1 s1
        → IsSound X s h'
        → AreApart X h h'
        → AreApart X h1 h'
    AreApart-step h h1 h' s s1 k sound apart b e =
        (k.others b (IsSound-Owns h' s b sound e) (apart b e)).0

  -- The manifest is backed, each handler is sound, and no two write one blob.
  pub record IsConsistent {C : Codec} {E : Engine} {U : Urls} (p : Proxied C E S U) : Type 0 where
    pub backed : IsSiteBacked X.lawful p.site
    pub sound : (i : ℕ) → IsSound X p.site.blobs (p.handlers i)
    pub apart : (i j : ℕ) → i ≢ j → AreApart X (p.handlers i) (p.handlers j)

  -- Handlers that have not begun are consistent with any backed site.
  pub started-IsConsistent :
      {C : Codec} {E : Engine} {U : Urls} (site : Site C E S) (r : ℕ → Request) (w : ℕ → Reply)
      → IsSiteBacked X.lawful site
      → IsConsistent {U = U} (record { site = site; handlers = λ i. arrived (r i) (w i) })
  started-IsConsistent site r w k = record { backed = k; sound = λ i. tt; apart = λ i j _ b e. tt }

module _ {P : Platform} (LP : IsPlatform P) {S : Store} (X : IsShared P S) where
  module _ {C : Codec} {E : Engine} (U : Urls) (lctx : ListenerCtx E) (client : Client) where
    step-IsGoodStep :
        (h : Handler S U) (site : Site C E S)
        → IsSiteBacked X.lawful site
        → IsSound X site.blobs h
        → IsGoodStep LP X U lctx h site (step U lctx client h site)
    step-IsGoodStep (arrived r w) site k x = arrived-IsGoodStep LP X U lctx client r w site k
    step-IsGoodStep (found bi w) site k x = found-IsGoodStep LP X U lctx client bi w site k
    step-IsGoodStep (asking r u w) site k x = asking-IsGoodStep LP X U lctx client r u w site k
    step-IsGoodStep (answering u resp w) site k x =
        answering-IsGoodStep LP X U lctx client u resp w site k
    step-IsGoodStep (copying u resp ps b w) site k x =
        copying-IsGoodStep LP X U lctx client u resp ps b w site k x
    step-IsGoodStep (committing u resp b w) site k x =
        committing-IsGoodStep LP X U lctx client u resp b w site k x
    step-IsGoodStep (recording u resp d b w) site k x =
        recording-IsGoodStep LP X U lctx client u resp d b w site k x
    step-IsGoodStep (cleaning resp r b w) site k x =
        cleaning-IsGoodStep LP X U lctx client resp r b w site k x
    step-IsGoodStep (ended r w n) site k x = ended-IsGoodStep LP X U lctx client r w n site k

    turned :
        (i : ℕ) (p : Proxied C E S U) (h1 : Handler S U) (site1 : Site C E S)
        → IsConsistent X p
        → IsGoodStep LP X U lctx (p.handlers i) p.site (h1, site1)
        → IsConsistent X
            (record { site = site1; handlers = λ j. if j == i then h1 else p.handlers j })
    turned i p h1 site1 k g = record {
      backed = g.backed;
      sound = λ j. elim (Bool-cases (j == i)) [
        | inl same ↦ rw same g.step.sound
        | inr other ↦ rw other (
            IsSound-other X (p.handlers i) (p.handlers j) p.site.blobs site1.blobs g.step.grown
              (λ b' own apart. (g.step.others b' own apart).1) (k.apart i j (λ e. ne j other e))
              (k.sound j))
      ];
      apart = λ j l different. elim (Bool-cases (j == i)) [
        | inl same ↦ elim (Bool-cases (l == i)) [
          | inl also ↦ absurd (different (==_sound j i same ∙ sym (==_sound l i also)))
          | inr other ↦ rw (same, other) (beside l other)
        ]
        | inr apart_j ↦ elim (Bool-cases (l == i)) [
          | inl here ↦ rw (apart_j, here) (AreApart-sym X h1 (p.handlers j) (beside j apart_j))
          | inr other ↦ rw (apart_j, other) (k.apart j l different)
        ]
      ];
    }
      where
        ne : (j : ℕ) → (j == i) ≡ false → i ≢ j
        ne j other e = absurd (let q = rw (e, ==_refl) at other in cc)

        beside : (l : ℕ) → (l == i) ≡ false → AreApart X h1 (p.handlers l)
        beside l other =
            AreApart-step X (p.handlers i) h1 (p.handlers l) p.site.blobs site1.blobs g.step
              (k.sound l) (k.apart i l (ne l other))

    turn-IsConsistent :
        (i : ℕ) (p : Proxied C E S U) → IsConsistent X p → IsConsistent X (turn U lctx client i p)
    unfolding turn
    turn-IsConsistent i p k =
        let (h1, site1) = step U lctx client (p.handlers i) p.site in
        turned i p h1 site1 k (step-IsGoodStep (p.handlers i) p.site k.backed (k.sound i))

    -- For any store of which several blobs can be written at a time: however the steps of any number
    -- of handlers interleave, whatever each request, the upstream's answers and the failures of the
    -- store are, if at first every entry of the manifest names bytes that the store holds under
    -- their own digest, then this is so after every step; a handler that has found an entry can be
    -- served its bytes whatever the others do; no two handlers write one blob; the blob of one that
    -- copies holds exactly the chunks of its response's body before those that are left, and when it
    -- commits the whole body, which has not broken; and a digest that is to be recorded is that of
    -- the whole body, and its bytes are stored.
    pub interleaved-IsConsistent :
        (is : List ℕ) (p : Proxied C E S U)
        → IsConsistent X p
        → IsConsistent X (interleaved U lctx client is p)
    unfolding interleaved
    interleaved-IsConsistent [] p k = k
    interleaved-IsConsistent (i ∷ is) p k =
        interleaved-IsConsistent is (turn U lctx client i p) (turn-IsConsistent i p k)
