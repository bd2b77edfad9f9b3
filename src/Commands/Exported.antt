-- ===== src/Commands/Exported.antt =====
-- A whole export: what the destination has after it.
use htvend.Base.{
  ◌≡◌, refl, sym, subst, ap, ◌∙◌, String, true, Option, none, some, List, [], ◌∷◌, ◌==◌, inl, inr,
}
use htvend.Base.{
  Bytes, IsBytes, contains, string_eq, Option-cases, Bool-cases, some-injective, ==_sound,
}
use htvend.Base.Dict.{lookup}
use htvend.Base.Hex.{encode, decode, decode-encode}
use htvend.Base.Error.{Error, Result, ok, defer_error, defer_error_ok}
use htvend.Platform.{Platform, IsPlatform}
use htvend.Re.{Engine}
use htvend.Lockfile.{BlobInfo, Codec, File, Place, Outcome, returns, Urls}
use htvend.Lockfile.Ops.{for_each, close}
use htvend.Blobstore.{Store, IsLawful}
use htvend.Verify.{outcome}
use htvend.Jobs.{Waits}
use htvend.Jobs.Waited.{In}
use htvend.Export.{need, export_job}
use htvend.Export.Needed.{for_each-IsNeeded}
use htvend.Export.Waited.{export_ok}
use htvend.Commands.{Surroundings, Backend}
use htvend.Commands.Export.{
  ExportCommand, queue_all, Exports, not_iterated, not_decoded, waited, export_manifest, Executes,
  panicked, unopened, storeless, exported,
}

queue_all-In :
    (shas : List String) (h : Bytes)
    → IsBytes h
    → (queue_all shas).0 ≡ ok tt
    → contains shas (encode h) ≡ true
    → In h (queue_all shas).1
unfolding queue_all
queue_all-In [] h b fine c = absurd (cc)
queue_all-In (x ∷ shas) h b fine c = elim (Option-cases (decode x)) [
  | inl bad ↦ absurd (let q = rw (bad, queue_all) at fine in cc)
  | inr (k, good) ↦ elim (Bool-cases (encode h == x)) [
    | inl here ↦
        let same : k ≡ h =
          some-injective k h
            (sym good ∙ ap decode (sym (==_sound (encode h) x here)) ∙ decode-encode h b) in
        rw (good, queue_all) (inl (sym same))
    | inr other ↦
        rw (good, queue_all)
          (inr (queue_all-In shas h b (rw (good, queue_all) at fine) (rw other at c)))
  ]
]

outcome-none : (rv : Option Error) → outcome rv ≡ ok tt → rv ≡ none
unfolding outcome
outcome-none none h = refl
outcome-none (some e) h = absurd (cc)

module _ {P : Platform} (LP : IsPlatform P) (U : Urls) (S : Store) {D : Store}
    (L : IsLawful P D) where
  Exports-view :
      {E : Engine} (f : File E) (s : S.State) (d : D.State) (r : Result (Unit {0}))
      (sd : S.State × D.State)
      → Exports U S D f s d r sd
      → r ≡ ok tt
      → (k : String) (v : BlobInfo) (h : Bytes) → lookup k f.blobs ≡ some v
      → decode v.sha256 ≡ some h
      → IsBytes h
      → (h ≡ [] → ⊥)
      → (c : Bytes) × (L.view sd.1 h ≡ some c)
  Exports-view f s d _ _ (not_iterated e q) fine k v h held decoded b some_key = absurd (cc)
  Exports-view f s d _ _ (not_decoded e m q1 q2 q3) fine k v h held decoded b some_key = absurd (cc)
  Exports-view f s d _ _ (waited rv sd all queued waits) fine k v h held decoded b some_key =
      let (h', decoded', listed) = for_each-IsNeeded U f all k v held in
      let same : h' ≡ h = some-injective h' h (sym decoded' ∙ decoded) in
      let shas = (for_each U (need U) f []).1 in
      let clean : Waits (export_job S D) (queue_all shas).1 (s, d) none sd =
        subst (λ (x : Option Error). Waits (export_job S D) (queue_all shas).1 (s, d) x sd)
          (outcome-none rv fine) waits in
      export_ok LP S L (queue_all shas).1 s sd.0 d sd.1 clean h
        (queue_all-In shas h b queued
          (subst (λ (x : Bytes). contains shas (encode x) ≡ true) same listed))
        b some_key

-- The destination of an export, and a digest's blob in it.
abbrev pub HasBlob :
    {P : Platform} (stores : Backend → Store)
    → ((b : Backend) → IsLawful P (stores b))
    → Option ((b : Backend) × (stores b).State)
    → Bytes
    → Type 0
HasBlob stores L none h = ⊥
HasBlob stores L (some (dst, d')) h = (c : Bytes) × ((L dst).view d' h ≡ some c)

-- The manifest that an export reads has an entry with this digest.
abbrev pub Lists : {C : Codec} → Engine → ExportCommand → Place C → Bytes → Type 0
Lists E rc p h =
    (f : File E) × (k : String) × (v : BlobInfo) × ((export_manifest E rc p).0 ≡ returns (ok f))
    × (lookup k f.blobs ≡ some v)
    × (decode v.sha256 ≡ some h)

module _ {P : Platform} (LP : IsPlatform P) {C : Codec} (E : Engine) (U : Urls) (X : Surroundings)
    (stores : Backend → Store) (L : (b : Backend) → IsLawful P (stores b)) where
  -- An export as a whole, for any lawful stores, whatever the order in which its jobs run: if Execute
  -- returns nil, then the destination has a blob under every digest, of one byte or more, that an
  -- entry of the manifest it has read spells in hex.
  pub Executes-HasBlob :
      (rc : ExportCommand) (p p' : Place C) (s d : (b : Backend) → (stores b).State)
      (o : Outcome (Result (Unit {0}))) (used : Option ((b : Backend) × (stores b).State))
      → Executes E U X stores rc p s d o p' used
      → o ≡ returns (ok tt)
      → (h : Bytes) → Lists E rc p h
      → IsBytes h
      → (h ≡ [] → ⊥)
      → HasBlob stores L used h
  Executes-HasBlob rc p _ s d _ _ (panicked q) fine h l b some_key = absurd (cc)
  Executes-HasBlob rc p _ s d _ _ (unopened e q) fine h l b some_key = absurd (cc)
  Executes-HasBlob rc p _ s d _ _ (storeless f e q1 q2) fine h l b some_key = absurd (cc)
  Executes-HasBlob rc p _ s d _ _ (exported f src dst r s' d' opened q exports) fine h
        (g, k, v, read, held, decoded) b some_key =
      let same : f ≡ g = cc in
      let both : defer_error r (close f (export_manifest E rc p).1).0 ≡ ok tt = cc in
      Exports-view LP U (stores src) (L dst) f (s src) (d dst) r (s', d') exports
        (defer_error_ok r (close f (export_manifest E rc p).1).0 both) k v h
        (ap (λ (x : File E). lookup k x.blobs) same ∙ held) decoded b some_key
