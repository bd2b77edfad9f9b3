-- ===== src/Blobstore/Registry.antt =====
-- cli/internal/blobstore/registry/reg_store.go: a store in a container registry, over its HTTP
-- protocol.
pub mod Uploaded
use htvend.Base.{
  ℕ, ◌+◌, ◌-◌, ◌==◌, ◌<>◌, String, Bool, true, false, not, Option, none, some, List, [], ◌∷◌, ◌++◌,
}
use htvend.Base.{Bytes, length, take, string_eq, nat_eq, if◌then◌else◌}
use htvend.Base.Dict.{Dict}
use htvend.Base.Hex.{encode}
use htvend.Base.Error.{Error, message, wrap, sentinel, blob_not_exist, Result, ok, err}
use htvend.Platform.{Platform}
use htvend.Stream.{Reader}
use htvend.Lockfile.{Outcome, returns, panics}
use htvend.Listener.{Response, status_ok, status_not_found}
use htvend.Auth.{get_header}
use htvend.Base.Text.{has_suffix}

-- A request to the registry; the headers are those that the program sets.
pub record Sent : Type 0 where
  pub method : String
  pub url : String
  pub headers : Dict String String
  pub body : Bytes

-- The HTTP client: how many bytes of the request's body it reads and what it answers, which may
-- depend on all that was sent before; whether http.NewRequest takes a URL; and decimals, which also
-- stand for the text of a status.
pub record Network : Type 0 where
  pub answer : List Sent → Sent → ℕ × Result Response
  pub new_request : String → Result (Unit {0})
  pub decimal : ℕ → String

-- What was sent, the oldest first.
abbrev pub Log : Type 0
Log = List Sent

pub record RegistryStore : Type 0 where
  pub base : String
  pub writable : Bool

-- `digest` is what the hash has taken, until it is set to nil.
pub record BlobBeingUploaded : Type 0 where
  pub url : String
  pub digest : Option Bytes
  pub bw : ℕ

abbrev pub status_created : ℕ
status_created = 201

abbrev pub status_accepted : ℕ
status_accepted = 202

abbrev pub status_no_content : ℕ
status_no_content = 204

-- NewRegistryStore
unfoldable pub new_registry_store : String → Bool → RegistryStore
new_registry_store url writable = record {
  base = if has_suffix url "/" then url else url <> "/";
  writable = writable;
}

abbrev pub destroy : RegistryStore → Result (Unit {0})
destroy r = err (message "destroy not implemented for registry store")

abbrev pub remove_except : RegistryStore → List String → Result (Unit {0})
remove_except r keep = err (message "RemoveExcept not implemented for registry store")

module _ (N : Network) where
  -- client.Do
  unfoldable pub call : Sent → Log → (ℕ × Result Response) × Log
  call r log = (N.answer log r, log ++ (r ∷ []))

  abbrev pub plain : String → String → Sent
  plain method url = record { method = method; url = url; headers = []; body = [] }

  abbrev blob_url : RegistryStore → Bytes → String
  blob_url r k = r.base <> "blobs/sha256:" <> encode k

  checked : Result Response → Result Bool
  checked (err e) = err (wrap "error checking blob existence from registry store" e)
  checked (ok resp) =
      if resp.status_code == status_ok
      then ok true
      else if resp.status_code == status_not_found
      then ok false
      else err (
          message
            ("bad status code in registry store for HEAD blob: " <> N.decimal resp.status_code))

  -- Exists
  unfoldable pub exists : RegistryStore → Bytes → Log → Result Bool × Log
  unfolding call checked
  exists r k log = let ((n, x), log') = call (plain "HEAD" (blob_url r k)) log in (checked x, log')

  fetched : Result Response → Result Reader
  fetched (err e) = err (wrap "error fetching blob from registry store" e)
  fetched (ok resp) =
      if resp.status_code == status_ok
      then ok resp.body
      else if resp.status_code == status_not_found
      then err (wrap "can't find blob in registry" (sentinel blob_not_exist))
      else err
          (message ("bad status code in registry store for blob: " <> N.decimal resp.status_code))

  -- Get
  unfoldable pub get : RegistryStore → Bytes → Log → Result Reader × Log
  unfolding call fetched
  get r k log = let ((n, x), log') = call (plain "GET" (blob_url r k)) log in (fetched x, log')

  located : String → Result BlobBeingUploaded
  located location =
      if location == ""
      then err (message "no location returned therefore cannot put blob!")
      else ok (record { url = location; digest = some []; bw = 0 })

  started : Result Response → Result BlobBeingUploaded
  unfolding located
  started (err e) = err (wrap "error fetching blob from registry store" e)
  started (ok resp) =
      if resp.status_code == status_accepted
      then (elim resp.body.closing [
        | err e ↦ err (wrap "unexpected error on close" e)
        | ok _ ↦ located (get_header "Location" resp.headers)
      ])
      else err (
          message
            ("bad status code in registry store for putting blob: " <> N.decimal resp.status_code))

  -- Put
  unfoldable pub put : RegistryStore → Log → Result BlobBeingUploaded × Log
  unfolding call started
  put r log =
      if not r.writable
      then (err (message "attempt to write to unwriteable blobstore"), log)
      else (let ((n, x), log') = call (plain "POST" (r.base <> "blobs/uploads/")) log in
          (started x, log'))

  -- The PATCH of a Write
  unfoldable pub patch : Bytes → BlobBeingUploaded → Sent
  patch bb b = record {
    method = "PATCH";
    url = b.url;
    headers =
        ("Content-Length", N.decimal (length bb))
        ∷ (("Content-Type", "application/octet-stream")
            ∷ ((
              "Content-Range",
              "bytes " <> N.decimal b.bw <> "-" <> N.decimal (b.bw + length bb - 1) <> "/*",
            )
                ∷ []));
    body = bb;
  }

  -- From the answer to the PATCH on.
  unfoldable pub patched :
      Bytes → BlobBeingUploaded → Result Response → (ℕ × Option Error) × BlobBeingUploaded
  patched bb b (err e) = ((0, some (wrap "error doing PATCH" e)), b)
  patched bb b (ok resp) =
      if not (resp.status_code == status_accepted)
      then ((0, some (message ("bad status code: " <> N.decimal resp.status_code))), b)
      else (let location = get_header "Location" resp.headers in
          if location == ""
          then ((0, some (message "no location set on response!")), b)
          else ((length bb, none), record b { url = location; bw = b.bw + length bb }))

  -- Write of some bytes to a blob that is not done. The tee hashes what the client reads.
  unfoldable pub write_some :
      Bytes → Bytes → BlobBeingUploaded → Log → (ℕ × Option Error) × BlobBeingUploaded × Log
  unfolding call patch patched
  write_some bb hashed b log = elim (N.new_request b.url) [
    | err e ↦ ((0, some (wrap "error making PATCH req" e)), b, log)
    | ok _ ↦
        let ((n, x), log') = call (patch bb b) log in
        let (r, b') = patched bb (record b { digest = some (hashed ++ take n bb) }) x in
        (r, b', log')
  ]

  -- Write. A blob that is done has no hash, which panics once the client reads the body.
  unfoldable pub write :
      Bytes → BlobBeingUploaded → Log → Outcome (ℕ × Option Error) × BlobBeingUploaded × Log
  unfolding write_some
  write [] b log = (returns (0, none), b, log)
  write (x ∷ bb) b log = elim b.digest [
    | none ↦ elim (N.new_request b.url) [
      | err e ↦ (returns (0, some (wrap "error making PATCH req" e)), b, log)
      | ok _ ↦ (panics, b, log)
    ]
    | some hashed ↦ let (r, b', log') = write_some (x ∷ bb) hashed b log in (returns r, b', log')
  ]

  unfoldable pub created :
      Bytes → BlobBeingUploaded → Result Response → Result Bytes × BlobBeingUploaded
  created digest b (err e) = (err (wrap "error doing PUT" e), b)
  created digest b (ok resp) =
      if not (resp.status_code == status_created)
      then (err (message ("bad status code from COMMIT: " <> N.decimal resp.status_code)), b)
      else (ok digest, record b { digest = none })

  -- The PUT of a Commit
  unfoldable pub finish : Bytes → BlobBeingUploaded → Sent
  finish digest b = record {
    method = "PUT";
    url = b.url <> "&digest=sha256:" <> encode digest;
    headers = ("Content-Length", "0") ∷ (("Content-Type", "application/octet-stream") ∷ []);
    body = [];
  }

  unfoldable pub commit_digest :
      Bytes → BlobBeingUploaded → Log → Result Bytes × BlobBeingUploaded × Log
  unfolding call created finish
  commit_digest digest b log = elim (N.new_request (finish digest b).url) [
    | err e ↦ (err (wrap "error making PUT req" e), b, log)
    | ok _ ↦
        let ((n, x), log') = call (finish digest b) log in
        let (r, b') = created digest b x in (r, b', log')
  ]

  -- Commit. A blob that is done has no hash to ask.
  unfoldable pub commit :
      Platform → BlobBeingUploaded → Log → Outcome (Result Bytes) × BlobBeingUploaded × Log
  unfolding commit_digest
  commit P b log = elim b.digest [
    | none ↦ (panics, b, log)
    | some hashed ↦
        let (r, b', log') = commit_digest (P.sha256 hashed) b log in (returns r, b', log')
  ]

  deleted : BlobBeingUploaded → Result Response → Result (Unit {0}) × BlobBeingUploaded
  deleted b (err e) = (err (wrap "error doing PATCH" e), b)
  deleted b (ok resp) =
      if not (resp.status_code == status_no_content)
      then (err (message ("bad status code: " <> N.decimal resp.status_code)), b)
      else (ok tt, record b { digest = none })

  -- Cleanup
  unfoldable pub cleanup : BlobBeingUploaded → Log → Result (Unit {0}) × BlobBeingUploaded × Log
  unfolding call deleted
  cleanup b log = elim b.digest [
    | none ↦ (ok tt, b, log)
    | some _ ↦ elim (N.new_request b.url) [
      | err e ↦ (err (wrap "error making DELETE req" e), b, log)
      | ok _ ↦
          let ((n, x), log') = call (plain "DELETE" b.url) log in
          let (r, b') = deleted b x in (r, b', log')
    ]
  ]
