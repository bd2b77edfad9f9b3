-- ===== src/Download/Images.antt =====
-- main of cli/cmd/download-image/download_image_main.go: the images of the command line, one after
-- the other.
use htvend.Base.{
  ◌≡◌, ◌⊎◌, refl, sym, ap, ◌∙◌, String, Option, none, some, List, [], ◌∷◌, ◌++◌, inl, inr,
  append_assoc, append-nil, All,
}
use htvend.Base.Error.{Error, Result, ok, err}
use htvend.Platform.{Platform}
use htvend.App.{Exit, returns, fatal}
use htvend.Verify.{MultiError}
use htvend.Download.{ImageName, Runtime, Getter, ImageCodec, Split, new_image_name, download_image}
use htvend.Download.Downloaded.{IsDownloaded, download_image-IsDownloaded}

-- The error so far, after one image.
unfoldable pub with_image : MultiError → Option Error → Result (Unit {0}) → Option Error
with_image multi_append rv (ok _) = rv
with_image multi_append rv (err e) = some (multi_append rv e)

-- logrus.Fatalf, if there is an error.
unfoldable pub exit_with : Option Error → Exit
exit_with none = returns
exit_with (some e) = fatal e

module _ (multi_append : MultiError) (split : Split) (P : Platform) (K : ImageCodec) (R : Runtime)
    (get : Getter) where
  -- The loop over the names, with the error so far and what was asked for so far.
  unfoldable pub download_images :
      List String → Option Error → List String → Option Error × List String
  unfolding with_image
  download_images [] rv asked = (rv, asked)
  download_images (n ∷ ns) rv asked =
      let (r, log) = download_image split P K R get n in
      download_images ns (with_image multi_append rv r) (asked ++ log)

  -- main, on os.Args[1:]
  unfoldable pub main : List String → Exit × List String
  unfolding download_images exit_with
  main names = let (rv, asked) = download_images names none [] in (exit_with rv, asked)

  abbrev pub IsImage : String → Type 0
  IsImage name =
      (img : ImageName) × (new_image_name split name ≡ ok img)
      × IsDownloaded P K R get img (download_image split P K R get name).1

  -- What the images ask for, one after the other.
  abbrev pub all_asked : List String → List String
  all_asked [] = []
  all_asked (n ∷ ns) = (download_image split P K R get n).1 ++ all_asked ns

  download_images-asked :
      (names : List String) (rv : Option Error) (asked : List String)
      → (download_images names rv asked).1 ≡ asked ++ all_asked names
  unfolding download_images
  download_images-asked [] rv asked = sym (append-nil asked)
  download_images-asked (n ∷ ns) rv asked =
      let (r, log) = download_image split P K R get n in
      download_images-asked ns (with_image multi_append rv r) (asked ++ log)
      ∙ append_assoc asked log (all_asked ns)

  abbrev IsFailed : String → Type 0
  IsFailed name = (x : Error) × ((download_image split P K R get name).0 ≡ err x)

  abbrev pub AnyFailed : List String → Type 0
  AnyFailed [] = ⊥
  AnyFailed (n ∷ ns) = IsFailed n ⊎ AnyFailed ns

  -- The errors before, and what is left after the names.
  abbrev Outcome : List String → Option Error → Option Error → Type 0
  Outcome names rv end =
      ((end ≡ rv) × All IsImage names) ⊎ ((e : Error) × (end ≡ some e) × AnyFailed names)

  Outcome-cons :
      (n : String) (ns : List String) (rv : Option Error) (r : Result (Unit {0}))
      (end : Option Error)
      → (download_image split P K R get n).0 ≡ r
      → Outcome ns (with_image multi_append rv r) end
      → Outcome (n ∷ ns) rv end
  unfolding with_image
  Outcome-cons n ns rv (ok _) end q (inl (e, good)) =
      inl (e, (download_image-IsDownloaded split P K R get n q, good))
  Outcome-cons n ns rv (err x) end q (inl (e, good)) = inr (multi_append rv x, e, inl (x, q))
  Outcome-cons n ns rv r end q (inr (y, e, bad)) = inr (y, e, inr bad)

  -- An error is never lost: it is the one there was, or that of an image.
  download_images_lem :
      (names : List String) (rv : Option Error) (asked : List String)
      → Outcome names rv (download_images names rv asked).0
  unfolding download_images
  download_images_lem [] rv asked = inl (refl, tt)
  download_images_lem (n ∷ ns) rv asked =
      let (r, log) = download_image split P K R get n in
      Outcome-cons n ns rv r (download_images (n ∷ ns) rv asked).0 refl
        (download_images_lem ns (with_image multi_append rv r) (asked ++ log))

  -- main goes on after an image that fails: it always asks for what each name on the command line
  -- asks for, in the order of the names. Then either it ends without an error, and every name was
  -- parsed and all that its image needs was asked for, or it exits with an error, and the download
  -- of an image of the command line has failed.
  pub main-IsImage :
      (names : List String)
      → ((main names).1 ≡ all_asked names)
        × ((((main names).0 ≡ returns) × All IsImage names)
            ⊎ ((e : Error) × ((main names).0 ≡ fatal e) × AnyFailed names))
  unfolding main
  main-IsImage names = (
    download_images-asked names none [],
    elim (download_images_lem names none []) [
      | inl (e, good) ↦ inl (ap exit_with e, good)
      | inr (x, e, bad) ↦ inr (x, ap exit_with e, bad)
    ],
  )
