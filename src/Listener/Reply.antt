-- ===== src/Listener/Reply.antt =====
-- Package net/http as a server: the http.ResponseWriter of a request.
use Prim.Native.Char.{code}
use htvend.Base.{String, Option, none, some, List, [], ◌∷◌, ◌++◌, ℕ}
use htvend.Base.{Bytes, length, take, string_eq}
use htvend.Base.Dict.{Dict, lookup, insert, erase}
use htvend.Base.Error.{Error, message}
use htvend.Blobstore.Disk.{Fault, pass, fail}
use htvend.Listener.{Headers}

-- `sent` has the status and the headers once they are written. `faults` says which writes to the
-- client fail, and after how many bytes.
pub record Reply : Type 0 where
  pub header : Headers
  pub sent : Option (ℕ × Headers)
  pub body : Bytes
  pub faults : List Fault

abbrev more_values : Option (String × List String) → String → String × List String
more_values none v = (v, [])
more_values (some (first, rest)) v = (first, rest ++ (v ∷ []))

-- w.Header().Add
unfoldable pub add_value : String → String → Reply → Reply
add_value k v w = record w { header = insert k (more_values (lookup k w.header) v) w.header }

-- w.Header().Set
unfoldable pub set_value : String → String → Reply → Reply
set_value k v w = record w { header = insert k (v, []) w.header }

-- w.WriteHeader; only the first call has an effect
unfoldable pub write_header : ℕ → Reply → Reply
write_header status w = elim w.sent [
  | none ↦ record w { sent = some (status, w.header) }
  | some _ ↦ w
]

abbrev client_gone : Error
client_gone = message "write: connection reset by peer"

-- w.Write, which writes the header 200 if none was written
unfoldable pub write_body : Bytes → Reply → (ℕ × Option Error) × Reply
unfolding write_header
write_body p w =
    let w' = write_header 200 w in
    elim w'.faults [
      | [] ↦ ((length p, none), record w' { body = w'.body ++ p })
      | f ∷ fs ↦ elim f [
        | pass ↦ ((length p, none), record w' { body = w'.body ++ p; faults = fs })
        | fail n ↦ (
          (length (take n p), some client_gone),
          record w' { body = w'.body ++ take n p; faults = fs },
        )
      ]
    ]

-- The bytes of an ASCII text.
abbrev pub text_bytes : String → Bytes
text_bytes String.[] = []
text_bytes (String.◌∷◌ c s) = code c ∷ text_bytes s

-- http.Error
unfoldable pub http_error : String → ℕ → Reply → Reply
unfolding write_header write_body set_value
http_error text status w =
    let w1 = record w { header = erase "Content-Length" w.header } in
    let w2 = set_value "Content-Type" "text/plain; charset=utf-8" w1 in
    let w3 = set_value "X-Content-Type-Options" "nosniff" w2 in
    (write_body (text_bytes text ++ (10 ∷ [])) (write_header status w3)).1

abbrev add_all_values : String → List String → Reply → Reply
add_all_values k [] w = w
add_all_values k (v ∷ vs) w = add_all_values k vs (add_value k v w)

-- `for k, v := range header { for _, v1 := range v { w.Header().Add(k, v1) } }`
unfoldable pub add_headers : Headers → Reply → Reply
unfolding add_value
add_headers [] w = w
add_headers ((k, (v, vs)) ∷ hs) w = add_headers hs (add_all_values k vs (add_value k v w))

-- `for k, v := range headers { hdrs.Set(k, v) }`
unfoldable pub set_headers : Dict String String → Reply → Reply
unfolding set_value
set_headers [] w = w
set_headers ((k, v) ∷ hs) w = set_headers hs (set_value k v w)
