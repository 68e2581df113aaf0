-- ===== src/Headers/Lookup.antt =====
-- What `headers_get` finds among the fields that `headers_set` has added.
use ntu_computer_network.Base.{
  ◌≡◌, refl, ap, ◌∙◌, Option, none, some, List, [], ◌∷◌, ◌++◌, Bytes, lower, bytes_eq, contains, ok,
  ◌>>=◌, if◌then◌else◌, arith,
}
use ntu_computer_network.Headers.{Header, Headers, set, find, get}

-- The fields as name and value, in the order of the array.
abbrev pub pairs : List Header → List (Bytes × Bytes)
pairs [] = []
pairs (h ∷ hs) = (h.name, h.value) ∷ pairs hs

-- The value of the first pair of that name.
pub first_value : Bytes → List (Bytes × Bytes) → Option Bytes
first_value name [] = none
first_value name ((n, v) ∷ ps) = if bytes_eq n name then some v else first_value name ps

abbrev pub or_else : Option Bytes → Option Bytes → Option Bytes
or_else none b = b
or_else (some a) b = some a

find-first_value :
    (fs : List Header) (name : Bytes) → find [] fs name ≡ ok (first_value name (pairs fs))
unfolding find first_value contains
find-first_value [] name = refl
find-first_value (h ∷ fs) name = ground (arith, find-first_value fs name)

-- As long as nothing was deleted, `headers_get` returns the value of the first field whose name is
-- the given one in lower case, and NULL where there is none.
pub get-first_value :
    (hs : Headers) (name : Bytes)
    → hs.freed ≡ []
    → get hs name ≡ ok (first_value (lower name) (pairs hs.fields))
unfolding get
get-first_value hs name e = rw e (find-first_value hs.fields (lower name))

first_value-append :
    (ps : List (Bytes × Bytes)) (n v name : Bytes)
    → first_value name (ps ++ (n, v) ∷ [])
      ≡ or_else (first_value name ps) (if bytes_eq n name then some v else none)
unfolding first_value
first_value-append [] n v name = refl
first_value-append ((m, w) ∷ ps) n v name = ground (arith, first_value-append ps n v name)

pub pairs-append : (fs gs : List Header) → pairs (fs ++ gs) ≡ pairs fs ++ pairs gs
pairs-append [] gs = refl
pairs-append (h ∷ fs) gs = ap (λ ps. (h.name, h.value) ∷ ps) (pairs-append fs gs)

-- `headers_get` after `headers_set`, when nothing was deleted: an earlier field of the name wins,
-- then the one just set if the two names differ in case only, and no other answer changes.
pub get-set :
    (hs : Headers) (n v name : Bytes)
    → hs.freed ≡ []
    → get (set hs (some n) (some v)) name ≡ (
        get hs name >>= λ found.
        ok (or_else found (if bytes_eq (lower n) (lower name) then some v else none)))
unfolding set
get-set hs n v name e =
    get-first_value (set hs (some n) (some v)) name e
    ∙ rw (
      get-first_value hs name e,
      pairs-append hs.fields (record { name = lower n; value = v; owner = hs.next } ∷ []),
      first_value-append (pairs hs.fields) (lower n) v (lower name),
    )
