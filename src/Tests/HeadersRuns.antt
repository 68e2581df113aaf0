-- ===== src/Tests/HeadersRuns.antt =====
-- The header fields of headers.c on two fields.
use ntu_computer_network.Base.{
  ◌≡◌, refl, none, some, List, [], ◌∷◌, ◌++◌, arith, if◌then◌else◌, Bytes, codes, length,
  double_free, ok, fault, ◌>>=◌, bytes_eq, tolower, lower,
}
use ntu_computer_network.Headers.{Header, Headers, set, get, delete, destroy}
use ntu_computer_network.Headers.Lookup.{pairs, first_value, or_else, get-set, get-first_value}
use ntu_computer_network.Headers.Ownership.{IsIntact}
use ntu_computer_network.Headers.Delete.{matches, others, delete-others, destroy-delete}

abbrev host : Bytes
host = codes "host"

abbrev big_host : Bytes
big_host = codes "Host"

abbrev two_fields : Headers
two_fields = record {
  fields =
      record { name = host; value = codes "a"; owner = 0 }
      ∷ record { name = codes "accept"; value = codes "b"; owner = 1 }
      ∷ [];
  next = 2;
  freed = [];
}

two_fields-IsIntact : IsIntact two_fields
unfolding tolower
two_fields-IsIntact = record {
  unfreed = refl;
  numbered = (refl, (refl, refl));
  lower_case = (refl, (refl, tt));
}

get-set_example : get (set two_fields (some big_host) (some (codes "c"))) host ≡ (
    get two_fields host >>= λ found.
    ok (or_else found (if bytes_eq (lower big_host) (lower host) then some (codes "c") else none)))
get-set_example = get-set two_fields big_host (codes "c") host refl

get-first_value_example :
    get two_fields big_host ≡ ok (first_value (lower big_host) (pairs two_fields.fields))
get-first_value_example = get-first_value two_fields big_host refl

delete-others_example :
    (after : Headers) × (stale : List Header) × (delete two_fields host
      ≡ ok (matches host two_fields.fields, after))
    × (after.fields ≡ others host two_fields.fields ++ stale)
    × (length stale ≡ matches host two_fields.fields)
delete-others_example = delete-others host two_fields-IsIntact

destroy-delete_example :
    (after : Headers) × (delete two_fields host ≡ ok (matches host two_fields.fields, after))
    × (destroy after ≡ fault double_free)
unfolding matches bytes_eq
destroy-delete_example = destroy-delete host two_fields-IsIntact (omega arith)
