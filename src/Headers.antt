-- ===== src/Headers.antt =====
-- src/headers.c and src/headers.h: the growing array of header fields.
-- The two strings of a field are allocated by one call of `headers_set` and freed together; `owner`
-- is the number of that call, so two slots of one owner point to the same strings. The list of
-- fields is the array of `size` slots.
pub mod Lookup
pub mod Ownership
pub mod Delete
use ntu_computer_network.Base.{
  ℕ, zero, suc, ◌+◌, ◌-◌, ◌*◌, ◌^◌, Bool, true, false, ltb, if◌then◌else◌, Option, none, some, List,
  [], ◌∷◌, ◌++◌, length, Bytes, codes, lower, bytes_eq, contains, use_after_free, double_free,
  out_of_bounds, Exec, ok, fault, ◌>>=◌, fetch, store,
}

pub record Header : Type 0 where
  pub name : Bytes
  pub value : Bytes
  pub owner : ℕ

-- `Headers`, with the number of the next call of `headers_set` and the owners whose strings have
-- been freed.
pub record Headers : Type 0 where
  pub fields : List Header
  pub next : ℕ
  pub freed : List ℕ

unfoldable pub create : Headers
create = record { fields = []; next = 0; freed = [] }

-- A null pointer is taken for "".
abbrev pub or_empty : Option Bytes → Bytes
or_empty none = []
or_empty (some s) = s

unfoldable pub set : Headers → Option Bytes → Option Bytes → Headers
set hs name value = record hs { fields = hs.fields ++ field ∷ []; next = suc hs.next }
  where
    field : Header
    field = record { name = lower (or_empty name); value = or_empty value; owner = hs.next }

-- `fields[i].name` or `fields[i].value` read as a string
abbrev pub read_name : List ℕ → Header → Exec Bytes
read_name freed h = if contains freed h.owner then fault use_after_free else ok h.name

-- The searching loop of `headers_get`, on the name in lower case.
unfoldable pub find : List ℕ → List Header → Bytes → Exec (Option Bytes)
find freed [] name = ok none
find freed (h ∷ hs) name =
    read_name freed h >>= λ n. if bytes_eq n name then ok (some h.value) else find freed hs name

unfoldable pub get : Headers → Bytes → Exec (Option Bytes)
unfolding find
get hs name = find hs.freed hs.fields (lower name)

-- The loop of `headers_delete`: the rounds left, then `i` and `deleted_count`.
unfoldable pub delete_from : ℕ → ℕ → ℕ → Bytes → Headers → Exec (ℕ × Headers)
delete_from zero i deleted name hs = ok (deleted, hs)
delete_from (suc rounds) i deleted name hs = fetch hs.fields i >>= λ h.
    read_name hs.freed h >>= λ n. elim (bytes_eq n name) [
      | true ↦
          delete_from rounds (i + 1) (deleted + 1) name (record hs { freed = h.owner ∷ hs.freed })
      | false ↦ store hs.fields (i - deleted) h >>= λ fields.
          delete_from rounds (i + 1) deleted name (record hs { fields = fields })
    ]

unfoldable pub delete : Headers → Bytes → Exec (ℕ × Headers)
unfolding delete_from
delete hs name = delete_from (length hs.fields) 0 0 name hs

-- `sprintf(buffer + length, "%s: %s\r\n", ...)`
abbrev pub header_line : Header → Bytes
header_line h = h.name ++ (codes ": " ++ (h.value ++ codes "\r\n"))

abbrev pub buffer_limit : ℕ
buffer_limit = 1024 * 1024

-- `sprintf` into a buffer of `limit` bytes, at offset `at`; the terminating NUL must fit too.
abbrev pub print_at : ℕ → ℕ → Bytes → Exec Bytes
print_at limit at text = if ltb (at + length text) limit then ok text else fault out_of_bounds

-- The loop of `headers_to_string`, from the offset `at`.
unfoldable pub print_from : List ℕ → ℕ → List Header → Exec Bytes
print_from freed at [] = ok []
print_from freed at (h ∷ hs) = read_name freed h >>= λ _.
    print_at buffer_limit at (header_line h) >>= λ line.
    print_from freed (at + length line) hs >>= λ rest. ok (line ++ rest)

unfoldable pub to_string : Headers → Exec Bytes
unfolding print_from
to_string hs = print_from hs.freed 0 hs.fields

-- The freeing loop of `headers_destroy`: the owners freed before, then after.
unfoldable pub free_all : List ℕ → List Header → Exec (List ℕ)
free_all freed [] = ok freed
free_all freed (h ∷ hs) =
    if contains freed h.owner then fault double_free else free_all (h.owner ∷ freed) hs

unfoldable pub destroy : Headers → Exec (List ℕ)
unfolding free_all
destroy hs = free_all hs.freed hs.fields
