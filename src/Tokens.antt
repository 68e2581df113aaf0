-- ===== src/Tokens.antt =====
-- What the code uses of the C library on strings in a buffer: `strtok`, `strlen`, and reading a
-- string. A buffer is the array with every byte of it, NULs included; a pointer into it is an index.
-- To read on past the end of the array is a fault.
use ntu_computer_network.Base.{
  ℕ, zero, suc, ◌+◌, Bool, true, false, ◌||◌, ◌==◌, if◌then◌else◌, Option, none, some, List, [],
  ◌∷◌, drop, contains, Bytes, out_of_bounds, Exec, ok, fault, ◌>>=◌, fetch, store,
}
pub mod Bounds
pub mod Laws
pub mod Words

abbrev pub Buffer : Type 0
Buffer = List ℕ

-- `strspn`
unfoldable pub strspn : List ℕ → Buffer → ℕ
strspn ds [] = 0
strspn ds (c ∷ cs) = if contains ds c then suc (strspn ds cs) else 0

-- `strcspn`, which stops at the NUL too
unfoldable pub strcspn : List ℕ → Buffer → ℕ
strcspn ds [] = 0
strcspn ds (c ∷ cs) = if c == 0 || contains ds c then 0 else suc (strcspn ds cs)

-- The string that a pointer points to, without its NUL.
unfoldable pub cstring : Buffer → Exec Bytes
cstring [] = fault out_of_bounds
cstring (c ∷ cs) = if c == 0 then ok [] else (cstring cs >>= λ s. ok (c ∷ s))

abbrev pub string_at : Buffer → ℕ → Exec Bytes
string_at buffer p = cstring (drop p buffer)

-- What `strtok` returns, NULL for `none`, with the buffer and the pointer that it keeps.
pub record Token : Type 0 where
  pub start : Option ℕ
  pub buffer : Buffer
  pub save : ℕ

-- `strtok` from the first byte that is no delimiter.
unfoldable pub token_at : Buffer → ℕ → List ℕ → Exec Token
token_at buffer q ds = do
  c ← fetch buffer q
  if c == 0 then ok (record { start = none; buffer = buffer; save = q }) else (do
    let e = q + strcspn ds (drop q buffer)
    d ← fetch buffer e
    if d == 0 then ok (record { start = some q; buffer = buffer; save = e }) else (do
      cut ← store buffer e 0
      ok (record { start = some q; buffer = cut; save = e + 1 })))

-- `strtok(buffer + p, ds)`, and `strtok(NULL, ds)` with the pointer that was kept for `p`.
unfoldable pub strtok : Buffer → ℕ → List ℕ → Exec Token
unfolding token_at
strtok buffer p ds = token_at buffer (p + strspn ds (drop p buffer)) ds
