-- ===== src/Headers/Delete.antt =====
-- `headers_delete` in headers.c: what it leaves in the array, whose size it does not reduce.
mod Slots
mod Loop
unfoldable pub use Slots.{others, matches}
use ntu_computer_network.Base.{
  sym, ne→bytes_eq, inr, false, bytes_eq, inl, append-nil, ◌∷◌, length, refl, ◌++◌, All, ap, arith,
  ◌∙◌, double_free, fault, ◌≢◌, [], ◌<◌, lower, ok, List, contains, Bytes, ℕ, ◌≡◌,
}
use ntu_computer_network.Headers.{Header, Headers, delete, destroy, free_all, get}
use ntu_computer_network.Headers.Ownership.{IsIntact, IsLower}
use ntu_computer_network.Headers.Lookup.{first_value, pairs, get-first_value}
use Slots.{Compacted, IsStale}
use Loop.{loop-Compacted, IsStale-next}

delete-Compacted :
    {hs : Headers} (name : Bytes) → IsIntact hs → Compacted [] [] hs.fields name (delete hs name)
unfolding delete contains
delete-Compacted {hs} name v =
    loop-Compacted hs.fields [] [] name 0 hs.next hs.next hs.freed v.numbered
      (λ o _. rw v.unfreed refl) tt

-- On intact headers `headers_delete` returns the number of fields of that name, moves all others to
-- the front in their order, and leaves as many stale slots behind them: the size stays.
pub delete-others :
    {hs : Headers} (name : Bytes)
    → IsIntact hs
    → (after : Headers) × (stale : List Header) × (delete hs name
        ≡ ok (matches name hs.fields, after))
      × (after.fields ≡ others name hs.fields ++ stale)
      × (length stale ≡ matches name hs.fields)
delete-others {hs} name v =
    let c = delete-Compacted name v in
    (
      c.after,
      c.stale,
      c.runs ∙ ap (λ n. ok (n, c.after)) (omega arith),
      c.array,
      omega (arith, c.count),
    )

free_all-IsStale :
    (freed : List ℕ) (kept : List Header) (j : Header) (rest : List Header)
    → IsStale freed kept j
    → free_all freed (kept ++ j ∷ rest) ≡ fault double_free
unfolding free_all
free_all-IsStale freed [] j rest (inl e) = rw e
free_all-IsStale freed [] j rest (inr e) = cc
free_all-IsStale freed (h ∷ kept) j rest stale =
    ground
      (arith, free_all-IsStale (h.owner ∷ freed) kept j rest (IsStale-next freed h kept j stale))

free_stale :
    (after : Headers) (kept stale : List Header)
    → after.fields ≡ kept ++ stale
    → All (IsStale after.freed kept) stale
    → 0 < length stale
    → destroy after ≡ fault double_free
unfolding destroy
free_stale after kept [] e a h = elim h [ ]
free_stale after kept (j ∷ rest) e a h = rw e (free_all-IsStale after.freed kept j rest a.0)

-- Once `headers_delete` has removed a field from intact headers, `headers_destroy` frees a string
-- twice.
pub destroy-delete :
    {hs : Headers} (name : Bytes)
    → IsIntact hs
    → 0 < matches name hs.fields
    → (after : Headers) × (delete hs name ≡ ok (matches name hs.fields, after))
      × (destroy after ≡ fault double_free)
destroy-delete {hs} name v some_match =
    let c = delete-Compacted name v in
    (
      c.after,
      c.runs ∙ ap (λ n. ok (n, c.after)) (omega arith),
      free_stale c.after (others name hs.fields) c.stale c.array c.aliased (omega (arith, c.count)),
    )

matches_not_lower :
    (name : Bytes) (fs : List Header)
    → All IsLower fs
    → lower name ≢ name
    → (matches name fs ≡ 0) × (others name fs ≡ fs)
unfolding matches others
matches_not_lower name [] a ne = (refl, refl)
matches_not_lower name (h ∷ fs) a ne =
    let (none_here, all) = matches_not_lower name fs a.1 ne in
    let other : bytes_eq h.name name ≡ false =
      ne→bytes_eq h.name name (λ e. ne (ap lower (sym e) ∙ a.0 ∙ e)) in
    rw other (none_here, ap (λ gs. h ∷ gs) all)

append_nothing : (fs gs : List Header) → length gs ≡ 0 → fs ++ gs ≡ fs
append_nothing fs [] e = append-nil fs
append_nothing fs (g ∷ gs) e = absurd (omega arith)

-- `headers_delete` on intact headers compares names as they are given: a name with a capital
-- letter in it removes nothing, although `headers_get` finds the fields of that name.
pub delete_not_lower :
    {hs : Headers} (name : Bytes)
    → IsIntact hs
    → lower name ≢ name
    → (after : Headers) × (delete hs name ≡ ok (0, after))
      × (after.fields ≡ hs.fields)
      × (get hs name ≡ ok (first_value (lower name) (pairs hs.fields)))
delete_not_lower {hs} name v ne =
    let c = delete-Compacted name v in
    let (no_match, all) = matches_not_lower name hs.fields v.lower_case ne in
    (
      c.after,
      c.runs ∙ ap (λ n. ok (n, c.after)) (omega arith),
      c.array ∙ append_nothing (others name hs.fields) c.stale (omega (arith, c.count)) ∙ all,
      get-first_value hs name v.unfreed,
    )
