-- ===== src/Headers/Delete/Slots.antt =====
-- The slots of the array in the compacting loop of `headers_delete`: kept, stale, and not yet read.
use ntu_computer_network.Base.{
  Exec, ok, inl, inr, append_assoc, length-append, fetch-append, store-append, fetch, store, length,
  ℕ, suc, ◌+◌, ◌≡◌, refl, ◌∙◌, Bool, true, false, ◌||◌, List, [], ◌∷◌, ◌++◌, Bytes, bytes_eq,
  contains, if◌then◌else◌, arith, ◌==◌, All, ◌⊎◌,
}
use ntu_computer_network.Headers.{Header, Headers}

-- The fields that `headers_delete` is to keep, and how many it is to remove.
unfoldable pub others : Bytes → List Header → List Header
others name [] = []
others name (h ∷ hs) = if bytes_eq h.name name then others name hs else h ∷ others name hs

unfoldable pub matches : Bytes → List Header → ℕ
matches name [] = 0
matches name (h ∷ hs) = if bytes_eq h.name name then suc (matches name hs) else matches name hs

abbrev pub has_owner : ℕ → List Header → Bool
has_owner o [] = false
has_owner o (h ∷ hs) = o == h.owner || has_owner o hs

-- A slot whose strings are freed, or are owned by one of the slots that are kept.
abbrev pub IsStale : List ℕ → List Header → Header → Type 0
IsStale freed kept g = (contains freed g.owner ≡ true) ⊎ (has_owner g.owner kept ≡ true)

-- The slots between those kept and those not yet read, when `h` is kept.
abbrev pub shift : List Header → Header → List Header
shift [] h = []
shift (j ∷ js) h = js ++ h ∷ []

-- What the loop has made of the array when it ends.
pub record Compacted (kept junk rest : List Header) (name : Bytes) (out : Exec (ℕ × Headers))
    : Type 0 where
  pub after : Headers
  pub stale : List Header
  pub runs : out ≡ ok (length junk + matches name rest, after)
  pub array : after.fields ≡ (kept ++ others name rest) ++ stale
  pub count : length stale ≡ length junk + matches name rest
  pub aliased : All (IsStale after.freed (kept ++ others name rest)) stale

pub has_owner-append :
    (o : ℕ) (fs gs : List Header) → has_owner o (fs ++ gs) ≡ (has_owner o fs || has_owner o gs)
has_owner-append o [] gs = refl
has_owner-append o (f ∷ fs) gs = ground (arith, has_owner-append o fs gs)

module _ (freed freed' : List ℕ) (kept kept' : List Header)
    (more_freed : (o : ℕ) → contains freed o ≡ true → contains freed' o ≡ true)
    (more_kept : (o : ℕ) → has_owner o kept ≡ true → has_owner o kept' ≡ true) where
  pub IsStale-mono : (g : Header) → IsStale freed kept g → IsStale freed' kept' g
  IsStale-mono g (inl e) = inl (more_freed g.owner e)
  IsStale-mono g (inr e) = inr (more_kept g.owner e)

  pub IsStale-snoc :
      (fs : List Header) (h : Header)
      → All (IsStale freed kept) fs
      → IsStale freed' kept' h
      → All (IsStale freed' kept') (fs ++ h ∷ [])
  IsStale-snoc [] h a p = (p, tt)
  IsStale-snoc (f ∷ fs) h a p = (IsStale-mono f a.0, IsStale-snoc fs h a.1 p)

  pub IsStale-shift :
      (fs : List Header) (h : Header)
      → All (IsStale freed kept) fs
      → IsStale freed' kept' h
      → All (IsStale freed' kept') (shift fs h)
  IsStale-shift [] h a p = tt
  IsStale-shift (f ∷ fs) h a p = IsStale-snoc fs h a.1 p

pub fetch-junk :
    (kept junk : List Header) (h : Header) (rest : List Header)
    → fetch (kept ++ (junk ++ h ∷ rest)) (length kept + length junk) ≡ ok h
fetch-junk kept junk h rest =
    rw (← append_assoc kept junk (h ∷ rest), ← length-append kept junk)
      (fetch-append (kept ++ junk) h rest)

pub store-junk :
    (kept junk : List Header) (h : Header) (rest : List Header)
    → store (kept ++ (junk ++ h ∷ rest)) (length kept) h
      ≡ ok ((kept ++ h ∷ []) ++ (shift junk h ++ rest))
store-junk kept [] h rest = rw append_assoc (store-append kept h h rest)
store-junk kept (j ∷ js) h rest =
    store-append kept j h (js ++ h ∷ rest)
    ∙ rw (append_assoc kept (h ∷ []) ((js ++ h ∷ []) ++ rest), append_assoc js (h ∷ []) rest)

pub length-shift : (junk : List Header) (h : Header) → length (shift junk h) ≡ length junk
length-shift [] h = refl
length-shift (j ∷ js) h = omega (arith, length-append js (h ∷ []))
