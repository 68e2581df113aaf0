-- ===== src/Headers/Ownership.antt =====
-- Which strings the fields own: one call of `headers_set`, one slot, freed once.
use ntu_computer_network.Base.{
  All-append, ℕ, suc, ◌≤◌, ◌≡◌, refl, sym, ap, ◌∙◌, Option, List, [], ◌∷◌, ◌++◌, Bytes, lower,
  contains, ok, arith, ltb, lower_twice, All,
}
use ntu_computer_network.Headers.{Header, Headers, create, set, destroy, free_all, or_empty}

-- The owners count up from `k`, ending before `n`.
abbrev pub Numbered : ℕ → List Header → ℕ → Type 0
Numbered k [] n = k ≡ n
Numbered k (h ∷ hs) n = (h.owner ≡ k) × Numbered (suc k) hs n

abbrev pub IsLower : Header → Type 0
IsLower h = lower h.name ≡ h.name

-- Headers of which nothing was deleted.
pub record IsIntact (hs : Headers) : Type 0 where
  pub unfreed : hs.freed ≡ []
  pub numbered : Numbered 0 hs.fields hs.next
  pub lower_case : All IsLower hs.fields

pub Numbered-le : (k n : ℕ) (fs : List Header) → Numbered k fs n → k ≤ n
Numbered-le k n [] e = omega arith
Numbered-le k n (h ∷ fs) e = omega (arith, Numbered-le (suc k) n fs e.1)

Numbered-append :
    (k n : ℕ) (fs : List Header) (h : Header)
    → Numbered k fs n
    → h.owner ≡ n
    → Numbered k (fs ++ h ∷ []) (suc n)
Numbered-append k n [] h e o = (o ∙ sym e, ap suc e)
Numbered-append k n (g ∷ fs) h e o = (e.0, Numbered-append (suc k) n fs h e.1 o)

pub create-IsIntact : IsIntact create
unfolding create
create-IsIntact = record { unfreed = refl; numbered = refl; lower_case = tt }

-- `headers_set` keeps the headers intact: the new field owns fresh strings, and its name is stored
-- in lower case, a null name as the empty one.
pub set-IsIntact :
    {hs : Headers} (name value : Option Bytes) → IsIntact hs → IsIntact (set hs name value)
unfolding set
set-IsIntact {hs} name value v = record {
  unfreed = v.unfreed;
  numbered = Numbered-append 0 hs.next hs.fields _ v.numbered refl;
  lower_case = All-append IsLower hs.fields _ v.lower_case (lower_twice (or_empty name), tt);
}

free_all-Numbered :
    (k n : ℕ) (fs : List Header) (freed : List ℕ)
    → Numbered k fs n
    → ((o : ℕ) → contains freed o ≡ ltb o k)
    → (freed' : List ℕ) × (free_all freed fs ≡ ok freed') × ((o : ℕ) → contains freed' o ≡ ltb o n)
unfolding free_all contains
free_all-Numbered k n [] freed e before = (freed, refl, rw (← e) before)
free_all-Numbered k n (h ∷ fs) freed (own, e) before =
    let (freed', run, after) =
      free_all-Numbered (suc k) n fs (h.owner ∷ freed) e (λ o. ground (arith, before o)) in
    (freed', rw (before h.owner) (ground (arith, run)), after)

-- `headers_destroy` of intact headers faults nowhere, and frees the strings of every call of
-- `headers_set` and nothing else.
pub destroy-IsIntact :
    {hs : Headers}
    → IsIntact hs
    → (freed : List ℕ) × (destroy hs ≡ ok freed) × ((o : ℕ) → contains freed o ≡ ltb o hs.next)
unfolding destroy contains
destroy-IsIntact {hs} v =
    free_all-Numbered 0 hs.next hs.fields hs.freed v.numbered (λ o. rw v.unfreed (ground arith))
