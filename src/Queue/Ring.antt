-- ===== src/Queue/Ring.antt =====
-- The cells of a queue read round the ring, and the shape that the operations of queue.c rely on.
use native.Mathlib.Nat.{mod-add-mod, mod-eq_of_lt, mod-eq-sub-mod, add-zero}
use native.Mathlib.Decide.{dec_lt}
use ntu_computer_network.Base.{
  ℕ, zero, suc, ◌+◌, ◌-◌, ◌%◌, ◌^◌, ◌≤◌, ◌<◌, ◌≡◌, refl, ap, ap₂, ◌∙◌, ◌≢◌, false, List, [], ◌∷◌,
  ◌++◌, none, length, set, ok, fetch, arith,
}
use ntu_computer_network.Queue.{Cell, SafeQueue}

-- A read for which the shape vouches that it is in range.
abbrev pub cell_at : List Cell → ℕ → Cell
cell_at [] i = none
cell_at (c ∷ cs) zero = c
cell_at (c ∷ cs) (suc i) = cell_at cs i

-- The `n` cells from index `i` on, round a ring of `cap` cells.
abbrev pub slots : List Cell → ℕ → ℕ → ℕ → List Cell
slots cells cap i zero = []
slots cells cap i (suc n) = cell_at cells i ∷ slots cells cap ((i + 1) % cap) n

-- What the queue holds, oldest first.
abbrev pub contents : SafeQueue → List Cell
contents q = slots q.cells q.capacity q.front q.size

pub record IsValid (q : SafeQueue) : Type 0 where
  pub stored : length q.cells ≡ q.capacity
  pub positive : 0 < q.capacity
  pub small : q.capacity ≤ 2 ^ 59
  pub front_in : q.front < q.capacity
  pub size_in : q.size ≤ q.capacity
  pub rear_at : q.rear ≡ (q.front + q.size) % q.capacity
  pub idle : q.locked ≡ false

pub length-slots : (cells : List Cell) (cap i n : ℕ) → length (slots cells cap i n) ≡ n
length-slots cells cap i zero = refl
length-slots cells cap i (suc n) = ap suc (length-slots cells cap ((i + 1) % cap) n)

pub fetch-cell_at :
    (cells : List Cell) (i : ℕ) → i < length cells → fetch cells i ≡ ok (cell_at cells i)
unfolding fetch
fetch-cell_at [] i h = elim h [ ]
fetch-cell_at (c ∷ cs) zero h = refl
fetch-cell_at (c ∷ cs) (suc i) h = fetch-cell_at cs i (omega arith)

pub cell_at-set_self :
    (cells : List Cell) (i : ℕ) (v : Cell) → i < length cells → cell_at (set cells i v) i ≡ v
cell_at-set_self [] i v h = elim h [ ]
cell_at-set_self (c ∷ cs) zero v h = refl
cell_at-set_self (c ∷ cs) (suc i) v h = cell_at-set_self cs i v (omega arith)

pub cell_at-set_ne :
    (cells : List Cell) (i j : ℕ) (v : Cell) → i ≢ j → cell_at (set cells i v) j ≡ cell_at cells j
cell_at-set_ne [] i j v h = refl
cell_at-set_ne (c ∷ cs) zero zero v h = absurd (h refl)
cell_at-set_ne (c ∷ cs) zero (suc j) v h = refl
cell_at-set_ne (c ∷ cs) (suc i) zero v h = refl
cell_at-set_ne (c ∷ cs) (suc i) (suc j) v h = cell_at-set_ne cs i j v (λ e. h (ap suc e))

-- One step round the ring, then `n` more.
pub step_round : (cap i n : ℕ) → (i + suc n) % cap ≡ ((i + 1) % cap + n) % cap
step_round cap i n = rw mod-add-mod (ap (λ k. k % cap) (omega arith))

-- Fewer steps than the ring has cells do not come back to the start.
pub round-ne : (cap i k : ℕ) → i < cap → suc k < cap → (i + suc k) % cap ≢ i
round-ne cap i k hi hk = elim (dec_lt (i + suc k) cap) [
  | yes p ↦ omega (arith, mod-eq_of_lt p)
  | no p ↦ omega (
    arith,
    mod-eq-sub-mod {n = i + suc k} {m = cap} (omega arith),
    mod-eq_of_lt {n = i + suc k - cap} {m = cap} (omega arith),
  )
]

pub mod-in : (cap i : ℕ) → 0 < cap → i % cap < cap
mod-in cap i h = omega arith

-- A write behind the last of fewer than `cap` cells appends to them.
pub slots-set :
    (cells : List Cell) (cap : ℕ) (v : Cell) (n i j : ℕ)
    → length cells ≡ cap
    → i < cap
    → n < cap
    → j ≡ (i + n) % cap
    → slots (set cells j v) cap i (suc n) ≡ slots cells cap i n ++ v ∷ []
slots-set cells cap v zero i j hs hi hn e =
    rw (e, add-zero, mod-eq_of_lt hi, cell_at-set_self cells i v (omega arith))
slots-set cells cap v (suc n) i j hs hi hn e =
    ap₂ ◌∷◌ (cell_at-set_ne cells j i v (rw e (round-ne cap i n hi hn))) (
      slots-set cells cap v n ((i + 1) % cap) j hs (omega arith) (omega arith)
        (e ∙ step_round cap i n))

-- Taking the oldest of a non-empty queue.
pub slots_of_pos :
    (cells : List Cell) (cap i n : ℕ)
    → 0 < n
    → slots cells cap i n ≡ cell_at cells i ∷ slots cells cap ((i + 1) % cap) (n - 1)
slots_of_pos cells cap i zero h = elim h [ ]
slots_of_pos cells cap i (suc n) h = ap (λ k. slots cells cap i (suc k)) (omega arith)
