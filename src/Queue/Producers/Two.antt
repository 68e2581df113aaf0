-- ===== src/Queue/Producers/Two.antt =====
-- Two producers that both find the last free cell.
use native.Mathlib.Nat.{mod-eq_of_lt, add-mod_right}
use ntu_computer_network.Base.{
  ℕ, suc, ◌+◌, ◌%◌, ◌<◌, ◌≡◌, refl, sym, ap, ap₂, ◌∙◌, List, [], ◌∷◌, ◌++◌, length, set, some,
  arith, add_size,
}
use ntu_computer_network.Queue.{Cell, SafeQueue}
use ntu_computer_network.Queue.Ring.{
  IsValid, contents, slots, slots-set, cell_at, cell_at-set_self, step_round,
}
use ntu_computer_network.Queue.Refine.{append-eq, appended, appended-Leaves}
use ntu_computer_network.Queue.Producers.{Shared, tests, appends, Steps, stays, moves}

-- Read once round the ring and one cell more, when the first cell has been written.
round-set :
    (cells : List Cell) (n front : ℕ) (v : Cell)
    → length cells ≡ suc n
    → front < suc n
    → slots (set cells front v) (suc n) front (suc (suc n))
      ≡ v ∷ (slots cells (suc n) ((front + 1) % suc n) n ++ v ∷ [])
round-set cells n front v stored inside = ap₂ ◌∷◌ (cell_at-set_self cells front v (omega arith)) (
    slots-set cells (suc n) v n ((front + 1) % suc n) front stored (omega arith) (omega arith)
      (sym (mod-eq_of_lt inside) ∙ sym (add-mod_right front (suc n)) ∙ step_round (suc n) front n))

-- An item that is put into a full ring takes the place of the oldest one.
full-append :
    {q : SafeQueue} {oldest : Cell} {held : List Cell} (item : ℕ) (n : ℕ)
    → IsValid q
    → q.capacity ≡ suc n
    → q.size ≡ suc n
    → contents q ≡ oldest ∷ held
    → contents (appended q item) ≡ some item ∷ (held ++ some item ∷ [])
full-append {q} {oldest} {held} item n v cap full told =
    let one_more : add_size q.size 1 ≡ suc (suc n) = omega (arith, v.small) in
    let wraps : q.rear ≡ q.front =
      v.rear_at
      ∙ ap₂ (λ k c. (q.front + k) % c) full cap
      ∙ add-mod_right q.front (suc n)
      ∙ mod-eq_of_lt (omega (arith, v.front_in)) in
    let same : cell_at q.cells q.front ∷ slots q.cells (suc n) ((q.front + 1) % suc n) n
        ≡ oldest ∷ held =
      sym (ap₂ (λ c k. slots q.cells c q.front k) cap full) ∙ told in
    let rest : slots q.cells (suc n) ((q.front + 1) % suc n) n ≡ held = cc in
    rw (wraps, cap, one_more)
      (round-set q.cells n q.front (some item) (v.stored ∙ cap) (omega (arith, v.front_in))
        ∙ ap (λ l. some item ∷ (l ++ some item ∷ [])) rest)

-- A valid queue holds an item and has one free cell, and no producer is behind its test. Then two
-- producers can both find room before either of them locks the mutex; when both have put their items,
-- the oldest item is lost, and the item of the second producer stands both in its place and at the end.
pub two_producers_overwrite :
    {s : Shared} {oldest : Cell} {held : List Cell} (a b : ℕ)
    → IsValid s.queue
    → s.tested ≡ []
    → contents s.queue ≡ oldest ∷ held
    → s.queue.size + 1 ≡ s.queue.capacity
    → (t : Shared) × Steps s t
      × (t.put ≡ (s.put ++ some a ∷ []) ++ some b ∷ [])
      × (t.taken ≡ s.taken)
      × (contents t.queue ≡ some b ∷ ((held ++ some a ∷ []) ++ some b ∷ []))
two_producers_overwrite {s} {oldest} {held} a b v nobody told last =
    let (w, told', cap) = appended-Leaves a v (omega arith) in
    let one_more : add_size s.queue.size 1 ≡ s.queue.size + 1 = omega arith in
    (
      _,
      moves
          (moves (moves (moves stays (tests a (omega arith))) (tests b (omega arith)))
            (appends [] (b ∷ []) a (ap (λ l. (l ++ a ∷ []) ++ b ∷ []) nobody) (append-eq a v)))
          (appends [] [] b refl (append-eq b w)),
      refl,
      refl,
      full-append b s.queue.size w (omega (arith, cap)) (omega arith)
          (told' ∙ ap (λ l. l ++ some a ∷ []) told),
    )
