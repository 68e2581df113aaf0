-- ===== src/Queue/Resize.antt =====
-- `safe_queue_resize` in queue.c: what its copying loop does, on a full queue and on any other.
use native.Mathlib.Nat.{add-mod_right, mod-eq_of_lt, add-zero}
use ntu_computer_network.Base.{
  store-append, ◌-◌, length-append, replicate, true, false, ap₂, mul_size, ◌/◌, length-replicate,
  none, ℕ, zero, suc, ◌+◌, ◌%◌, ◌^◌, ◌≤◌, ◌<◌, ◌≡◌, refl, sym, ap, ◌∙◌, ◌≢◌, List, [], ◌∷◌, ◌++◌,
  length, drop, ok, arith, eq→==, ne→==, append_assoc, append-nil,
}
use ntu_computer_network.Queue.{resize, alloc_cells, Cell, SafeQueue, copy}
use ntu_computer_network.Queue.Ring.{
  IsValid, contents, slots, length-slots, cell_at, fetch-cell_at, round-ne, step_round,
}

length-snoc : (pre : List Cell) (v : Cell) → length (pre ++ v ∷ []) ≡ length pre + 1
length-snoc pre v = length-append pre (v ∷ [])

-- One round of the loop: a cell that is not the last goes to the next free place.
copy_round :
    (q : SafeQueue) (fuel i : ℕ) (pre : List Cell) (b : Cell) (post : List Cell)
    → i ≢ q.rear
    → i < length q.cells
    → i < 2 ^ 60
    → length pre < 2 ^ 60
    → copy q (suc fuel) i (length pre) (pre ++ b ∷ post)
      ≡ copy q fuel
          ((i + 1) % q.capacity)
          (length (pre ++ cell_at q.cells i ∷ []))
          ((pre ++ cell_at q.cells i ∷ []) ++ post)
unfolding copy
copy_round q fuel i pre b post ne hi small room = rw (
  ne→== i q.rear ne,
  copy,
  fetch-cell_at q.cells i hi,
  store-append pre b (cell_at q.cells i) post,
  append_assoc pre (cell_at q.cells i ∷ []) post,
  length-snoc pre (cell_at q.cells i),
  mod-eq_of_lt {n = i + 1} {m = 2 ^ 64} (omega arith),
  mod-eq_of_lt {n = length pre + 1} {m = 2 ^ 64} (omega arith),
)

copy_done :
    (q : SafeQueue) (fuel i j : ℕ) (new : List Cell)
    → i ≡ q.rear
    → copy q (suc fuel) i j new ≡ ok new
unfolding copy
copy_done q fuel i j new e = rw (eq→== i q.rear e, copy)

-- The loop copies the `n < capacity` cells between `i` and `rear`, in order, within `n + 1` rounds.
copy_lem :
    (q : SafeQueue) (n fuel i : ℕ) (pre post : List Cell)
    → length q.cells ≡ q.capacity
    → q.capacity ≤ 2 ^ 59
    → i < q.capacity
    → n < q.capacity
    → q.rear ≡ (i + n) % q.capacity
    → n < fuel
    → n ≤ length post
    → length pre + n ≤ 2 ^ 59
    → copy q fuel i (length pre) (pre ++ post)
      ≡ ok (pre ++ slots q.cells q.capacity i n ++ drop n post)
copy_lem q n zero i pre post st sm hi hn hr hf hp hl = elim hf [ ]
copy_lem q zero (suc fuel) i pre post st sm hi hn hr hf hp hl = rw (
  copy_done q fuel i (length pre) (pre ++ post) (sym (hr ∙ rw add-zero (mod-eq_of_lt hi))),
  append-nil,
)
copy_lem q (suc n) (suc fuel) i pre [] st sm hi hn hr hf hp hl = absurd (omega arith)
copy_lem q (suc n) (suc fuel) i pre (b ∷ post) st sm hi hn hr hf hp hl =
    copy_round q fuel i pre b post (rw hr (λ e. round-ne q.capacity i n hi hn (sym e)))
      (omega arith) (omega arith) (omega arith)
    ∙ copy_lem q n fuel ((i + 1) % q.capacity) (pre ++ cell_at q.cells i ∷ []) post st sm
        (omega arith) (omega arith) (hr ∙ step_round q.capacity i n) (omega arith) (omega arith)
        (omega (arith, length-snoc pre (cell_at q.cells i)))
    ∙ rw (
        append_assoc pre (cell_at q.cells i ∷ [])
          (slots q.cells q.capacity ((i + 1) % q.capacity) n))

cell_at-middle :
    (pre : List Cell) (x : Cell) (post : List Cell) → cell_at (pre ++ x ∷ post) (length pre) ≡ x
cell_at-middle [] x post = refl
cell_at-middle (p ∷ pre) x post = cell_at-middle pre x post

-- Reading a run of cells that does not pass the end of the array.
slots-middle :
    (cells pre xs post : List Cell) (n i : ℕ)
    → cells ≡ pre ++ (xs ++ post)
    → i ≡ length pre
    → i + length xs ≤ n
    → slots cells n i (length xs) ≡ xs
slots-middle cells pre [] post n i e at h = refl
slots-middle cells pre (x ∷ []) post n i e at h =
    ap (λ c. c ∷ []) (rw (e, at) (cell_at-middle pre x post))
slots-middle cells pre (x ∷ y ∷ xs) post n i e at h =
    ap₂ ◌∷◌ (rw (e, at) (cell_at-middle pre x (y ∷ (xs ++ post)))) (
      slots-middle cells (pre ++ x ∷ []) (y ∷ xs) post n ((i + 1) % n)
        (e ∙ sym (append_assoc pre (x ∷ []) (y ∷ (xs ++ post))))
        (mod-eq_of_lt {n = i + 1} {m = n} (omega arith) ∙ omega (arith, length-snoc pre x))
        (rw (mod-eq_of_lt {n = i + 1} {m = n} (omega arith)) (omega arith)))

cell_at-replicate : (n i : ℕ) → cell_at (replicate n none) i ≡ none
cell_at-replicate zero i = refl
cell_at-replicate (suc n) zero = refl
cell_at-replicate (suc n) (suc i) = cell_at-replicate n i

slots-replicate : (n around i k : ℕ) → slots (replicate n none) around i k ≡ replicate k none
slots-replicate n around i zero = refl
slots-replicate n around i (suc k) =
    ap₂ ◌∷◌ (cell_at-replicate n i) (slots-replicate n around ((i + 1) % around) k)

length-alloc_cells : (n : ℕ) → n ≤ 2 ^ 60 → length (alloc_cells n) ≡ n
length-alloc_cells n h = length-replicate (mul_size 8 n / 8) none ∙ omega arith

abbrev resized : SafeQueue → ℕ → List Cell → SafeQueue
resized q n new = record {
  cells = new;
  size = q.size;
  capacity = n;
  front = 0;
  rear = q.size;
  locked = false;
}

resize-eq :
    (q : SafeQueue) (n : ℕ) (new : List Cell)
    → q.locked ≡ false
    → copy (record q { locked = true }) (suc q.capacity) q.front 0 (alloc_cells n) ≡ ok new
    → resize q n ≡ ok (resized q n new)
unfolding resize
resize-eq q n new e h = rw (e, resize, h)

resized-IsValid :
    (q : SafeQueue) (n : ℕ) (new : List Cell)
    → IsValid q
    → q.size < n
    → n ≤ 2 ^ 59
    → length new ≡ n
    → IsValid (resized q n new)
resized-IsValid q n new v room small e = record {
  stored = e;
  positive = omega arith;
  small = small;
  front_in = omega arith;
  size_in = omega arith;
  rear_at = sym (mod-eq_of_lt {n = 0 + q.size} {m = n} (omega arith) ∙ omega arith);
  idle = refl;
}

length-drop : (n : ℕ) (xs : List Cell) → length (drop n xs) ≡ length xs - n
length-drop zero xs = omega arith
length-drop (suc n) [] = omega arith
length-drop (suc n) (x ∷ xs) = omega (arith, length-drop n xs)

-- A resize whose loop ends with `new` gives a valid queue that holds the first cells of `new`.
abbrev pub Resizes : SafeQueue → ℕ → List Cell → Type 0
Resizes q n held =
    (r : SafeQueue) × (resize q n ≡ ok r)
    × IsValid r
    × (contents r ≡ held)
    × (r.size ≡ q.size)
    × (r.capacity ≡ n)

-- Resizing a valid queue that is not full to a capacity above its size, of 2 ^ 59 cells at most,
-- ends, faults nowhere, and keeps the items and their order.
pub resize-contents :
    {q : SafeQueue} (n : ℕ)
    → IsValid q
    → q.size < q.capacity
    → q.size < n
    → n ≤ 2 ^ 59
    → (r : SafeQueue) × (resize q n ≡ ok r)
      × IsValid r
      × (contents r ≡ contents q)
      × (r.size ≡ q.size)
      × (r.capacity ≡ n)
resize-contents {q} n v free room small = (
  resized q n new,
  resize-eq q n new v.idle copied,
  resized-IsValid q n new v room small (omega (arith, total)),
  ap (slots new n 0) (sym (length-slots q.cells q.capacity q.front q.size))
      ∙ slots-middle new [] (contents q) rest n 0 refl refl
          (omega (arith, length-slots q.cells q.capacity q.front q.size)),
  refl,
  refl,
)
  where
    rest : List Cell
    rest = drop q.size (alloc_cells n)

    new : List Cell
    new = contents q ++ rest

    copied : copy (record q { locked = true }) (suc q.capacity) q.front 0 (alloc_cells n) ≡ ok new
    copied =
        copy_lem (record q { locked = true }) q.size (suc q.capacity) q.front [] (alloc_cells n)
          v.stored v.small v.front_in free v.rear_at (omega arith)
          (omega (arith, length-alloc_cells n)) (omega arith)

    total : length new ≡ n
    total = omega (
      arith,
      length-append (contents q) rest,
      length-slots q.cells q.capacity q.front q.size,
      length-drop q.size (alloc_cells n),
      length-alloc_cells n,
    )

-- Resizing a full queue copies nothing: every cell that it hands on is uninitialised.
pub resize_full :
    {q : SafeQueue} (n : ℕ)
    → IsValid q
    → q.size ≡ q.capacity
    → q.size < n
    → n ≤ 2 ^ 59
    → (r : SafeQueue) × (resize q n ≡ ok r)
      × IsValid r
      × (contents r ≡ replicate q.size none)
      × (r.size ≡ q.size)
      × (r.capacity ≡ n)
resize_full {q} n v full room small = (
  resized q n (alloc_cells n),
  resize-eq q n (alloc_cells n) v.idle
      (copy_done (record q { locked = true }) q.capacity q.front 0 (alloc_cells n) at_rear),
  resized-IsValid q n (alloc_cells n) v room small (length-alloc_cells n (omega arith)),
  slots-replicate (mul_size 8 n / 8) n 0 q.size,
  refl,
  refl,
)
  where
    at_rear : q.front ≡ q.rear
    at_rear = sym (v.rear_at ∙ rw full (add-mod_right q.front q.capacity ∙ mod-eq_of_lt v.front_in))
