-- ===== src/Queue/Refine.antt =====
-- queue.c against a queue of items: where it keeps every item in order, and where it does not.
use native.Mathlib.Nat.{mod-eq_of_lt, mod-add-mod}
use ntu_computer_network.Base.{
  ap₂, Bool, true, false, ltb, ◌==◌, ◌&&◌, ◌*◌, mul_size, ◌⊎◌, ◌-◌, ◌/◌, ◌≢◌, fault, deadlock,
  sub_size, eq→==, ℕ, suc, ◌+◌, ◌%◌, ◌^◌, ◌≤◌, ◌<◌, ◌≡◌, refl, sym, ap, ◌∙◌, List, [], ◌∷◌, ◌++◌,
  none, some, set, replicate, length-set, ok, store-set, arith, add_size, ne→==,
}
use ntu_computer_network.Queue.{dequeue, takes, waits, resize, Cell, SafeQueue, append, enqueue}
use ntu_computer_network.Queue.Ring.{
  cell_at, fetch-cell_at, slots_of_pos, IsValid, contents, slots, slots-set,
}
use ntu_computer_network.Queue.Resize.{resize_full}

abbrev pub appended : SafeQueue → ℕ → SafeQueue
appended q item = record q {
  cells = set q.cells q.rear (some item);
  rear = add_size q.rear 1 % q.capacity;
  size = add_size q.size 1;
  locked = false;
}

-- What an operation that succeeds leaves: a valid queue that holds `held` at the same capacity.
abbrev pub Leaves : SafeQueue → List Cell → SafeQueue → Type 0
Leaves q held r = IsValid r × (contents r ≡ held) × (r.capacity ≡ q.capacity)

pub rear-lt : {q : SafeQueue} → IsValid q → q.rear < q.capacity
rear-lt {q} v = rw v.rear_at (omega arith)

pub append-eq : {q : SafeQueue} (item : ℕ) → IsValid q → append q item ≡ ok (appended q item)
unfolding append
append-eq {q} item v =
    rw (v.idle, append, store-set q.cells q.rear (some item) (omega (arith, rear-lt v)))

pub appended-Leaves :
    {q : SafeQueue} (item : ℕ)
    → IsValid q
    → q.size < q.capacity
    → Leaves q (contents q ++ some item ∷ []) (appended q item)
appended-Leaves {q} item v room = (
  record {
    stored = length-set q.cells q.rear (some item) ∙ v.stored;
    positive = v.positive;
    small = v.small;
    front_in = v.front_in;
    size_in = omega arith;
    rear_at = rear_next;
    idle = refl;
  },
  ap (slots (set q.cells q.rear (some item)) q.capacity q.front) one_more
      ∙ slots-set q.cells q.capacity (some item) q.size q.front q.rear v.stored v.front_in room
          v.rear_at,
  refl,
)
  where
    one_more : add_size q.size 1 ≡ suc q.size
    one_more = omega arith

    rear_next : add_size q.rear 1 % q.capacity ≡ (q.front + add_size q.size 1) % q.capacity
    rear_next =
        ap (λ k. k % q.capacity)
          (mod-eq_of_lt {n = q.rear + 1} {m = 2 ^ 64} (omega (arith, rear-lt v)))
        ∙ ap (λ k. (k + 1) % q.capacity) v.rear_at
        ∙ mod-add-mod (q.front + q.size) q.capacity 1
        ∙ ap (λ k. k % q.capacity) (omega arith)

-- `safe_queue_enqueue` on a valid queue that is not full adds the item behind the others.
pub enqueue-contents :
    {q : SafeQueue} (item : ℕ)
    → IsValid q
    → q.size < q.capacity
    → (r : SafeQueue) × (enqueue q item ≡ ok r) × Leaves q (contents q ++ some item ∷ []) r
unfolding enqueue
enqueue-contents {q} item v room = (
  appended q item,
  rw (ne→== q.size q.capacity (omega arith), enqueue) (append-eq item v),
  appended-Leaves item v room,
)

-- `safe_queue_enqueue` on a valid queue that is full loses every item that waits: the cells of the
-- doubled ring are uninitialised, with the new item behind them.
pub enqueue_full :
    {q : SafeQueue} (item : ℕ)
    → IsValid q
    → q.size ≡ q.capacity
    → q.capacity ≤ 2 ^ 58
    → (r : SafeQueue) × (enqueue q item ≡ ok r)
      × IsValid r
      × (contents r ≡ replicate q.size none ++ some item ∷ [])
      × (r.capacity ≡ 2 * q.capacity)
unfolding enqueue
enqueue_full {q} item v full small =
    let doubled : mul_size q.capacity 2 ≡ 2 * q.capacity = omega arith in
    let (r, e, w, held, same, cap') =
      resize_full (mul_size q.capacity 2) v full (omega arith) (omega arith) in
    let (w', held', cap'') = appended-Leaves item w (omega arith) in
    (
      appended r item,
      rw (eq→== q.size q.capacity full, enqueue, e) (append-eq item w),
      w',
      held' ∙ ap (λ cs. cs ++ some item ∷ []) held,
      cap' ∙ doubled,
    )

-- What is left of a queue when its oldest item is gone.
abbrev removed : SafeQueue → SafeQueue
removed q = record q {
  front = add_size q.front 1 % q.capacity;
  size = sub_size q.size 1;
  locked = false;
}

removed-Leaves :
    {q : SafeQueue}
    → IsValid q
    → 0 < q.size
    → Leaves q (slots q.cells q.capacity ((q.front + 1) % q.capacity) (q.size - 1)) (removed q)
removed-Leaves {q} v some_item = (
  record {
    stored = v.stored;
    positive = v.positive;
    small = v.small;
    front_in = omega arith;
    size_in = omega arith;
    rear_at = rear_same;
    idle = refl;
  },
  ap₂ (slots q.cells q.capacity) front_next one_less,
  refl,
)
  where
    one_less : sub_size q.size 1 ≡ q.size - 1
    one_less = omega arith

    front_next : add_size q.front 1 % q.capacity ≡ (q.front + 1) % q.capacity
    front_next = ap (λ k. k % q.capacity) (omega arith)

    rear_same : q.rear ≡ (add_size q.front 1 % q.capacity + sub_size q.size 1) % q.capacity
    rear_same =
        v.rear_at
        ∙ ap (λ k. k % q.capacity) (omega arith)
        ∙ sym (mod-add-mod (q.front + 1) q.capacity (q.size - 1))
        ∙ ap₂ (λ a b. (a + b) % q.capacity) (sym front_next) (sym one_less)

-- The test before the ring is shrunk, on the size that is left.
abbrev shrinks : ℕ → ℕ → Bool
shrinks size capacity = ltb 0 (sub_size size 1) && sub_size size 1 == capacity / 4

not-shrinks :
    (size capacity : ℕ)
    → 0 < size
    → size ≤ 2 ^ 59
    → (size ≡ 1) ⊎ (size ≢ capacity / 4 + 1)
    → shrinks size capacity ≡ false
not-shrinks size capacity h small plain = ground arith

shrinks_at_quarter :
    (size capacity : ℕ)
    → 1 < size
    → size ≤ 2 ^ 59
    → size ≡ capacity / 4 + 1
    → shrinks size capacity ≡ true
shrinks_at_quarter size capacity h small e = ground arith

-- `safe_queue_dequeue` on a valid queue takes the oldest item, where the rest is not a quarter of
-- the capacity or is empty.
pub dequeue-contents :
    {q : SafeQueue}
    → IsValid q
    → 0 < q.size
    → (q.size ≡ 1) ⊎ (q.size ≢ q.capacity / 4 + 1)
    → (c : Cell) × (r : SafeQueue) × (dequeue q ≡ ok (takes c r))
      × (contents q ≡ c ∷ contents r)
      × IsValid r
      × (r.capacity ≡ q.capacity)
unfolding dequeue
dequeue-contents {q} v some_item plain =
    let (v', rest, same) = removed-Leaves v some_item in
    (
      cell_at q.cells q.front,
      removed q,
      rw (
        v.idle,
        dequeue,
        ne→== q.size 0 (omega arith),
        fetch-cell_at q.cells q.front (omega arith),
        not-shrinks q.size q.capacity some_item (omega arith) plain,
      ),
      slots_of_pos q.cells q.capacity q.front q.size some_item
          ∙ ap (λ cs. cell_at q.cells q.front ∷ cs) (sym rest),
      v',
      same,
    )

-- `safe_queue_dequeue` on a valid queue that is empty waits, and leaves the queue as it was.
pub dequeue_empty : {q : SafeQueue} → IsValid q → q.size ≡ 0 → dequeue q ≡ ok (waits q)
unfolding dequeue
dequeue_empty {q} v none_left = rw (v.idle, dequeue, eq→== q.size 0 none_left)

-- `safe_queue_dequeue` deadlocks on every valid queue of which it would leave a quarter of the
-- capacity: it asks for the mutex that it holds, in order to shrink the ring.
pub dequeue_deadlocks :
    {q : SafeQueue}
    → IsValid q
    → 1 < q.size
    → q.size ≡ q.capacity / 4 + 1
    → dequeue q ≡ fault deadlock
unfolding dequeue
dequeue_deadlocks {q} v some_left quarter = rw (
  v.idle,
  dequeue,
  ne→== q.size 0 (omega arith),
  fetch-cell_at q.cells q.front (omega arith),
  shrinks_at_quarter q.size q.capacity some_left (omega arith) quarter,
  resize,
)
