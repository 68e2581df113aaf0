-- ===== src/Tests/QueueRuns.antt =====
-- The queue of queue.c on small rings.
use ntu_computer_network.Base.{
  fetch, set, store, ◌≤◌, ◌+◌, ◌++◌, ◌*◌, ◌≡◌, refl, false, none, some, List, [], ◌∷◌, arith,
  deadlock, ok, fault,
}
use ntu_computer_network.Queue.{append, remove, SafeQueue, create, enqueue, dequeue}
use ntu_computer_network.Queue.Ring.{IsValid, contents}
use ntu_computer_network.Queue.Refine.{enqueue_full, dequeue_deadlocks}
use ntu_computer_network.Queue.Producers.{
  appends, removes, Shared, tests, Steps, OneReach, starts, goes_on,
}
use ntu_computer_network.Queue.Producers.One.{one_producer_fifo}
use ntu_computer_network.Queue.Producers.Two.{two_producers_overwrite}
use ntu_computer_network.Queue.History.{fifo, Op, put, get, run, run-fifo}

-- 7, then 8, round the end of a ring of four cells.
abbrev two_items : SafeQueue
two_items = record {
  cells = some 8 ∷ none ∷ none ∷ some 7 ∷ [];
  size = 2;
  capacity = 4;
  front = 3;
  rear = 1;
  locked = false;
}

abbrev full_ring : SafeQueue
full_ring = record {
  cells = some 7 ∷ some 8 ∷ some 9 ∷ some 6 ∷ [];
  size = 4;
  capacity = 4;
  front = 1;
  rear = 1;
  locked = false;
}

abbrev three_items : SafeQueue
three_items = record two_items { cells = some 8 ∷ some 9 ∷ none ∷ some 7 ∷ []; size = 3; rear = 2 }

two_items-IsValid : IsValid two_items
two_items-IsValid = record {
  stored = refl;
  positive = omega arith;
  small = omega arith;
  front_in = omega arith;
  size_in = omega arith;
  rear_at = refl;
  idle = refl;
}

three_items-IsValid : IsValid three_items
three_items-IsValid = record {
  stored = refl;
  positive = omega arith;
  small = omega arith;
  front_in = omega arith;
  size_in = omega arith;
  rear_at = refl;
  idle = refl;
}

full_ring-IsValid : IsValid full_ring
full_ring-IsValid = record {
  stored = refl;
  positive = omega arith;
  small = omega arith;
  front_in = omega arith;
  size_in = omega arith;
  rear_at = refl;
  idle = refl;
}

enqueue_full_example :
    (r : SafeQueue) × (enqueue full_ring 5 ≡ ok r)
    × IsValid r
    × (contents r ≡ none ∷ none ∷ none ∷ none ∷ some 5 ∷ [])
    × (r.capacity ≡ 2 * 4)
enqueue_full_example = enqueue_full 5 full_ring-IsValid refl (omega arith)

dequeue_deadlocks_example : dequeue two_items ≡ fault deadlock
dequeue_deadlocks_example = dequeue_deadlocks two_items-IsValid (omega arith) refl

abbrev script : List Op
script = put 1 ∷ put 2 ∷ get ∷ get ∷ get ∷ []

run-fifo_example : run create script ≡ ok (fifo [] script)
run-fifo_example = run-fifo script ((omega arith), ((omega arith), tt))

-- 7 and 8 have been put, 7 has been taken, and the producer has tested for 9.
abbrev in_flight : Shared
in_flight = record {
  queue = record create {
    cells = set (set create.cells 0 (some 7)) 1 (some 8);
    size = 1;
    front = 1;
    rear = 2;
  };
  tested = 9 ∷ [];
  put = some 7 ∷ some 8 ∷ [];
  taken = some 7 ∷ [];
}

in_flight-OneReach : OneReach in_flight
unfolding create append dequeue remove store fetch
in_flight-OneReach =
    goes_on
      (goes_on
        (goes_on
          (goes_on
            (goes_on (goes_on starts (tests 7 (λ e. omega arith)) refl) (appends [] [] 7 refl refl)
              tt)
            (tests 8 (λ e. omega arith)) refl)
          (appends [] [] 8 refl refl) tt)
        (removes (some 7) refl) tt)
      (tests 9 (λ e. omega arith)) refl

one_producer_fifo_example :
    (in_flight.put ≡ in_flight.taken ++ contents in_flight.queue)
    × (in_flight.queue.size + 1 ≤ in_flight.queue.capacity)
one_producer_fifo_example = one_producer_fifo in_flight-OneReach

-- The queue that holds 7 and 8, and 9 behind them, has one free cell.
abbrev last_cell : Shared
last_cell = record { queue = three_items; tested = []; put = []; taken = [] }

two_producers_overwrite_example :
    (t : Shared) × Steps last_cell t
    × (t.put ≡ some 1 ∷ some 2 ∷ [])
    × (t.taken ≡ [])
    × (contents t.queue ≡ some 2 ∷ some 8 ∷ some 9 ∷ some 1 ∷ some 2 ∷ [])
two_producers_overwrite_example = two_producers_overwrite 1 2 three_items-IsValid refl refl refl
