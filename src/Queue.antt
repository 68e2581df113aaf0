-- ===== src/Queue.antt =====
-- src/queue.c and src/queue.h: the growing ring of pointers behind the thread pool.
-- An item is a pointer as a number, 0 for NULL. A cell that malloc has handed out and nobody has
-- written is `none`. The calls are those of one thread: to lock a mutex that is held is `deadlock`.
pub mod Ring
pub mod Resize
pub mod Refine
pub mod History
pub mod Returned
pub mod Producers
use ntu_computer_network.Base.{
  ℕ, zero, suc, ◌/◌, ◌%◌, Bool, true, false, ◌&&◌, ltb, ◌==◌, if◌then◌else◌, Option, none, some,
  List, replicate, deadlock, endless, Exec, ok, fault, ◌>>=◌, fetch, store, add_size, sub_size,
  mul_size,
}

abbrev pub Cell : Type 0
Cell = Option ℕ

-- `SafeQueue`; the condition variable has no state of its own.
pub record SafeQueue : Type 0 where
  pub cells : List Cell
  pub size : ℕ
  pub capacity : ℕ
  pub front : ℕ
  pub rear : ℕ
  pub locked : Bool

abbrev pub initial_capacity : ℕ
initial_capacity = 128

-- `malloc(sizeof(void*) * n)`, where the product may wrap
abbrev pub alloc_cells : ℕ → List Cell
alloc_cells n = replicate (mul_size 8 n / 8) none

unfoldable pub create : SafeQueue
create = record {
  cells = alloc_cells initial_capacity;
  size = 0;
  capacity = initial_capacity;
  front = 0;
  rear = 0;
  locked = false;
}

unfoldable pub lock : SafeQueue → Exec SafeQueue
lock q = if q.locked then fault deadlock else ok (record q { locked = true })

abbrev pub unlock : SafeQueue → SafeQueue
unlock q = record q { locked = false }

-- The copying loop of `safe_queue_resize`: fuel, then `i`, `j` and `new_data`.
unfoldable pub copy : SafeQueue → ℕ → ℕ → ℕ → List Cell → Exec (List Cell)
copy q zero i j new = fault endless
copy q (suc fuel) i j new = elim (i == q.rear) [
  | true ↦ ok new
  | false ↦ fetch q.cells i >>= λ v.
      store new j v >>= λ new'. copy q fuel (add_size i 1 % q.capacity) (add_size j 1) new'
]

unfoldable pub resize : SafeQueue → ℕ → Exec SafeQueue
unfolding lock copy
resize q new_capacity = do
  held ← lock q
  new ← copy held (suc held.capacity) held.front 0 (alloc_cells new_capacity)
  ok (record held {
    cells = new;
    capacity = new_capacity;
    front = 0;
    rear = held.size;
    locked = false;
  })

abbrev grow : SafeQueue → Exec SafeQueue
grow q = if q.size == q.capacity then resize q (mul_size q.capacity 2) else ok q

-- The part of `safe_queue_enqueue` under the mutex; the signal is left to the scheduler.
unfoldable pub append : SafeQueue → ℕ → Exec SafeQueue
unfolding lock
append q item = do
  held ← lock q
  cells ← store held.cells held.rear (some item)
  ok (record held {
    cells = cells;
    rear = add_size held.rear 1 % held.capacity;
    size = add_size held.size 1;
    locked = false;
  })

unfoldable pub enqueue : SafeQueue → ℕ → Exec SafeQueue
unfolding resize append
enqueue q item = do roomy ← grow q; append roomy item

-- `waits` is a thread in `pthread_cond_wait`, which has given the mutex back.
pub data Taken : Type 0 where
  waits : SafeQueue → Taken
  takes : Cell → SafeQueue → Taken

abbrev shrink : SafeQueue → Exec SafeQueue
shrink q = if ltb 0 q.size && q.size == q.capacity / 4 then resize q (q.capacity / 2) else ok q

-- The part of `safe_queue_dequeue` behind the waiting loop, with the mutex held.
unfoldable pub remove : SafeQueue → Exec Taken
unfolding resize
remove held = do
  item ← fetch held.cells held.front
  fitted ←
      shrink
        (record held { front = add_size held.front 1 % held.capacity; size = sub_size held.size 1 })
  ok (takes item (unlock fitted))

unfoldable pub dequeue : SafeQueue → Exec Taken
unfolding lock remove
dequeue q = do held ← lock q; if held.size == 0 then ok (waits (unlock held)) else remove held
