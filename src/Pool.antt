-- ===== src/Pool.antt =====
-- src/pool.c and src/pool.h: worker threads that take tasks from the queue of src/queue.c.
-- A call on the queue runs under its mutex and is one step of the thread that makes it. A task is a
-- pointer as a number, not 0. `pthread_cond_signal` wakes one sleeping worker, if there is one, and
-- which one is left open. No sleeping worker wakes by itself. The
-- task's function can always return. A push behind the start of `thread_pool_destroy` is in
-- HttpServer/Accept.
pub mod Counts
pub mod Valid
pub mod QueueMoves
pub mod WorkerMoves
pub mod Moves
pub mod Once
pub mod Crew
pub mod Destroy
pub mod Ends
use ntu_computer_network.Base.{
  ℕ, suc, ◌≢◌, ◌≡◌, Bool, true, false, not, ◌&&◌, ◌==◌, if◌then◌else◌, some, List, [], ◌∷◌, ◌++◌,
  ◌+◌, ◌≤◌, get_elem?, replicate, Exec, ok, ◌>>=◌,
}
use ntu_computer_network.Queue
use ntu_computer_network.Queue.{SafeQueue, enqueue, dequeue}

-- Where a worker stands: before the lock in `safe_queue_dequeue`, in `pthread_cond_wait`, before the
-- test of the item it has got, in the call of `worker(item)`, or behind its loop.
pub data Worker : Type 0 where
  asking asleep exited : Worker
  testing busy : (item : ℕ) → Worker

-- Where the thread stands that owns the pool: before `thread_pool_destroy`, in its first loop with
-- so many NULLs left to queue, in its second loop with so many threads joined, or behind it.
pub data Phase : Type 0 where
  serving freed : Phase
  stopping joining : (n : ℕ) → Phase

-- `ThreadPool`, with the threads, and three histories: what was put into the queue and taken out of
-- it, and the tasks that have been run to their end.
pub record ThreadPool : Type 0 where
  pub size : ℕ
  pub workers : List Worker
  pub queue : SafeQueue
  pub running : Bool
  pub phase : Phase
  pub put : List ℕ
  pub taken : List ℕ
  pub finished : List ℕ

unfoldable pub thread_pool_create : ℕ → ThreadPool
thread_pool_create size = record {
  size = size;
  workers = replicate size asking;
  queue = Queue.create;
  running = true;
  phase = serving;
  put = [];
  taken = [];
  finished = [];
}

unfoldable pub put_item : ThreadPool → ℕ → Exec ThreadPool
put_item p item = do q ← enqueue p.queue item; ok (record p { queue = q; put = p.put ++ item ∷ [] })

unfoldable pub thread_pool_push : ThreadPool → ℕ → Exec ThreadPool
unfolding put_item
thread_pool_push p item = if p.running then put_item p item else ok p

-- The test behind `safe_queue_dequeue` in `thread_pool_worker`.
abbrev pub after_test : Bool → ℕ → Worker
after_test running item = if item == 0 && not running then exited else busy item

abbrev pub is_asleep : Worker → ℕ
is_asleep asleep = 1
is_asleep _ = 0

abbrev pub total : (Worker → ℕ) → List Worker → ℕ
total f [] = 0
total f (w ∷ ws) = f w + total f ws

-- `pthread_cond_signal`
pub data Signal (ws : List Worker) : List Worker → Type 0 where
  nobody : total is_asleep ws ≡ 0 → Signal ws ws
  wakes :
      (before after : List Worker)
      → ws ≡ before ++ asleep ∷ after
      → Signal ws (before ++ asking ∷ after)

-- One step of one thread.
pub data Step (p : ThreadPool) : ThreadPool → Type 0 where
  pushes :
      {r : ThreadPool} {ws : List Worker} (item : ℕ)
      → p.phase ≡ serving
      → item ≢ 0
      → thread_pool_push p item ≡ ok r
      → Signal r.workers ws
      → Step p (record r { workers = ws })
  sleeps :
      {q : SafeQueue} (before after : List Worker)
      → p.workers ≡ before ++ asking ∷ after
      → dequeue p.queue ≡ ok (Queue.waits q)
      → Step p (record p { queue = q; workers = before ++ asleep ∷ after })
  takes :
      {q : SafeQueue} (item : ℕ) (before after : List Worker)
      → p.workers ≡ before ++ asking ∷ after
      → dequeue p.queue ≡ ok (Queue.takes (some item) q)
      → Step p (record p {
        queue = q;
        workers = before ++ testing item ∷ after;
        taken = p.taken ++ item ∷ [];
      })
  tests :
      (item : ℕ) (before after : List Worker)
      → p.workers ≡ before ++ testing item ∷ after
      → Step p (record p { workers = before ++ after_test p.running item ∷ after })
  returns :
      (item : ℕ) (before after : List Worker)
      → p.workers ≡ before ++ busy item ∷ after
      → Step p (record p { workers = before ++ asking ∷ after; finished = p.finished ++ item ∷ [] })
  stop : p.phase ≡ serving → Step p (record p { running = false; phase = stopping p.size })
  stop_push :
      {r : ThreadPool} {ws : List Worker} (left : ℕ)
      → p.phase ≡ stopping (suc left)
      → put_item p 0 ≡ ok r
      → Signal r.workers ws
      → Step p (record r { workers = ws; phase = stopping left })
  stop_pushed : p.phase ≡ stopping 0 → Step p (record p { phase = joining 0 })
  joins :
      (n : ℕ)
      → p.phase ≡ joining n
      → get_elem? p.workers n ≡ some exited
      → Step p (record p { phase = joining (suc n) })
  frees : p.phase ≡ joining p.size → Step p (record p { phase = freed })

-- The states of a pool of `size` workers.
pub data Reach (size : ℕ) : ThreadPool → Type 0 where
  start : Reach size (thread_pool_create size)
  next : {p q : ThreadPool} → Reach size p → Step p q → Reach size q

-- At no time do more than `n` items wait.
abbrev pub StaysWithin : (n : ℕ) {size : ℕ} {p : ThreadPool} → Reach size p → Type 0
StaysWithin n start = Unit {0}
StaysWithin n (next {q} before step) = StaysWithin n before × (q.queue.size ≤ n)
