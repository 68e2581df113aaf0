-- ===== src/Pool/Moves.antt =====
-- Every step of a thread keeps what `Valid` says of the pool.
use ntu_computer_network.Base.{
  get_elem?-lt, ℕ, suc, ◌≤◌, ◌≡◌, refl, sym, ap, ◌∙◌, Bool, false, arith,
}
use ntu_computer_network.Queue
use ntu_computer_network.Queue.{SafeQueue, enqueue, dequeue}
use ntu_computer_network.Pool.{
  thread_pool_create, Phase, freed, stopping, joining, ThreadPool, Step, pushes, sleeps, takes,
  tests, returns, stop, stop_push, stop_pushed, joins, frees, Reach, start, next, StaysWithin,
}
use ntu_computer_network.Pool.Valid.{IsValid, left, joined, is_serving, create-IsValid}
use ntu_computer_network.Pool.QueueMoves.{
  pushes-IsValid, stop_push-IsValid, sleeps-IsValid, takes-IsValid,
}
use ntu_computer_network.Pool.WorkerMoves.{tests-IsValid, returns-IsValid}

-- The moves of the thread that stops the pool.
phase-IsValid :
    {p : ThreadPool} (phase : Phase) (running : Bool)
    → IsValid p
    → running ≡ is_serving phase
    → left p.size phase ≡ left p.size p.phase
    → joined phase ≤ p.size
    → IsValid (record p { running = running; phase = phase })
phase-IsValid phase running v still_open same bound = record {
  waiting = v.waiting;
  holds = v.holds;
  order = v.order;
  awake = v.awake;
  crew = v.crew;
  open_until = still_open;
  nulls = omega (arith, v.nulls);
  exits = v.exits;
  no_null_task = v.no_null_task;
  tasks = v.tasks;
  last = v.last;
  join_bound = bound;
}

-- Each step keeps the pool valid as long as no more than 32 items wait: the ring is never resized.
pub Step-IsValid : {p q : ThreadPool} → IsValid p → p.queue.size ≤ 32 → Step p q → IsValid q
Step-IsValid v few (pushes item now task e s) = pushes-IsValid item v few now task e s
Step-IsValid v few (sleeps before after e run) = sleeps-IsValid before after v few e run
Step-IsValid v few (takes item before after e run) = takes-IsValid item before after v few e run
Step-IsValid v few (tests item before after e) = tests-IsValid before after v item e
Step-IsValid v few (returns item before after e) = returns-IsValid before after v item e
Step-IsValid {p} v few (stop now) =
    phase-IsValid (stopping p.size) false v refl (ap (left p.size) (sym now)) (omega arith)
Step-IsValid v few (stop_push n now e s) = stop_push-IsValid n v few now e s
Step-IsValid {p} v few (stop_pushed now) =
    phase-IsValid (joining 0) p.running v (v.open_until ∙ ap is_serving now)
      (ap (left p.size) (sym now)) (omega arith)
Step-IsValid {p} v few (joins n now gone) =
    phase-IsValid (joining (suc n)) p.running v (v.open_until ∙ ap is_serving now)
      (ap (left p.size) (sym now)) (omega (arith, v.crew, get_elem?-lt p.workers n gone))
Step-IsValid {p} v few (frees now) =
    phase-IsValid freed p.running v (v.open_until ∙ ap is_serving now) (ap (left p.size) (sym now))
      (omega arith)

size-create : (size : ℕ) → (thread_pool_create size).queue.size ≤ 32
unfolding thread_pool_create Queue.create
size-create size = omega arith

pub few_wait : {size : ℕ} {p : ThreadPool} (r : Reach size p) → StaysWithin 32 r → p.queue.size ≤ 32
few_wait {size} start h = size-create size
few_wait (next before step) h = h.1

pub Reach-IsValid : {size : ℕ} {p : ThreadPool} (r : Reach size p) → StaysWithin 32 r → IsValid p
Reach-IsValid {size} start h = create-IsValid size
Reach-IsValid (next before step) h =
    Step-IsValid (Reach-IsValid before h.0) (few_wait before h.0) step
