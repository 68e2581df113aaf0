-- ===== src/Pool/Ends.antt =====
-- `thread_pool_destroy` cannot go on for ever.
use ntu_computer_network.Base.{
  get_elem?-lt, ◌-◌, Bool, false, ◌*◌, ◌<◌, ℕ, ◌+◌, ◌≤◌, ◌≡◌, ap, ◌∙◌, List, [], ◌∷◌, ◌++◌, arith,
  length, length-append,
}
use ntu_computer_network.Queue.{SafeQueue}
use ntu_computer_network.Queue.History.{size-Holds}
use ntu_computer_network.Pool.{
  Worker, asking, asleep, exited, testing, busy, Phase, serving, freed, stopping, joining,
  ThreadPool, after_test, total, Signal, nobody, wakes, Step, pushes, sleeps, takes, tests, returns,
  stop, stop_push, stop_pushed, joins, frees, Reach, StaysWithin,
}
use ntu_computer_network.Pool.Counts.{total-replace}
use ntu_computer_network.Pool.Destroy.{IsStuck, destroy_done}
use ntu_computer_network.Pool.Valid.{IsValid, is_serving}
use ntu_computer_network.Pool.QueueMoves.{put_item-eq, dequeued_waits, dequeued_takes}
use ntu_computer_network.Pool.Moves.{few_wait, Reach-IsValid}

-- How many steps the pool can take at most, once it is being destroyed.
abbrev pub worker_steps : Worker → ℕ
worker_steps exited = 0
worker_steps asleep = 1
worker_steps asking = 2
worker_steps (busy _) = 3
worker_steps (testing _) = 4

abbrev pub phase_steps : ℕ → Phase → ℕ
phase_steps size serving = 0
phase_steps size (stopping n) = 10 * n + size + 2
phase_steps size (joining n) = size - n + 1
phase_steps size freed = 0

abbrev pub steps_left : ThreadPool → ℕ
steps_left p = phase_steps p.size p.phase + 5 * p.queue.size + total worker_steps p.workers

total-woken :
    {ws vs : List Worker} → Signal ws vs → total worker_steps vs ≤ total worker_steps ws + 1
total-woken (nobody none) = omega arith
total-woken (wakes before after e) =
    omega (arith, total-replace worker_steps before after asleep asking e)

after_test-steps : (running : Bool) (item : ℕ) → worker_steps (after_test running item) ≤ 3
after_test-steps running item = ground arith

move_lowers :
    (p : ThreadPool) (before after : List Worker) (w v : Worker)
    → p.workers ≡ before ++ w ∷ after
    → worker_steps v < worker_steps w
    → steps_left (record p { workers = before ++ v ∷ after }) < steps_left p
move_lowers p before after w v e h = omega (arith, total-replace worker_steps before after w v e)

lowers :
    {p q : ThreadPool}
    → IsValid p
    → p.queue.size ≤ 32
    → is_serving p.phase ≡ false
    → Step p q
    → steps_left q < steps_left p
lowers v few e (pushes item now task run s) = cc
lowers {p} v few e (sleeps before after at run) =
    let (none, h) = dequeued_waits v.waiting v.holds (omega (arith, size-Holds v.holds)) run in
    omega (arith, size-Holds h, total-replace worker_steps before after asking asleep at)
lowers {p} v few e (takes item before after at run) =
    let (rest, first, h) =
      dequeued_takes v.waiting item v.holds (omega (arith, size-Holds v.holds)) run in
    omega (
      arith,
      size-Holds h,
      size-Holds v.holds,
      ap length first,
      total-replace worker_steps before after asking (testing item) at,
    )
lowers {p} v few e (tests item before after at) =
    move_lowers p before after (testing item) (after_test p.running item) at
      (omega (arith, after_test-steps p.running item))
lowers {p} v few e (returns item before after at) =
    move_lowers p before after (busy item) asking at (omega arith)
lowers v few e (stop now) = cc
lowers {p} v few e (stop_push {r} {ws} n now run s) =
    let (q, h, same) = put_item-eq {p = p} {r = r} 0 v few run in
    let size_is : r.size ≡ p.size = ap (λ (t : ThreadPool). t.size) same in
    let queue_is : r.queue ≡ q = ap (λ (t : ThreadPool). t.queue) same in
    let workers_are : r.workers ≡ p.workers = ap (λ (t : ThreadPool). t.workers) same in
    let longer : r.queue.size ≡ p.queue.size + 1 =
      ap (λ (t : SafeQueue). t.size) queue_is
      ∙ omega (arith, size-Holds h, size-Holds v.holds, length-append v.waiting (0 ∷ [])) in
    omega (
      arith,
      ap (phase_steps p.size) now,
      size_is,
      longer,
      total-woken s,
      ap (total worker_steps) workers_are,
    )
lowers {p} v few e (stop_pushed now) = omega (arith, ap (phase_steps p.size) now)
lowers {p} v few e (joins n now gone) =
    omega (arith, ap (phase_steps p.size) now, v.crew, get_elem?-lt p.workers n gone)
lowers {p} v few e (frees now) = omega (arith, ap (phase_steps p.size) now)

-- `thread_pool_destroy` comes to its end, when every call of the task's function returns and
-- `pthread_cond_wait` wakes up for signals only: once it has been called on a pool with at least one
-- worker, whose queue never holds more than 32 items, every step of any thread lowers the number
-- `steps_left`, so that there are only that many; and when no thread can move, the pool is freed.
pub destroy_ends :
    {size : ℕ} {p : ThreadPool} (r : Reach size p)
    → StaysWithin 32 r
    → 0 < p.size
    → is_serving p.phase ≡ false
    → ((q : ThreadPool) → Step p q → steps_left q < steps_left p) × (IsStuck p → p.phase ≡ freed)
destroy_ends r h some_worker e = (
  (λ q step. lowers (Reach-IsValid r h) (few_wait r h) e step),
  λ stuck. (destroy_done r h some_worker e stuck).0,
)
