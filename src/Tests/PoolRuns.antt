-- ===== src/Tests/PoolRuns.antt =====
-- Small pools: a task that is run, two workers that sleep, and the end.
use ntu_computer_network.Base.{
  ℕ, ◌+◌, ◌≤◌, ◌<◌, ◌≡◌, refl, sym, ◌∙◌, ap, ◌≢◌, List, [], ◌∷◌, ◌++◌, map, arith, some, fetch,
  store,
}
use ntu_computer_network.Queue
use ntu_computer_network.Queue.{Cell, enqueue, dequeue, lock, append, resize}
use ntu_computer_network.Queue.Ring.{contents}
use ntu_computer_network.Pool.{
  Step, Worker, asking, asleep, exited, testing, busy, freed, ThreadPool, thread_pool_create, Step,
  put_item, thread_pool_push, total, nobody, wakes, pushes, sleeps, takes, tests, returns, stop,
  stop_push, stop_pushed, joins, frees, Reach, start, next, StaysWithin,
}
use ntu_computer_network.Pool.Counts.{is_asking, is_exited, has_item, occurrences, total-append}
use ntu_computer_network.Pool.Crew.{is_testing, is_busy}
use ntu_computer_network.Pool.Once.{tasks_once, no_lost_wakeup}
use ntu_computer_network.Pool.Destroy.{IsStuck, destroy_done}
use ntu_computer_network.Pool.Ends.{steps_left, destroy_ends}

record Run (size : ℕ) : Type 0 where
  last : ThreadPool
  reach : Reach size last
  within : StaysWithin 32 reach

abbrev pushed : Run 1
unfolding thread_pool_create thread_pool_push put_item enqueue append lock Queue.create store
pushed = record {
  last = _;
  reach = next start (pushes 7 refl (λ e. omega arith) refl (nobody refl));
  within = (tt, omega arith);
}

abbrev woken : Run 2
unfolding thread_pool_create thread_pool_push put_item enqueue dequeue append lock Queue.create
    store
woken = record {
  last = _;
  reach =
      next
        (next (next start (sleeps [] (asking ∷ []) refl refl)) (sleeps (asleep ∷ []) [] refl refl))
        (pushes 7 refl (λ e. omega arith) refl (wakes [] (asleep ∷ []) refl));
  within = (((tt, omega arith), omega arith), omega arith);
}

tasks_once_example :
    (waiting : List ℕ) × (contents pushed.last.queue ≡ map {B = Cell} some waiting)
    × (pushed.last.taken ++ waiting ≡ pushed.last.put)
    × ((x : ℕ)
        → x ≢ 0
        → occurrences x pushed.last.put
          ≡ occurrences x waiting
            + total (has_item x) pushed.last.workers
            + occurrences x pushed.last.finished)
tasks_once_example = tasks_once pushed.reach pushed.within

no_lost_wakeup_example : woken.last.queue.size ≤ total is_asking woken.last.workers
unfolding woken
no_lost_wakeup_example = no_lost_wakeup woken.reach woken.within (omega arith)

abbrev run_once : Run 1
unfolding pushed dequeue Queue.remove fetch
run_once = record {
  last = _;
  reach =
      next (next (next pushed.reach (takes 7 [] [] refl refl)) (tests 7 [] [] refl))
        (returns 7 [] [] refl);
  within = (((pushed.within, omega arith), omega arith), omega arith);
}

abbrev stopped : Run 1
unfolding run_once put_item enqueue append lock store
stopped = record {
  last = _;
  reach = next (next run_once.reach (stop refl)) (stop_push 0 refl refl (nobody refl));
  within = ((run_once.within, omega arith), omega arith);
}

abbrev ended : Run 1
unfolding stopped dequeue Queue.remove fetch
ended = record {
  last = _;
  reach =
      next
        (next
          (next (next (next stopped.reach (stop_pushed refl)) (takes 0 [] [] refl refl))
            (tests 0 [] [] refl))
          (joins 0 refl refl))
        (frees refl);
  within =
      (((((stopped.within, omega arith), omega arith), omega arith), omega arith), omega arith);
}

-- A worker behind its loop is nowhere else.
only_exited :
    (f : Worker → ℕ) (before after : List Worker) (w : Worker)
    → f exited ≡ 0
    → 0 < f w
    → exited ∷ [] ≢ before ++ w ∷ after
only_exited f before after w none h e =
    omega (arith, ap (total f) e, total-append f before (w ∷ after))

-- A pool of one worker that is freed does not move.
pub freed-IsStuck : (p : ThreadPool) → p.workers ≡ exited ∷ [] → p.phase ≡ freed → IsStuck p
freed-IsStuck p alone over q (pushes item now task e s) = cc
freed-IsStuck p alone over q (sleeps before after e run) =
    only_exited is_asking before after asking refl (omega arith) (sym alone ∙ e)
freed-IsStuck p alone over q (takes item before after e run) =
    only_exited is_asking before after asking refl (omega arith) (sym alone ∙ e)
freed-IsStuck p alone over q (tests item before after e) =
    only_exited is_testing before after (testing item) refl (omega arith) (sym alone ∙ e)
freed-IsStuck p alone over q (returns item before after e) =
    only_exited is_busy before after (busy item) refl (omega arith) (sym alone ∙ e)
freed-IsStuck p alone over q (stop now) = cc
freed-IsStuck p alone over q (stop_push n now e s) = cc
freed-IsStuck p alone over q (stop_pushed now) = cc
freed-IsStuck p alone over q (joins n now e) = cc
freed-IsStuck p alone over q (frees now) = cc

destroy_done_example :
    (ended.last.phase ≡ freed)
    × (total is_exited ended.last.workers ≡ ended.last.size)
    × (ended.last.queue.size ≡ 0)
    × ((x : ℕ) → x ≢ 0 → occurrences x ended.last.finished ≡ occurrences x ended.last.put)
unfolding ended
destroy_done_example =
    destroy_done ended.reach ended.within (omega arith) refl (freed-IsStuck ended.last refl refl)

destroy_ends_example :
    ((q : ThreadPool) → Step stopped.last q → steps_left q < steps_left stopped.last)
    × (IsStuck stopped.last → stopped.last.phase ≡ freed)
unfolding stopped
destroy_ends_example = destroy_ends stopped.reach stopped.within (omega arith) refl
