-- ===== src/Pool/Once.antt =====
-- What the pool promises while it serves: every task is run once, and no wake-up is lost.
use ntu_computer_network.Base.{ℕ, ◌+◌, ◌≤◌, ◌<◌, ◌≡◌, ap, ◌≢◌, List, ◌++◌, map, arith, some}
use ntu_computer_network.Queue.{Cell}
use ntu_computer_network.Queue.Ring.{contents}
use ntu_computer_network.Queue.History.{size-Holds}
use ntu_computer_network.Pool.{ThreadPool, is_asleep, total, Reach, StaysWithin}
use ntu_computer_network.Pool.Counts.{is_asking, has_item, occurrences, occurrences-append}
use ntu_computer_network.Pool.Moves.{Reach-IsValid}

-- A pool whose queue never holds more than 32 items: what was put into the queue comes out of it in
-- the same order, and every task that was put in is, exactly as often, still waiting, or held by a
-- worker, or finished.
pub tasks_once :
    {size : ℕ} {p : ThreadPool} (r : Reach size p)
    → StaysWithin 32 r
    → (waiting : List ℕ) × (contents p.queue ≡ map {B = Cell} some waiting)
      × (p.taken ++ waiting ≡ p.put)
      × ((x : ℕ)
          → x ≢ 0
          → occurrences x p.put
            ≡ occurrences x waiting + total (has_item x) p.workers + occurrences x p.finished)
tasks_once {p} r h =
    let v = Reach-IsValid r h in
    (
      v.waiting,
      v.holds.items,
      v.order,
      λ x task. omega (
        arith,
        ap (occurrences x) v.order,
        occurrences-append x p.taken v.waiting,
        v.tasks x task,
      ),
    )

-- No wake-up is lost in a pool whose queue never holds more than 32 items: while a worker sleeps,
-- there are at least as many workers on their way to the queue as items that wait.
pub no_lost_wakeup :
    {size : ℕ} {p : ThreadPool} (r : Reach size p)
    → StaysWithin 32 r
    → 0 < total is_asleep p.workers
    → p.queue.size ≤ total is_asking p.workers
no_lost_wakeup r h some_asleep =
    let v = Reach-IsValid r h in ground (arith, v.awake, size-Holds v.holds)
