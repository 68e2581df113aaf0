-- ===== src/Pool/QueueMoves.antt =====
-- The steps that put into the queue or take out of it keep the pool valid.
use ntu_computer_network.Base.{
  ℕ, suc, ◌+◌, ◌≤◌, ◌≡◌, refl, sym, ap, ◌∙◌, ◌≢◌, inl, inr, true, List, [], ◌∷◌, ◌++◌, arith, ◌==◌,
  length, length-append, append_assoc, some, Exec, ok, ne→==,
}
use ntu_computer_network.Queue
use ntu_computer_network.Queue.{SafeQueue, enqueue, dequeue}
use ntu_computer_network.Queue.History.{
  Holds, size-Holds, enqueue-Holds, dequeue-Holds, dequeue_empty-Holds,
}
use ntu_computer_network.Pool.{
  Worker, asking, asleep, testing, Phase, serving, stopping, ThreadPool, put_item, thread_pool_push,
  is_asleep, Signal,
}
use ntu_computer_network.Pool.Counts.{
  is_asking, is_exited, tests_item, runs_item, has_item, occurrences, occurrences-append, one_if,
  total-replace, length-replace, total-Signal, length-Signal, Signal-wakes,
}
use ntu_computer_network.Pool.Valid.{
  IsValid, left, joined, is_serving, NullsLast, NullsLast-snoc_task, NullsLast-snoc_null,
}

pub dequeued_waits :
    (waiting : List ℕ) {p q : SafeQueue}
    → Holds waiting p
    → length waiting ≤ 32
    → dequeue p ≡ ok (Queue.waits q)
    → (waiting ≡ []) × Holds [] q
dequeued_waits [] {p} {q} h few e =
    let same : p ≡ q = cc (dequeue_empty-Holds h) in (refl, rw (← same) h)
dequeued_waits (x ∷ xs) h few e = let (r, run, rest) = dequeue-Holds h (omega arith) in cc

pub dequeued_takes :
    (waiting : List ℕ) {p q : SafeQueue} (item : ℕ)
    → Holds waiting p
    → length waiting ≤ 32
    → dequeue p ≡ ok (Queue.takes (some item) q)
    → (rest : List ℕ) × (waiting ≡ item ∷ rest) × Holds rest q
dequeued_takes [] item h few e = cc (dequeue_empty-Holds h)
dequeued_takes (x ∷ xs) {p} {q} item h few e =
    let (r, run, rest) = dequeue-Holds h (omega arith) in
    let same : r ≡ q = cc in
    let first : x ≡ item = cc in (xs, ap (λ y. y ∷ xs) first, rw (← same) rest)

-- What `safe_queue_enqueue` leaves of the pool.
pub put_item-eq :
    {p r : ThreadPool} (item : ℕ) (v : IsValid p)
    → p.queue.size ≤ 32
    → put_item p item ≡ ok r
    → (q : SafeQueue) × Holds (v.waiting ++ item ∷ []) q
      × (r ≡ record p { queue = q; put = p.put ++ item ∷ [] })
unfolding put_item
put_item-eq {p} {r} item v few e =
    let (q, run, h) = enqueue-Holds item v.holds (omega (arith, size-Holds v.holds)) in
    let ran : ◌≡◌ {A = Exec ThreadPool} (ok (record p { queue = q; put = p.put ++ item ∷ [] }))
        (ok r) =
      rw run at e in
    (q, h, cc)

put-IsValid :
    {p : ThreadPool} {q : SafeQueue} {ws : List Worker} (item : ℕ) (phase : Phase) (v : IsValid p)
    → Holds (v.waiting ++ item ∷ []) q
    → Signal p.workers ws
    → p.running ≡ is_serving phase
    → occurrences 0 p.put + one_if (item == 0) + left p.size phase ≡ p.size
    → joined phase ≡ 0
    → NullsLast (p.put ++ item ∷ [])
    → IsValid (record p { queue = q; put = p.put ++ item ∷ []; workers = ws; phase = phase })
put-IsValid {p} {q} {ws} item phase v h s still_open nulls none last = record {
  waiting = v.waiting ++ item ∷ [];
  holds = h;
  order = sym (append_assoc p.taken v.waiting (item ∷ [])) ∙ ap (λ xs. xs ++ item ∷ []) v.order;
  awake = ground (arith, Signal-wakes s, v.awake, length-append v.waiting (item ∷ []));
  crew = length-Signal s ∙ v.crew;
  open_until = still_open;
  nulls = omega (arith, occurrences-append 0 p.put (item ∷ []));
  exits = omega (arith, v.exits, total-Signal is_exited refl s, total-Signal (tests_item 0) refl s);
  no_null_task = total-Signal (runs_item 0) refl s ∙ v.no_null_task;
  tasks = λ x h.
      v.tasks x h ∙ ap (λ n. occurrences x p.finished + n) (sym (total-Signal (has_item x) refl s));
  last = last;
  join_bound = omega arith;
}

push-running :
    (p : ThreadPool) (item : ℕ) → p.running ≡ true → thread_pool_push p item ≡ put_item p item
unfolding thread_pool_push put_item
push-running p item on = simp on

pub pushes-IsValid :
    {p r : ThreadPool} {ws : List Worker} (item : ℕ)
    → IsValid p
    → p.queue.size ≤ 32
    → p.phase ≡ serving
    → item ≢ 0
    → thread_pool_push p item ≡ ok r
    → Signal r.workers ws
    → IsValid (record r { workers = ws })
pushes-IsValid {p} {r} {ws} item v few now task e s =
    let on : p.running ≡ true = v.open_until ∙ ap is_serving now in
    let none : occurrences 0 p.put ≡ 0 = omega (arith, v.nulls, ap (left p.size) now) in
    let (q, h, same) = put_item-eq {p = p} {r = r} item v few (sym (push-running p item on) ∙ e) in
    rw same (
      put-IsValid item p.phase v h (rw same at s) v.open_until
        (omega (arith, v.nulls, ap one_if (ne→== item 0 task))) (ap joined now)
        (NullsLast-snoc_task p.put item v.last none task))

pub stop_push-IsValid :
    {p r : ThreadPool} {ws : List Worker} (n : ℕ)
    → IsValid p
    → p.queue.size ≤ 32
    → p.phase ≡ stopping (suc n)
    → put_item p 0 ≡ ok r
    → Signal r.workers ws
    → IsValid (record r { workers = ws; phase = stopping n })
stop_push-IsValid {p} {r} {ws} n v few now e s =
    let (q, h, same) = put_item-eq {p = p} {r = r} 0 v few e in
    rw same (
      put-IsValid 0 (stopping n) v h (rw same at s) (v.open_until ∙ ap is_serving now)
        (omega (arith, v.nulls, ap (left p.size) now)) refl (NullsLast-snoc_null p.put v.last))

-- A worker moves and holds the same as before; the queue and the histories stay.
pub sleeps-IsValid :
    {p : ThreadPool} {q : SafeQueue} (before after : List Worker)
    → IsValid p
    → p.queue.size ≤ 32
    → p.workers ≡ before ++ asking ∷ after
    → dequeue p.queue ≡ ok (Queue.waits q)
    → IsValid (record p { queue = q; workers = before ++ asleep ∷ after })
sleeps-IsValid {p} {q} before after v few e run =
    let (none, h) = dequeued_waits v.waiting v.holds (omega (arith, size-Holds v.holds)) run in
    record {
      waiting = [];
      holds = h;
      order = rw none at v.order;
      awake = inr (omega arith);
      crew = length-replace before after asking asleep e ∙ v.crew;
      open_until = v.open_until;
      nulls = v.nulls;
      exits = omega (
        arith,
        v.exits,
        total-replace is_exited before after asking asleep e,
        total-replace (tests_item 0) before after asking asleep e,
      );
      no_null_task =
          omega (arith, v.no_null_task, total-replace (runs_item 0) before after asking asleep e);
      tasks = λ x h.
          omega (arith, v.tasks x h, total-replace (has_item x) before after asking asleep e);
      last = v.last;
      join_bound = v.join_bound;
    }

pub takes-IsValid :
    {p : ThreadPool} {q : SafeQueue} (item : ℕ) (before after : List Worker)
    → IsValid p
    → p.queue.size ≤ 32
    → p.workers ≡ before ++ asking ∷ after
    → dequeue p.queue ≡ ok (Queue.takes (some item) q)
    → IsValid (record p {
      queue = q;
      workers = before ++ testing item ∷ after;
      taken = p.taken ++ item ∷ [];
    })
takes-IsValid {p} {q} item before after v few e run =
    let (rest, first, h) =
      dequeued_takes v.waiting item v.holds (omega (arith, size-Holds v.holds)) run in
    record {
      waiting = rest;
      holds = h;
      order =
          append_assoc p.taken (item ∷ []) rest ∙ ap (λ xs. p.taken ++ xs) (sym first) ∙ v.order;
      awake = elim v.awake [
        | inl none ↦
            inl (omega (arith, total-replace is_asleep before after asking (testing item) e))
        | inr enough ↦ inr (
            omega (
              arith,
              ap length first,
              total-replace is_asking before after asking (testing item) e,
            ))
      ];
      crew = length-replace before after asking (testing item) e ∙ v.crew;
      open_until = v.open_until;
      nulls = v.nulls;
      exits = omega (
        arith,
        v.exits,
        occurrences-append 0 p.taken (item ∷ []),
        total-replace is_exited before after asking (testing item) e,
        total-replace (tests_item 0) before after asking (testing item) e,
      );
      no_null_task =
          omega (
            arith,
            v.no_null_task,
            total-replace (runs_item 0) before after asking (testing item) e,
          );
      tasks = λ x h. omega (
        arith,
        v.tasks x h,
        occurrences-append x p.taken (item ∷ []),
        total-replace (has_item x) before after asking (testing item) e,
      );
      last = v.last;
      join_bound = v.join_bound;
    }
