-- ===== src/Pool/Destroy.antt =====
-- `thread_pool_destroy` comes to its end, and not before all tasks have been run.
use mathlib.Core.Path.{subst}
use ntu_computer_network.Base.{
  ◌>>=◌, ◌-◌, false, ◌∙◌, inr, inl, ℕ, zero, suc, ◌≤◌, ◌<◌, ◌≡◌, refl, sym, ap, ◌≢◌, List, [], ◌∷◌,
  ◌++◌, arith, length,
}
use ntu_computer_network.Queue.History.{
  enqueue-Holds, dequeue-Holds, dequeue_empty-Holds, Holds, size-Holds,
}
use ntu_computer_network.Pool.{
  frees, joins, stop_push, joining, stop_pushed, freed, stopping, returns, tests, takes, serving,
  Phase, sleeps, put_item, Step, Worker, asking, asleep, exited, testing, busy, ThreadPool, total,
  Reach, StaysWithin,
}
use ntu_computer_network.Pool.Counts.{
  Signal-exists, found, is_asking, is_exited, zero_or_pos, occurrences, occurrences-append,
}
use ntu_computer_network.Pool.Moves.{Reach-IsValid}
use ntu_computer_network.Pool.Valid.{
  IsValid, left, joined, is_serving, NullsLast, NullsLast-append, occurrences-le-length,
}
use ntu_computer_network.Pool.Moves.{few_wait, Reach-IsValid}
use ntu_computer_network.Pool.Crew.{
  is_testing, is_busy, total-all, tests_item-le, has_item-le, all_exited,
}

-- No thread can move.
abbrev pub IsStuck : ThreadPool → Type 0
IsStuck p = (q : ThreadPool) → ¬ (Step p q)

sole :
    (w : Worker)
    → (0 < is_asking w → w ≡ asking)
      × (0 < is_testing w → (x : ℕ) × (w ≡ testing x))
      × (0 < is_busy w → (x : ℕ) × (w ≡ busy x))
sole asking = ((λ h. refl), (λ h. absurd (omega arith)), (λ h. absurd (omega arith)))
sole asleep =
    ((λ h. absurd (omega arith)), (λ h. absurd (omega arith)), (λ h. absurd (omega arith)))
sole exited =
    ((λ h. absurd (omega arith)), (λ h. absurd (omega arith)), (λ h. absurd (omega arith)))
sole (testing x) = ((λ h. absurd (omega arith)), (λ h. (x, refl)), (λ h. absurd (omega arith)))
sole (busy x) = ((λ h. absurd (omega arith)), (λ h. absurd (omega arith)), (λ h. (x, refl)))

asking_moves :
    (p : ThreadPool) (waiting : List ℕ) (before after : List Worker)
    → Holds waiting p.queue
    → length waiting ≤ 32
    → p.workers ≡ before ++ asking ∷ after
    → (q : ThreadPool) × Step p q
asking_moves p [] before after h few e = (_, sleeps before after e (dequeue_empty-Holds h))
asking_moves p (x ∷ xs) before after h few e =
    let (q, run, rest) = dequeue-Holds h (omega arith) in (_, takes x before after e run)

module _ {p : ThreadPool} (v : IsValid p) (few : p.queue.size ≤ 32) (stuck : IsStuck p) where
  none_asking : total is_asking p.workers ≡ 0
  none_asking = elim (zero_or_pos (total is_asking p.workers)) [
    | inl none ↦ none
    | inr some_asks ↦
        let (before, w, after, e, h) = found is_asking p.workers some_asks in
        let (q, step) =
          asking_moves p v.waiting before after v.holds (omega (arith, size-Holds v.holds))
            (e ∙ ap (λ u. before ++ u ∷ after) ((sole w).0 h)) in
        absurd (stuck q step)
  ]

  none_testing : total is_testing p.workers ≡ 0
  none_testing = elim (zero_or_pos (total is_testing p.workers)) [
    | inl none ↦ none
    | inr some_tests ↦
        let (before, w, after, e, h) = found is_testing p.workers some_tests in
        let (x, at) = (sole w).1 h in
        absurd (stuck _ (tests x before after (e ∙ ap (λ u. before ++ u ∷ after) at)))
  ]

  none_busy : total is_busy p.workers ≡ 0
  none_busy = elim (zero_or_pos (total is_busy p.workers)) [
    | inl none ↦ none
    | inr some_runs ↦
        let (before, w, after, e, h) = found is_busy p.workers some_runs in
        let (x, at) = (sole w).2 h in
        absurd (stuck _ (returns x before after (e ∙ ap (λ u. before ++ u ∷ after) at)))
  ]

  all_queued : (phase : Phase) → p.phase ≡ phase → is_serving phase ≡ false → left p.size phase ≡ 0
  unfolding put_item
  all_queued serving now e = cc
  all_queued (stopping zero) now e = refl
  all_queued (stopping (suc n)) now e =
      let (q, run, h) = enqueue-Holds 0 v.holds (omega (arith, size-Holds v.holds)) in
      let (ws, s) = Signal-exists p.workers in
      absurd (
        stuck _
          (stop_push {r = record p { queue = q; put = p.put ++ 0 ∷ [] }} n now (rw (run, ◌>>=◌)) s))
  all_queued (joining n) now e = refl
  all_queued freed now e = refl

  joined_all :
      (phase : Phase)
      → p.phase ≡ phase
      → is_serving phase ≡ false
      → total is_exited p.workers ≡ p.size
      → phase ≡ freed
  joined_all serving now e gone = cc
  joined_all (stopping zero) now e gone = absurd (stuck _ (stop_pushed now))
  joined_all (stopping (suc n)) now e gone = cc (all_queued (stopping (suc n)) now e)
  joined_all (joining n) now e gone = elim (zero_or_pos (p.size - n)) [
    | inl last ↦
        let bound : n ≤ p.size = omega (arith, v.join_bound, ap joined now) in
        absurd (stuck _ (frees (now ∙ ap joining (omega arith))))
    | inr more ↦
        absurd (
          stuck _
            (joins n now (all_exited p.workers n (gone ∙ sym v.crew) (omega (arith, v.crew)))))
  ]
  joined_all freed now e gone = refl

  -- Nobody sleeps: the NULLs have been taken, one by each worker.
  everyone_left : is_serving p.phase ≡ false → total is_exited p.workers ≡ p.size
  everyone_left e =
      let queued = all_queued p.phase refl e in
      let here = total-all p.workers in
      elim v.awake [
        | inl none ↦ omega (arith, v.crew, here, none_asking, none_testing, none_busy)
        | inr enough ↦ omega (
          arith,
          none_asking,
          none_testing,
          v.nulls,
          v.exits,
          ap (occurrences 0) v.order,
          occurrences-append 0 p.taken v.waiting,
          occurrences-le-length 0 v.waiting,
          tests_item-le 0 p.workers,
        )
      ]

  nothing_waits : 0 < p.size → is_serving p.phase ≡ false → length v.waiting ≡ 0
  nothing_waits some_worker e =
      let behind : occurrences 0 v.waiting ≡ length v.waiting =
        NullsLast-append p.taken v.waiting (subst NullsLast (sym v.order) v.last)
          (omega (arith, v.exits, everyone_left e)) in
      omega (
        arith,
        behind,
        v.nulls,
        v.exits,
        everyone_left e,
        ap (occurrences 0) v.order,
        occurrences-append 0 p.taken v.waiting,
      )

-- Once `thread_pool_destroy` has been called on a pool of at least one worker whose queue never holds
-- more than 32 items, the threads can stop moving in one state only: the call has returned, every
-- worker has left its loop, the queue is empty, and each task that was ever put into the queue has
-- been run to its end, exactly as often as it was put there.
pub destroy_done :
    {size : ℕ} {p : ThreadPool} (r : Reach size p)
    → StaysWithin 32 r
    → 0 < p.size
    → is_serving p.phase ≡ false
    → IsStuck p
    → (p.phase ≡ freed)
      × (total is_exited p.workers ≡ p.size)
      × (p.queue.size ≡ 0)
      × ((x : ℕ) → x ≢ 0 → occurrences x p.finished ≡ occurrences x p.put)
destroy_done {p} r h some_worker e stuck =
    let v = Reach-IsValid r h in
    let few = few_wait r h in
    let empty = nothing_waits v few stuck some_worker e in
    let gone = everyone_left v few stuck e in
    (
      joined_all v few stuck p.phase refl e gone,
      gone,
      size-Holds v.holds ∙ empty,
      λ x task. omega (
        arith,
        v.tasks x task,
        ap (occurrences x) v.order,
        occurrences-append x p.taken v.waiting,
        occurrences-le-length x v.waiting,
        has_item-le x p.workers,
        none_testing v few stuck,
        none_busy v few stuck,
      ),
    )
