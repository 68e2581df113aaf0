-- ===== src/Pool/WorkerMoves.antt =====
-- What a worker does between two calls on the queue keeps the pool valid.
use mathlib.Core.Path.{subst}
use ntu_computer_network.Base.{
  ℕ, ◌+◌, ◌<◌, ◌≡◌, refl, sym, ap, ◌∙◌, ◌≢◌, inl, inr, Bool, true, false, List, [], ◌∷◌, ◌++◌,
  arith, ◌==◌, Bool-cases, ne→==, ==→ne, ==_iff,
}
use ntu_computer_network.Pool.{
  Worker, asking, exited, testing, busy, Phase, serving, freed, stopping, joining, ThreadPool,
  after_test, is_asleep, total,
}
use ntu_computer_network.Pool.Counts.{
  is_asking, is_exited, tests_item, runs_item, has_item, occurrences, occurrences-append, one_if,
  total-replace, length-replace,
}
use ntu_computer_network.Pool.Valid.{IsValid, left, is_serving}

serving_has_no_null :
    (size n : ℕ) (phase : Phase) → n + left size phase ≡ size → 0 < n → is_serving phase ≡ false
serving_has_no_null size n serving e h = absurd (omega arith)
serving_has_no_null size n (stopping k) e h = refl
serving_has_no_null size n (joining k) e h = refl
serving_has_no_null size n freed e h = refl

-- A worker that tests a NULL finds the pool stopped.
null_stops :
    {p : ThreadPool} (v : IsValid p) → 0 < total (tests_item 0) p.workers → p.running ≡ false
null_stops {p} v h =
    v.open_until
    ∙ serving_has_no_null p.size (occurrences 0 p.put) p.phase v.nulls
        (omega (arith, v.exits, ap (occurrences 0) v.order, occurrences-append 0 p.taken v.waiting))

after_test-null :
    (running : Bool) (item : ℕ)
    → (item == 0) ≡ true
    → running ≡ false
    → after_test running item ≡ exited
after_test-null running item null off = rw (null, off)

after_test-task :
    (running : Bool) (item : ℕ) → (item == 0) ≡ false → after_test running item ≡ busy item
after_test-task running item task = rw task

-- The moves of a worker that leave the queue alone.
module _ {p : ThreadPool} (before after : List Worker) (v : IsValid p) where
  exits-IsValid :
      p.workers ≡ before ++ testing 0 ∷ after
      → IsValid (record p { workers = before ++ exited ∷ after })
  exits-IsValid e =
      let counts = λ (f : Worker → ℕ). total-replace f before after (testing 0) exited e in
      record {
        waiting = v.waiting;
        holds = v.holds;
        order = v.order;
        awake = ground (arith, v.awake, counts is_asleep, counts is_asking);
        crew = length-replace before after (testing 0) exited e ∙ v.crew;
        open_until = v.open_until;
        nulls = v.nulls;
        exits = omega (arith, v.exits, counts is_exited, counts (tests_item 0));
        no_null_task = omega (arith, v.no_null_task, counts (runs_item 0));
        tasks = λ x h.
            omega (arith, v.tasks x h, counts (has_item x), ap one_if (ne→== 0 x (λ e. h (sym e))));
        last = v.last;
        join_bound = v.join_bound;
      }

  begins-IsValid :
      (item : ℕ)
      → item ≢ 0
      → p.workers ≡ before ++ testing item ∷ after
      → IsValid (record p { workers = before ++ busy item ∷ after })
  begins-IsValid item task e =
      let counts = λ (f : Worker → ℕ). total-replace f before after (testing item) (busy item) e in
      let no_null = ap one_if (ne→== item 0 task) in
      record {
        waiting = v.waiting;
        holds = v.holds;
        order = v.order;
        awake = ground (arith, v.awake, counts is_asleep, counts is_asking);
        crew = length-replace before after (testing item) (busy item) e ∙ v.crew;
        open_until = v.open_until;
        nulls = v.nulls;
        exits = omega (arith, v.exits, counts is_exited, counts (tests_item 0));
        no_null_task = omega (arith, v.no_null_task, counts (runs_item 0));
        tasks = λ x h. omega (arith, v.tasks x h, counts (has_item x));
        last = v.last;
        join_bound = v.join_bound;
      }

  pub returns-IsValid :
      (item : ℕ)
      → p.workers ≡ before ++ busy item ∷ after
      → IsValid
          (record p { workers = before ++ asking ∷ after; finished = p.finished ++ item ∷ [] })
  returns-IsValid item e =
      let counts = λ (f : Worker → ℕ). total-replace f before after (busy item) asking e in
      record {
        waiting = v.waiting;
        holds = v.holds;
        order = v.order;
        awake = ground (arith, v.awake, counts is_asleep, counts is_asking);
        crew = length-replace before after (busy item) asking e ∙ v.crew;
        open_until = v.open_until;
        nulls = v.nulls;
        exits = omega (arith, v.exits, counts is_exited, counts (tests_item 0));
        no_null_task = omega (arith, v.no_null_task, counts (runs_item 0));
        tasks = λ x h.
            omega (
              arith,
              v.tasks x h,
              counts (has_item x),
              occurrences-append x p.finished (item ∷ []),
            );
        last = v.last;
        join_bound = v.join_bound;
      }

  pub tests-IsValid :
      (item : ℕ)
      → p.workers ≡ before ++ testing item ∷ after
      → IsValid (record p { workers = before ++ after_test p.running item ∷ after })
  tests-IsValid item e = elim (Bool-cases (item == 0)) [
    | inl null ↦
        let zero_item : item ≡ 0 = (==_iff item 0).0 null in
        let some_test : 0 < total (tests_item 0) p.workers = omega (
          arith,
          total-replace (tests_item 0) before after (testing item) exited e,
          ap one_if null,
        ) in
        subst (λ w. IsValid (record p { workers = before ++ w ∷ after }))
          (sym (after_test-null p.running item null (null_stops v some_test)))
          (exits-IsValid (e ∙ ap (λ x. before ++ testing x ∷ after) zero_item))
    | inr task ↦
        subst (λ w. IsValid (record p { workers = before ++ w ∷ after }))
          (sym (after_test-task p.running item task)) (begins-IsValid item (==→ne item 0 task) e)
  ]
