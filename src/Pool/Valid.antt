-- ===== src/Pool/Valid.antt =====
-- What holds of a pool at any time.
use ntu_computer_network.Base.{
  ℕ, zero, suc, ◌+◌, ◌≤◌, ◌<◌, ◌≡◌, refl, ◌≢◌, ◌⊎◌, inl, Bool, true, false, List, [], ◌∷◌, ◌++◌,
  arith, length, length-append, replicate, length-replicate,
}
use ntu_computer_network.Queue.History.{Holds, create-Holds}
use ntu_computer_network.Pool.{
  Worker, asking, Phase, serving, freed, stopping, joining, ThreadPool, thread_pool_create,
  is_asleep, total,
}
use ntu_computer_network.Pool.Counts.{
  is_asking, is_exited, tests_item, runs_item, has_item, occurrences, occurrences-append,
}

-- How many NULLs are still to be queued, how many threads have been joined.
abbrev pub left : ℕ → Phase → ℕ
left size serving = size
left size (stopping n) = n
left size (joining _) = 0
left size freed = 0

abbrev pub joined : Phase → ℕ
joined (joining n) = n
joined _ = 0

abbrev pub is_serving : Phase → Bool
is_serving serving = true
is_serving _ = false

-- No task stands behind a NULL.
abbrev pub NullsLast : List ℕ → Type 0
NullsLast [] = Unit {0}
NullsLast (x ∷ xs) = (x ≡ 0 → occurrences 0 xs ≡ length xs) × NullsLast xs

pub record IsValid (p : ThreadPool) : Type 0 where
  pub waiting : List ℕ
  pub holds : Holds waiting p.queue
  -- what was put into the queue is what was taken out, and then what waits, in this order
  pub order : p.taken ++ waiting ≡ p.put
  -- no signal is lost
  pub awake : (total is_asleep p.workers ≡ 0) ⊎ (length waiting ≤ total is_asking p.workers)
  pub crew : length p.workers ≡ p.size
  pub open_until : p.running ≡ is_serving p.phase
  pub nulls : occurrences 0 p.put + left p.size p.phase ≡ p.size
  -- a worker that takes a NULL leaves
  pub exits : occurrences 0 p.taken ≡ total is_exited p.workers + total (tests_item 0) p.workers
  pub no_null_task : total (runs_item 0) p.workers ≡ 0
  -- a task that was taken is held by one worker or finished, and so once
  pub tasks :
      (x : ℕ)
      → x ≢ 0
      → occurrences x p.taken ≡ occurrences x p.finished + total (has_item x) p.workers
  pub last : NullsLast p.put
  pub join_bound : joined p.phase ≤ p.size

total-asking : (f : Worker → ℕ) (n : ℕ) → f asking ≡ 0 → total f (replicate n asking) ≡ 0
total-asking f zero e = refl
total-asking f (suc n) e = omega (arith, total-asking f n e)

pub create-IsValid : (size : ℕ) → IsValid (thread_pool_create size)
unfolding thread_pool_create
create-IsValid size = record {
  waiting = [];
  holds = create-Holds;
  order = refl;
  awake = inl (total-asking is_asleep size refl);
  crew = length-replicate size asking;
  open_until = refl;
  nulls = omega arith;
  exits = omega (arith, total-asking is_exited size refl, total-asking (tests_item 0) size refl);
  no_null_task = total-asking (runs_item 0) size refl;
  tasks = λ x h. omega (arith, total-asking (has_item x) size refl);
  last = tt;
  join_bound = omega arith;
}

pub NullsLast-snoc_task :
    (xs : List ℕ) (x : ℕ) → NullsLast xs → occurrences 0 xs ≡ 0 → x ≢ 0 → NullsLast (xs ++ x ∷ [])
NullsLast-snoc_task [] x v none h = ((λ e. absurd (h e)), tt)
NullsLast-snoc_task (y ∷ xs) x v none h =
    ((λ e. absurd (ground arith)), NullsLast-snoc_task xs x v.1 (omega arith) h)

pub occurrences-le-length : (x : ℕ) (xs : List ℕ) → occurrences x xs ≤ length xs
occurrences-le-length x [] = omega arith
occurrences-le-length x (y ∷ xs) = ground (arith, occurrences-le-length x xs)

occurrences-snoc_null :
    (xs : List ℕ)
    → occurrences 0 xs ≡ length xs
    → occurrences 0 (xs ++ 0 ∷ []) ≡ length (xs ++ 0 ∷ [])
occurrences-snoc_null [] e = refl
occurrences-snoc_null (x ∷ xs) e =
    ground (arith, occurrences-le-length 0 xs, occurrences-snoc_null xs)

pub NullsLast-snoc_null : (xs : List ℕ) → NullsLast xs → NullsLast (xs ++ 0 ∷ [])
NullsLast-snoc_null [] v = ((λ e. refl), tt)
NullsLast-snoc_null (x ∷ xs) v =
    ((λ e. occurrences-snoc_null xs (v.0 e)), NullsLast-snoc_null xs v.1)

-- Behind a NULL there are only NULLs.
pub NullsLast-append :
    (xs ys : List ℕ) → NullsLast (xs ++ ys) → 0 < occurrences 0 xs → occurrences 0 ys ≡ length ys
NullsLast-append [] ys v h = elim h [ ]
NullsLast-append (x ∷ xs) ys v h = ground (
  arith,
  occurrences-append 0 xs ys,
  length-append xs ys,
  occurrences-le-length 0 xs,
  occurrences-le-length 0 ys,
  NullsLast-append xs ys v.1,
)
