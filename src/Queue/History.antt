-- ===== src/Queue/History.antt =====
-- Sequences of calls on a fresh queue against a plain list of the items, as long as the ring is
-- never resized: at its capacity of 128 that is while at most 32 items wait.
use ntu_computer_network.Base.{
  length-append, ℕ, suc, ◌+◌, ◌≤◌, ◌<◌, ◌/◌, ◌≡◌, refl, sym, ap, ◌∙◌, List, [], ◌∷◌, ◌++◌, map,
  some, length, Exec, ok, ◌>>=◌, arith, inr, ◌≢◌,
}
use ntu_computer_network.Queue.{
  Cell, SafeQueue, create, enqueue, dequeue, Taken, waits, takes, initial_capacity,
}
use ntu_computer_network.Queue.Ring.{IsValid, contents, length-slots}
use ntu_computer_network.Queue.Refine.{enqueue-contents, dequeue-contents, dequeue_empty}

pub data Op : Type 0 where
  put : ℕ → Op
  get : Op

-- What a call returns; `blocked` is a thread that goes to wait.
pub data Reply : Type 0 where
  added blocked : Reply
  got : Cell → Reply

pub reply_with : Taken → SafeQueue × Reply
reply_with (waits q) = (q, blocked)
reply_with (takes c q) = (q, got c)

pub perform : SafeQueue → Op → Exec (SafeQueue × Reply)
unfolding reply_with
perform q (put x) = do q' ← enqueue q x; ok (q', added)
perform q get = do t ← dequeue q; ok (reply_with t)

pub run : SafeQueue → List Op → Exec (List Reply)
run q [] = ok []
run q (op ∷ ops) = perform q op >>= λ s. run s.0 ops >>= λ rs. ok (s.1 ∷ rs)

-- The same calls on the list of the items, oldest first.
pub fifo : List ℕ → List Op → List Reply
fifo xs [] = []
fifo xs (put x ∷ ops) = added ∷ fifo (xs ++ x ∷ []) ops
fifo [] (get ∷ ops) = blocked ∷ fifo [] ops
fifo (x ∷ xs) (get ∷ ops) = got (some x) ∷ fifo xs ops

-- No more than `n` items wait at any time.
abbrev pub StaysWithin : ℕ → List ℕ → List Op → Type 0
StaysWithin n xs [] = Unit {0}
StaysWithin n xs (put x ∷ ops) = (length xs < n) × StaysWithin n (xs ++ x ∷ []) ops
StaysWithin n [] (get ∷ ops) = StaysWithin n [] ops
StaysWithin n (x ∷ xs) (get ∷ ops) = StaysWithin n xs ops

-- The queue holds just the items `xs`, in a ring of the initial capacity.
pub record Holds (xs : List ℕ) (q : SafeQueue) : Type 0 where
  pub valid : IsValid q
  pub items : contents q ≡ map some xs
  pub capacity_is : q.capacity ≡ initial_capacity

length-map-some : (xs : List ℕ) → length (map {B = Cell} some xs) ≡ length xs
length-map-some [] = refl
length-map-some (x ∷ xs) = ap suc (length-map-some xs)

map-some-append :
    (xs : List ℕ) (x : ℕ) → map {B = Cell} some (xs ++ x ∷ []) ≡ map some xs ++ some x ∷ []
map-some-append [] x = refl
map-some-append (y ∷ xs) x = ap (λ cs. some y ∷ cs) (map-some-append xs x)

pub size-Holds : {xs : List ℕ} {q : SafeQueue} → Holds xs q → q.size ≡ length xs
size-Holds {xs} {q} h =
    sym (length-slots q.cells q.capacity q.front q.size) ∙ ap length h.items ∙ length-map-some xs

-- A fresh queue is valid and empty.
pub create-Holds : Holds [] create
unfolding create
create-Holds = record {
  valid = record {
    stored = refl;
    positive = omega arith;
    small = omega arith;
    front_in = omega arith;
    size_in = omega arith;
    rear_at = refl;
    idle = refl;
  };
  items = refl;
  capacity_is = refl;
}

pub enqueue-Holds :
    {xs : List ℕ} {q : SafeQueue} (x : ℕ)
    → Holds xs q
    → length xs < 128
    → (r : SafeQueue) × (enqueue q x ≡ ok r) × Holds (xs ++ x ∷ []) r
enqueue-Holds {xs} {q} x h room =
    let (r, e, (v, held, same)) =
      enqueue-contents x h.valid (omega (arith, size-Holds h, h.capacity_is)) in
    (
      r,
      e,
      record {
        valid = v;
        items = held ∙ ap (λ cs. cs ++ some x ∷ []) h.items ∙ sym (map-some-append xs x);
        capacity_is = same ∙ h.capacity_is;
      },
    )

pub dequeue-Holds :
    {x : ℕ} {xs : List ℕ} {q : SafeQueue}
    → Holds (x ∷ xs) q
    → length xs < 32
    → (r : SafeQueue) × (dequeue q ≡ ok (takes (some x) r)) × Holds xs r
dequeue-Holds {x} {xs} {q} h few =
    let far : q.size ≢ q.capacity / 4 + 1 =
      omega (arith, size-Holds h, ap (λ c. c / 4) h.capacity_is) in
    let (c, r, e, held, v, same) =
      dequeue-contents h.valid (omega (arith, size-Holds h)) (inr far) in
    let same_items : c ∷ contents r ≡ some x ∷ map some xs = sym held ∙ h.items in
    (r, e ∙ cc, record { valid = v; items = cc; capacity_is = same ∙ h.capacity_is })

pub dequeue_empty-Holds : {q : SafeQueue} → Holds [] q → dequeue q ≡ ok (waits q)
dequeue_empty-Holds h = dequeue_empty h.valid (size-Holds h)

run_from :
    (xs : List ℕ) (ops : List Op) {q : SafeQueue}
    → Holds xs q
    → length xs ≤ 32
    → StaysWithin 32 xs ops
    → run q ops ≡ ok (fifo xs ops)
unfolding run perform fifo
run_from xs [] h few fits = refl
run_from xs (put x ∷ ops) h few fits =
    let (r, e, w) = enqueue-Holds x h (omega arith) in
    rw (e, run_from (xs ++ x ∷ []) ops w (omega (arith, length-append xs (x ∷ []))) fits.1)
run_from [] (get ∷ ops) h few fits = rw (dequeue_empty-Holds h, run_from [] ops h few fits)
run_from (x ∷ xs) (get ∷ ops) h few fits =
    let (r, e, w) = dequeue-Holds h few in rw (e, run_from xs ops w (omega arith) fits)

-- Any calls on a fresh queue of which at most 32 items wait at a time return, fault nowhere, and
-- answer as the list of the items does: first in, first out, and waiting when it is empty.
pub run-fifo : (ops : List Op) → StaysWithin 32 [] ops → run create ops ≡ ok (fifo [] ops)
run-fifo ops fits = run_from [] ops create-Holds (omega arith) fits
