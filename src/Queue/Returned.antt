-- ===== src/Queue/Returned.antt =====
-- What a call in queue.c has done, from what it has returned.
use native.Mathlib.Decide.{ℕ_discrete}
use ntu_computer_network.Base.{
  ◌+◌, ◌≡◌, ◌<◌, ◌/◌, sym, inl, inr, ◌∷◌, ◌++◌, [], some, ok, arith, ℕ, ◌⊎◌, ◌≢◌,
}
use ntu_computer_network.Queue.{Cell, SafeQueue, append, dequeue, takes, waits, Taken}
use ntu_computer_network.Queue.Ring.{IsValid, contents}
use ntu_computer_network.Queue.Refine.{
  Leaves, append-eq, appended, appended-Leaves, dequeue-contents, dequeue_empty, dequeue_deadlocks,
}

pub append-Leaves :
    {q r : SafeQueue} (item : ℕ)
    → IsValid q
    → q.size < q.capacity
    → append q item ≡ ok r
    → Leaves q (contents q ++ some item ∷ []) r
append-Leaves {q} {r} item v room run =
    let same : appended q item ≡ r = cc (append-eq item v) in
    rw (sym same) (appended-Leaves item v room)

abbrev Removes : SafeQueue → Taken → Type 0
Removes q (waits r) = Unit
Removes q (takes c r) = (contents q ≡ c ∷ contents r) × IsValid r × (r.capacity ≡ q.capacity)

dequeue-Removes : {q : SafeQueue} {t : Taken} → IsValid q → dequeue q ≡ ok t → Removes q t
dequeue-Removes {q} {t} v run = elim (ℕ_discrete q.size 0) [
  | yes none_left ↦ let same : waits q ≡ t = cc (dequeue_empty v none_left) in rw (sym same) tt
  | no some_left ↦ elim (ℕ_discrete q.size 1) [
    | yes one ↦ taken (inl one) (omega arith)
    | no more ↦ elim (ℕ_discrete q.size (q.capacity / 4 + 1)) [
      | yes quarter ↦ absurd (cc (dequeue_deadlocks v (omega arith) quarter))
      | no plain ↦ taken (inr plain) (omega arith)
    ]
  ]
]
  where
    taken : (q.size ≡ 1) ⊎ (q.size ≢ q.capacity / 4 + 1) → 0 < q.size → Removes q t
    taken plain h =
        let (c, r, e, held, w, cap) = dequeue-contents v h plain in
        let same : takes c r ≡ t = cc in rw (sym same) (held, w, cap)

-- A call of `safe_queue_dequeue` that returns has taken the oldest item.
pub dequeue-takes :
    {q r : SafeQueue} {c : Cell}
    → IsValid q
    → dequeue q ≡ ok (takes c r)
    → (contents q ≡ c ∷ contents r) × IsValid r × (r.capacity ≡ q.capacity)
dequeue-takes v run = dequeue-Removes v run
