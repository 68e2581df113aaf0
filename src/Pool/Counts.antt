-- ===== src/Pool/Counts.antt =====
-- Counting workers by where they stand, and items in the histories.
use ntu_computer_network.Base.{
  ℕ, zero, suc, ◌+◌, ◌<◌, ◌≡◌, refl, ap, ◌∙◌, ◌⊎◌, inl, inr, Bool, true, false, List, [], ◌∷◌, ◌++◌,
  arith, ◌==◌, length, length-append, Bool-cases,
}
use ntu_computer_network.Pool.{
  Worker, asking, asleep, exited, testing, busy, is_asleep, total, Signal, nobody, wakes,
}

abbrev pub is_asking : Worker → ℕ
is_asking asking = 1
is_asking _ = 0

abbrev pub is_exited : Worker → ℕ
is_exited exited = 1
is_exited _ = 0

abbrev pub one_if : Bool → ℕ
one_if true = 1
one_if false = 0

abbrev pub tests_item : ℕ → Worker → ℕ
tests_item x (testing item) = one_if (item == x)
tests_item x _ = 0

abbrev pub runs_item : ℕ → Worker → ℕ
runs_item x (busy item) = one_if (item == x)
runs_item x _ = 0

-- A worker that holds the item, tested or not.
abbrev pub has_item : ℕ → Worker → ℕ
has_item x w = tests_item x w + runs_item x w

abbrev pub occurrences : ℕ → List ℕ → ℕ
occurrences x [] = 0
occurrences x (y ∷ ys) = one_if (y == x) + occurrences x ys

pub occurrences-append :
    (x : ℕ) (xs ys : List ℕ) → occurrences x (xs ++ ys) ≡ occurrences x xs + occurrences x ys
occurrences-append x [] ys = omega arith
occurrences-append x (y ∷ xs) ys = omega (arith, occurrences-append x xs ys)

pub total-append :
    (f : Worker → ℕ) (ws vs : List Worker) → total f (ws ++ vs) ≡ total f ws + total f vs
total-append f [] vs = omega arith
total-append f (w ∷ ws) vs = omega (arith, total-append f ws vs)

-- One worker moves from `w` to `v`.
pub total-replace :
    (f : Worker → ℕ) {ws : List Worker} (before after : List Worker) (w v : Worker)
    → ws ≡ before ++ w ∷ after
    → total f (before ++ v ∷ after) + f w ≡ total f ws + f v
total-replace f {ws} before after w v e =
    omega
      (arith, ap (total f) e, total-append f before (w ∷ after), total-append f before (v ∷ after))

pub length-replace :
    {ws : List Worker} (before after : List Worker) (w v : Worker)
    → ws ≡ before ++ w ∷ after
    → length (before ++ v ∷ after) ≡ length ws
length-replace before after w v e =
    omega (arith, ap length e, length-append before (w ∷ after), length-append before (v ∷ after))

-- What a signal does to a count, and that it wakes a sleeper if there is one.
pub total-Signal :
    (f : Worker → ℕ) {ws vs : List Worker}
    → f asleep ≡ f asking
    → Signal ws vs
    → total f vs ≡ total f ws
total-Signal f same (nobody none) = refl
total-Signal f same (wakes before after e) =
    omega (arith, total-replace f before after asleep asking e)

pub length-Signal : {ws vs : List Worker} → Signal ws vs → length vs ≡ length ws
length-Signal (nobody none) = refl
length-Signal (wakes before after e) = length-replace before after asleep asking e

pub Signal-wakes :
    {ws vs : List Worker}
    → Signal ws vs
    → ((total is_asleep ws ≡ 0) × (vs ≡ ws))
      ⊎ ((total is_asking vs ≡ total is_asking ws + 1)
          × (total is_asleep vs + 1 ≡ total is_asleep ws))
Signal-wakes (nobody none) = inl (none, refl)
Signal-wakes (wakes before after e) = inr (
  omega (arith, total-replace is_asking before after asleep asking e),
  omega (arith, total-replace is_asleep before after asleep asking e),
)

pub zero_or_pos : (n : ℕ) → (n ≡ 0) ⊎ (0 < n)
zero_or_pos zero = inl refl
zero_or_pos (suc n) = inr (omega arith)

-- A count that is not 0 has a worker to show.
pub found :
    (f : Worker → ℕ) (ws : List Worker)
    → 0 < total f ws
    → (before : List Worker) × (w : Worker) × (after : List Worker) × (ws ≡ before ++ w ∷ after)
      × (0 < f w)
found f [] h = elim h [ ]
found f (w ∷ ws) h = elim (zero_or_pos (f w)) [
  | inr here ↦ ([], w, ws, refl, here)
  | inl not_here ↦
      let (before, v, after, e, there) = found f ws (omega arith) in
      (w ∷ before, v, after, ap (λ vs. w ∷ vs) e, there)
]

pub Signal-exists : (ws : List Worker) → (vs : List Worker) × Signal ws vs
Signal-exists ws = elim (Bool-cases (total is_asleep ws == 0)) [
  | inl none ↦ (ws, nobody (ground arith))
  | inr some_asleep ↦
      let (before, w, after, e, sleeps) = found is_asleep ws (ground arith) in
      (
        before ++ asking ∷ after,
        wakes before after (e ∙ ap (λ v. before ++ v ∷ after) (sleeper w sleeps)),
      )
]
  where
    sleeper : (w : Worker) → 0 < is_asleep w → w ≡ asleep
    sleeper asleep h = refl
    sleeper asking h = elim h [ ]
    sleeper exited h = elim h [ ]
    sleeper (testing x) h = elim h [ ]
    sleeper (busy x) h = elim h [ ]
