-- ===== src/Pool/Crew.antt =====
-- Where the workers are, all together.
use ntu_computer_network.Base.{
  ℕ, zero, suc, ◌+◌, ◌≤◌, ◌<◌, ◌≡◌, refl, List, [], ◌∷◌, arith, length, some, get_elem?,
}
use ntu_computer_network.Pool.{Worker, asking, asleep, exited, testing, busy, is_asleep, total}
use ntu_computer_network.Pool.Counts.{is_asking, is_exited, tests_item, has_item}

abbrev pub is_testing : Worker → ℕ
is_testing (testing _) = 1
is_testing _ = 0

abbrev pub is_busy : Worker → ℕ
is_busy (busy _) = 1
is_busy _ = 0

pub total-all :
    (ws : List Worker)
    → total is_asking ws
        + total is_asleep ws
        + total is_exited ws
        + total is_testing ws
        + total is_busy ws
      ≡ length ws
total-all [] = refl
total-all (asking ∷ ws) = omega (arith, total-all ws)
total-all (asleep ∷ ws) = omega (arith, total-all ws)
total-all (exited ∷ ws) = omega (arith, total-all ws)
total-all (testing x ∷ ws) = omega (arith, total-all ws)
total-all (busy x ∷ ws) = omega (arith, total-all ws)

pub tests_item-le : (x : ℕ) (ws : List Worker) → total (tests_item x) ws ≤ total is_testing ws
tests_item-le x [] = omega arith
tests_item-le x (asking ∷ ws) = omega (arith, tests_item-le x ws)
tests_item-le x (asleep ∷ ws) = omega (arith, tests_item-le x ws)
tests_item-le x (exited ∷ ws) = omega (arith, tests_item-le x ws)
tests_item-le x (testing y ∷ ws) = ground (arith, tests_item-le x ws)
tests_item-le x (busy y ∷ ws) = omega (arith, tests_item-le x ws)

pub has_item-le :
    (x : ℕ) (ws : List Worker) → total (has_item x) ws ≤ total is_testing ws + total is_busy ws
has_item-le x [] = omega arith
has_item-le x (asking ∷ ws) = omega (arith, has_item-le x ws)
has_item-le x (asleep ∷ ws) = omega (arith, has_item-le x ws)
has_item-le x (exited ∷ ws) = omega (arith, has_item-le x ws)
has_item-le x (testing y ∷ ws) = ground (arith, has_item-le x ws)
has_item-le x (busy y ∷ ws) = ground (arith, has_item-le x ws)

pub all_exited :
    (ws : List Worker) (i : ℕ)
    → total is_exited ws ≡ length ws
    → i < length ws
    → get_elem? ws i ≡ some exited
all_exited [] i e h = elim h [ ]
all_exited (exited ∷ ws) zero e h = refl
all_exited (exited ∷ ws) (suc i) e h = all_exited ws i (omega arith) (omega arith)
all_exited (asking ∷ ws) i e h = absurd (omega (arith, total-all ws))
all_exited (asleep ∷ ws) i e h = absurd (omega (arith, total-all ws))
all_exited (testing x ∷ ws) i e h = absurd (omega (arith, total-all ws))
all_exited (busy x ∷ ws) i e h = absurd (omega (arith, total-all ws))
