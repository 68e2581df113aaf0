-- ===== src/HttpServer/Accept/Handing.antt =====
-- The argument between `accept` and `thread_pool_push`, and the count of those handed over.
use ntu_computer_network.Base.{
  inr, inl, ◌≤◌, ◌≢◌, none, Bool-cases, ℕ, suc, ◌≡◌, refl, sym, ap, ◌∙◌, some, [], ◌∷◌, ◌++◌, arith,
  length, length-append, ok, >>=-eq-ok,
}
use ntu_computer_network.Queue.{enqueue}
use ntu_computer_network.Pool.{
  serving, ThreadPool, put_item, thread_pool_push, Step, pushes, sleeps, takes, tests, returns,
  stop, stop_push, stop_pushed, joins, frees,
}
use ntu_computer_network.HttpServer.{ServerConfig}
use ntu_computer_network.HttpServer.Accept.{
  Server, Serve, accepts, hands_over, hands_late, refuses, works, Serves, opens, goes_on,
}

put_item-phase : (p r : ThreadPool) (item : ℕ) → put_item p item ≡ ok r → p.phase ≡ r.phase
unfolding put_item
put_item-phase p r item e =
    let (q, run, same) = >>=-eq-ok (enqueue p.queue item) _ e in
    let same_pool : record p { queue = q; put = p.put ++ item ∷ [] } ≡ r = cc in
    ap (λ (t : ThreadPool). t.phase) same_pool

late_phase : (p r : ThreadPool) (item : ℕ) → thread_pool_push p item ≡ ok r → p.phase ≡ r.phase
unfolding thread_pool_push
late_phase p r item e = elim (Bool-cases p.running) [
  | inl on ↦ put_item-phase p r item (sym (simp on) ∙ e)
  | inr off ↦
      let same : ok p ≡ ok r = sym (simp off) ∙ e in
      let one : p ≡ r = cc in ap (λ (t : ThreadPool). t.phase) one
]

-- The argument in hand is the last one, and all others before it have been handed over; behind the
-- stop of the pool one may be missing.
pub record IsHanding (s : Server) : Type 0 where
  pub last : (a : ℕ) → s.in_hand ≡ some a → a ≡ length s.args
  pub all : s.pool.phase ≡ serving → s.in_hand ≡ none → s.handed ≡ length s.args
  pub but_one : s.pool.phase ≡ serving → (a : ℕ) → s.in_hand ≡ some a → suc s.handed ≡ length s.args
  pub few : s.handed ≤ length s.args
  pub most : length s.args ≤ suc s.handed

-- A pool that is running was running before.
Step-serving : {p q : ThreadPool} → Step p q → q.phase ≡ serving → p.phase ≡ serving
Step-serving (pushes item now task e s) h = now
Step-serving (sleeps before after e run) h = h
Step-serving (takes item before after e run) h = h
Step-serving (tests item before after e) h = h
Step-serving (returns item before after e) h = h
Step-serving (stop now) h = now
Step-serving (stop_push n now e s) h = absurd (cc h)
Step-serving (stop_pushed now) h = absurd (cc h)
Step-serving (joins n now e) h = absurd (cc h)
Step-serving (frees now) h = absurd (cc h)

Serve-IsHanding : {s t : Server} → Serve s t → IsHanding s → IsHanding t
Serve-IsHanding {s} (accepts fd now free) h =
    let longer = length-append s.args (record { client_sockfd = fd } ∷ []) in
    let before = h.all now free in
    record {
      last = λ a e. let same : suc (length s.args) ≡ a = cc in omega arith;
      all = λ _ e. absurd (cc e);
      but_one = λ _ a e. omega arith;
      few = omega arith;
      most = omega arith;
    }
Serve-IsHanding (hands_over arg now hand run signal) h =
    let before = h.but_one now arg hand in
    record {
      last = λ a e. absurd (cc e);
      all = λ _ _. before;
      but_one = λ _ a e. absurd (cc e);
      few = omega arith;
      most = omega (arith, h.most);
    }
Serve-IsHanding (hands_late {r} arg late over hand run) h = record {
  last = λ a e. absurd (cc e);
  all = λ now _. absurd (late (late_phase _ r arg run ∙ now));
  but_one = λ _ a e. absurd (cc e);
  few = h.few;
  most = h.most;
}
Serve-IsHanding (refuses now) h = h
Serve-IsHanding (works step other) h = record {
  last = h.last;
  all = λ now. h.all (Step-serving step now);
  but_one = λ now. h.but_one (Step-serving step now);
  few = h.few;
  most = h.most;
}

pub Serves-IsHanding : {config : ServerConfig} {s : Server} → Serves config s → IsHanding s
Serves-IsHanding (opens sockfd) = record {
  last = λ a e. absurd (cc e);
  all = λ _ _. refl;
  but_one = λ _ a e. absurd (cc e);
  few = omega arith;
  most = omega arith;
}
Serves-IsHanding (goes_on before step) = Serve-IsHanding step (Serves-IsHanding before)

pub arg_nonzero :
    {config : ServerConfig} {s : Server}
    → Serves config s
    → (arg : ℕ) → s.in_hand ≡ some arg
    → s.pool.phase ≡ serving
    → arg ≢ 0
arg_nonzero before arg hand now zero =
    let handing = Serves-IsHanding before in
    omega (arith, handing.last arg hand, handing.but_one now arg hand, zero)
