-- ===== src/Base/Faults.antt =====
-- The result of code that can do what C leaves undefined, or never return.
use Prim.Native.Nat.{ℕ, ◌+◌, ◌-◌, ◌*◌, ◌%◌, ◌^◌, ◌<◌, suc, zero}
use mathlib.Core.Path.{◌≡◌, refl}
use mathlib.Core.Bool.{Bool, true, false}
use ntu_computer_network.Base.Tests.{if◌then◌else◌}
use mathlib.Core.Logic.{◌⊎◌, inl, inr, ◌≢◌}
use mathlib.Core.List.{List, [], ◌∷◌, ◌++◌}
use mathlib.Core.Option.{Option, none, some}
use native.Mathlib.Omega.{arith}
use ntu_computer_network.Base.Lists.{length, get_elem?, set}

pub data Fault : Type 0 where
  null_pointer out_of_bounds use_after_free double_free invalid_free overflow deadlock endless :
      Fault

pub data Exec {ℓ} (A : Type ℓ) : Type ℓ where
  ok : A → Exec A
  fault : Fault → Exec A

infixl 5 ◌>>=◌
abbrev pub ◌>>=◌ {ℓ κ} : {A : Type ℓ} {B : Type κ} → Exec A → (A → Exec B) → Exec B
ok a >>= f = f a
fault e >>= f = fault e

module _ {ℓ κ} {A : Type ℓ} {B : Type κ} where
  -- A chain does not run for ever when none of its parts does.
  pub >>=-ends :
      (m : Exec A) (f : A → Exec B)
      → m ≢ fault endless
      → ((a : A) → m ≡ ok a → f a ≢ fault endless)
      → (m >>= f) ≢ fault endless
  >>=-ends (ok a) f h k = k a refl
  >>=-ends (fault e) f h k = λ r. h (ground arith)

  -- A chain that succeeds, taken apart.
  pub >>=-eq-ok :
      {t : B} (m : Exec A) (f : A → Exec B) → (m >>= f) ≡ ok t → (a : A) × (m ≡ ok a) × (f a ≡ ok t)
  >>=-eq-ok (fault e) f h = cc
  >>=-eq-ok (ok a) f h = (a, refl, h)

pub Exec-cases {ℓ} :
    {A : Type ℓ} (m : Exec A) → ((a : A) × (m ≡ ok a)) ⊎ ((f : Fault) × (m ≡ fault f))
Exec-cases (ok a) = inl (a, refl)
Exec-cases (fault f) = inr (f, refl)

module _ {ℓ} {A : Type ℓ} (x y : Exec A) where
  pub if-ends :
      (b : Bool) → x ≢ fault endless → y ≢ fault endless → (if b then x else y) ≢ fault endless
  if-ends true h k = h
  if-ends false h k = k

  pub if-eq-ok : (b : Bool) {t : A} → (if b then x else y) ≡ ok t → (x ≡ ok t) ⊎ (y ≡ ok t)
  if-eq-ok true e = inl e
  if-eq-ok false e = inr e

-- `size_t` is 64 bits wide.
abbrev pub size_mod : ℕ
size_mod = 2 ^ 64

abbrev pub add_size : ℕ → ℕ → ℕ
add_size a b = (a + b) % size_mod

abbrev pub sub_size : ℕ → ℕ → ℕ
sub_size a b = (a + size_mod - b) % size_mod

abbrev pub mul_size : ℕ → ℕ → ℕ
mul_size a b = (a * b) % size_mod

-- What a pointer gives: a null pointer or an access past the end is a fault.
abbrev pub or_fault {ℓ} : {A : Type ℓ} → Option A → Fault → Exec A
or_fault none e = fault e
or_fault (some a) e = ok a

pub or_fault-ends {ℓ} :
    {A : Type ℓ} (o : Option A) (e : Fault) → e ≢ endless → or_fault o e ≢ fault endless
or_fault-ends none e h = λ r. h (ground arith)
or_fault-ends (some a) e h = λ r. cc

module _ {ℓ} {A : Type ℓ} where
  -- `a[i]`
  unfoldable pub fetch : List A → ℕ → Exec A
  fetch xs i = or_fault (get_elem? xs i) out_of_bounds

  -- `a[i] = v`
  unfoldable pub store : List A → ℕ → A → Exec (List A)
  store [] i v = fault out_of_bounds
  store (x ∷ xs) zero v = ok (v ∷ xs)
  store (x ∷ xs) (suc i) v = store xs i v >>= λ ys. ok (x ∷ ys)

  pub store-set : (xs : List A) (i : ℕ) (v : A) → i < length xs → store xs i v ≡ ok (set xs i v)
  unfolding store
  store-set [] i v h = elim h [ ]
  store-set (x ∷ xs) zero v h = refl
  store-set (x ∷ xs) (suc i) v h = rw (store-set xs i v (omega arith))

  -- The cell behind a prefix is read and written whatever the prefix is.
  pub fetch-append :
      (pre : List A) (b : A) (post : List A) → fetch (pre ++ b ∷ post) (length pre) ≡ ok b
  unfolding fetch
  fetch-append [] b post = refl
  fetch-append (p ∷ pre) b post = fetch-append pre b post

  pub store-append :
      (pre : List A) (b v : A) (post : List A)
      → store (pre ++ b ∷ post) (length pre) v ≡ ok (pre ++ v ∷ post)
  unfolding store
  store-append [] b v post = refl
  store-append (p ∷ pre) b v post = rw (store-append pre b v post)

  pub fetch-lt : (xs : List A) (i : ℕ) {a : A} → fetch xs i ≡ ok a → i < length xs
  unfolding fetch
  fetch-lt [] i e = absurd (cc)
  fetch-lt (x ∷ xs) zero e = omega arith
  fetch-lt (x ∷ xs) (suc i) e = omega (arith, fetch-lt xs i e)

  pub length-store :
      (xs : List A) (i : ℕ) (v : A) {ys : List A} → store xs i v ≡ ok ys → length ys ≡ length xs
  unfolding store
  length-store [] i v e = absurd (cc)
  length-store (x ∷ xs) zero v e = ground arith
  length-store (x ∷ xs) (suc i) v e =
      let (zs, run, same) = >>=-eq-ok (store xs i v) (λ zs. ok (x ∷ zs)) e in
      ground (arith, length-store xs i v run)

  pub fetch-ends : (xs : List A) (i : ℕ) → fetch xs i ≢ fault endless
  unfolding fetch
  fetch-ends [] i e = cc
  fetch-ends (x ∷ xs) zero e = cc
  fetch-ends (x ∷ xs) (suc i) e = fetch-ends xs i e

  pub store-ends : (xs : List A) (i : ℕ) (v : A) → store xs i v ≢ fault endless
  unfolding store
  store-ends [] i v = λ e. cc
  store-ends (x ∷ xs) zero v = λ e. cc
  store-ends (x ∷ xs) (suc i) v =
      >>=-ends (store xs i v) (λ ys. ok (x ∷ ys)) (store-ends xs i v) (λ ys _ e. cc)
