-- ===== src/Base/Outcomes.antt =====
-- What a run comes to when it does nothing worse than to dereference a null pointer.
use mathlib.Core.Path.{◌≡◌, refl}
use mathlib.Core.Logic.{◌⊎◌, inl, inr}
use mathlib.Core.Bool.{Bool, true, false}
use mathlib.Core.Option.{Option, none, some}
use ntu_computer_network.Base.Tests.{if◌then◌else◌}
use ntu_computer_network.Base.Faults.{null_pointer, Exec, ok, fault, ◌>>=◌, or_fault}

-- A value of which `P` holds, or the dereference of a null pointer; no other fault.
pub data Yields {ℓ κ} {A : Type ℓ} (P : A → Type κ) : Exec A → Type (ℓ ⊔ κ) where
  gives : {a : A} → P a → Yields P (ok a)
  stops : Yields P (fault null_pointer)

module _ {ℓ κ} {A : Type ℓ} {P : A → Type κ} where
  pub Yields-bind {ℓ' κ'} :
      {B : Type ℓ'} {Q : B → Type κ'} {m : Exec A} {f : A → Exec B}
      → Yields P m
      → ((a : A) → P a → Yields Q (f a))
      → Yields Q (m >>= f)
  Yields-bind (gives p) k = k _ p
  Yields-bind stops k = stops

  pub Yields-map {κ'} :
      {Q : A → Type κ'} {m : Exec A} → Yields P m → ((a : A) → P a → Q a) → Yields Q m
  Yields-map (gives p) k = gives (k _ p)
  Yields-map stops k = stops

  pub Yields-if :
      {x y : Exec A} (b : Bool)
      → (b ≡ true → Yields P x)
      → (b ≡ false → Yields P y)
      → Yields P (if b then x else y)
  Yields-if true h k = h refl
  Yields-if false h k = k refl

  pub Yields-or_fault :
      (o : Option A) → ((a : A) → o ≡ some a → P a) → Yields P (or_fault o null_pointer)
  Yields-or_fault none h = stops
  Yields-or_fault (some a) h = gives (h a refl)

  pub Yields-cases :
      {m : Exec A} → Yields P m → ((a : A) × (m ≡ ok a) × P a) ⊎ (m ≡ fault null_pointer)
  Yields-cases (gives p) = inl (_, refl, p)
  Yields-cases stops = inr refl
