-- ===== src/Base/Equality.antt =====
-- Equality tests as an interface: one operator for every type that has an instance.
use mathlib.Core.Path.{◌≡◌, refl}
use mathlib.Core.Logic.{◌↔◌}
use mathlib.Core.Bool.{Bool, true, false, ◌&&◌}
use mathlib.Core.List.{List, [], ◌∷◌}
use Prim.Native.Nat.{ℕ}
use native.Mathlib.Omega.{arith}
use live_stream_danmaku.Base.Tests.{nat_beq, nat_beq_iff}

-- `test` decides equality.
pub record Eq {ℓ} (A : Type ℓ) : Type ℓ where
  pub test : (x y : A) → Bool
  pub test_iff : (x y : A) → (test x y ≡ true) ↔ (x ≡ y)

infix 50 ◌==◌
abbrev pub ◌==◌ {ℓ} : {A : Type ℓ} ⦃e : Eq A⦄ → (x y : A) → Bool
◌==◌ ⦃e⦄ x y = e.test x y

pub ==_iff {ℓ} : {A : Type ℓ} ⦃e : Eq A⦄ (x y : A) → ((x == y) ≡ true) ↔ (x ≡ y)
==_iff ⦃e⦄ x y = e.test_iff x y

pub ==_refl {ℓ} : {A : Type ℓ} ⦃e : Eq A⦄ (x : A) → (x == x) ≡ true
==_refl ⦃e⦄ x = (e.test_iff x x).1 refl

instance abbrev pub nat_eq : Eq ℕ
nat_eq = record { test = nat_beq; test_iff = nat_beq_iff }

module _ {ℓ} {A : Type ℓ} ⦃e : Eq A⦄ where
  unfoldable pub list_beq : List A → List A → Bool
  list_beq [] [] = true
  list_beq [] (y ∷ ys) = false
  list_beq (x ∷ xs) [] = false
  list_beq (x ∷ xs) (y ∷ ys) = x == y && list_beq xs ys

  pub list_beq_iff : (xs ys : List A) → (list_beq xs ys ≡ true) ↔ (xs ≡ ys)
  unfolding list_beq
  list_beq_iff [] [] = ground arith
  list_beq_iff [] (y ∷ ys) = ground arith
  list_beq_iff (x ∷ xs) [] = ground arith
  list_beq_iff (x ∷ xs) (y ∷ ys) = ground (arith, e.test_iff x y, list_beq_iff xs ys)

  instance abbrev pub list_eq : Eq (List A)
  list_eq = record { test = list_beq; test_iff = list_beq_iff }
