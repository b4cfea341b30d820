-- ===== src/Base/Lists.antt =====
-- Lists measured by native numbers, under the library's names.
use Prim.Native.Nat.{ℕ, zero, suc, ◌+◌}
use mathlib.Core.Option.{Option, none, some}
use mathlib.Core.List.{map}
use mathlib.Core.Path.{◌≡◌, refl}
use mathlib.Core.List.{List, [], ◌∷◌, ◌++◌}
use native.Mathlib.Omega.{arith}

module _ {ℓ} {A : Type ℓ} where
  abbrev pub length : List A → ℕ
  length [] = 0
  length (x ∷ xs) = suc (length xs)

  pub length-append : (xs ys : List A) → length (xs ++ ys) ≡ length xs + length ys
  length-append [] ys = omega arith
  length-append (x ∷ xs) ys = omega (arith, length-append xs ys)

  abbrev pub repeat : ℕ → A → List A
  repeat zero a = []
  repeat (suc n) a = a ∷ repeat n a

  -- Every member has the property.
  abbrev pub All {κ} : (A → Type κ) → List A → Type κ
  All P [] = Unit
  All P (x ∷ xs) = P x × All P xs

module _ {ℓ} {A : Type ℓ} where
  pub All-append {κ} : (P : A → Type κ) (xs ys : List A) → All P xs → All P ys → All P (xs ++ ys)
  All-append P [] ys hx hy = hy
  All-append P (x ∷ xs) ys hx hy = (hx.0, All-append P xs ys hx.1 hy)

  pub All-imp {κ ι} :
      {P : A → Type κ} {Q : A → Type ι} (f : (a : A) → P a → Q a) (xs : List A)
      → All P xs
      → All Q xs
  All-imp f [] h = tt
  All-imp f (x ∷ xs) h = (f x h.0, All-imp f xs h.1)

module _ {ℓ} {A : Type ℓ} where
  -- A property of the value, if there is one.
  abbrev pub OnSome {κ} : (A → Type κ) → Option A → Type κ
  OnSome P none = Unit
  OnSome P (some a) = P a

  abbrev pub push_rest : A → Option (A × List A) → Option (A × List A)
  push_rest x none = none
  push_rest x (some (y, rest)) = some (y, x ∷ rest)

  -- Element `n` and the others: a choice among the elements; none past the end.
  unfoldable pub take_nth : ℕ → List A → Option (A × List A)
  take_nth n [] = none
  take_nth zero (x ∷ xs) = some (x, xs)
  take_nth (suc n) (x ∷ xs) = push_rest x (take_nth n xs)

module _ {ℓ} {A : Type ℓ} where
  pub OnSome_some {κ} : (P : A → Type κ) (o : Option A) {a : A} → o ≡ some a → OnSome P o → P a
  OnSome_some P o e h = rw e at h

  All-push_rest {κ} :
      (P : A → Type κ) (x : A) (o : Option (A × List A))
      → P x
      → OnSome (λ yr. P yr.0 × All P yr.1) o
      → OnSome (λ yr. P yr.0 × All P yr.1) (push_rest x o)
  All-push_rest P x none h k = tt
  All-push_rest P x (some (y, rest)) h k = (k.0, (h, k.1))

  pub All-take_nth {κ} :
      (P : A → Type κ) (n : ℕ) (xs : List A)
      → All P xs
      → OnSome (λ yr. P yr.0 × All P yr.1) (take_nth n xs)
  unfolding take_nth
  All-take_nth P n [] h = tt
  All-take_nth P zero (x ∷ xs) h = h
  All-take_nth P (suc n) (x ∷ xs) h =
      All-push_rest P x (take_nth n xs) h.0 (All-take_nth P n xs h.1)

  abbrev pub map_taken {κ} : {B : Type κ} → (A → B) → Option (A × List A) → Option (B × List B)
  map_taken f none = none
  map_taken f (some (y, rest)) = some (f y, map f rest)

  map_push {κ} :
      {B : Type κ} (f : A → B) (x : A) (o : Option (A × List A))
      → push_rest (f x) (map_taken f o) ≡ map_taken f (push_rest x o)
  map_push f x none = refl
  map_push f x (some (y, rest)) = refl

  pub take_nth-map {κ} :
      {B : Type κ} (f : A → B) (n : ℕ) (xs : List A)
      → take_nth n (map f xs) ≡ map_taken f (take_nth n xs)
  unfolding take_nth
  take_nth-map f n [] = refl
  take_nth-map f zero (x ∷ xs) = refl
  take_nth-map f (suc n) (x ∷ xs) = rw (take_nth-map f n xs) (map_push f x (take_nth n xs))

  length-push_rest :
      (x : A) (xs : List A) (o : Option (A × List A))
      → OnSome (λ yr. length xs ≡ suc (length yr.1)) o
      → OnSome (λ yr. suc (length xs) ≡ suc (length yr.1)) (push_rest x o)
  length-push_rest x xs none h = tt
  length-push_rest x xs (some (y, rest)) h = omega (arith, h)

  pub length-take_nth :
      (n : ℕ) (xs : List A) → OnSome (λ yr. length xs ≡ suc (length yr.1)) (take_nth n xs)
  unfolding take_nth
  length-take_nth n [] = tt
  length-take_nth zero (x ∷ xs) = refl
  length-take_nth (suc n) (x ∷ xs) = length-push_rest x xs (take_nth n xs) (length-take_nth n xs)
