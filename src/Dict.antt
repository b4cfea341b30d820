-- ===== src/Dict.antt =====
-- Go maps as association lists, and sets (`map[K]struct{}`) as lists without repetition.
pub mod Laws
pub mod Sets
pub mod Entries
use live_stream_danmaku.Base.{
  ℕ, ◌≡◌, Bool, true, false, List, [], ◌∷◌, Option, none, some, Eq, ◌==◌, if◌then◌else◌,
}

module _ {ℓ κ} {K : Type ℓ} ⦃e : Eq K⦄ {V : Type κ} where
  -- `v, ok := m[k]`
  unfoldable pub lookup : K → List (K × V) → Option V
  lookup key [] = none
  lookup key ((first, value) ∷ others) = if first == key then some value else lookup key others

  -- `m[k] = v`
  unfoldable pub insert : K → V → List (K × V) → List (K × V)
  insert key new [] = (key, new) ∷ []
  insert key new ((first, value) ∷ others) =
      if first == key then (key, new) ∷ others else (first, value) ∷ insert key new others

  -- `delete(m, k)`
  unfoldable pub delete : K → List (K × V) → List (K × V)
  delete k [] = []
  delete k ((j, w) ∷ m) = if j == k then delete k m else (j, w) ∷ delete k m

  -- `_, ok := m[k]`
  unfoldable pub has : K → List (K × V) → Bool
  has k [] = false
  has k ((j, v) ∷ m) = if j == k then true else has k m
