-- ===== src/Dict/Laws.antt =====
-- The laws of maps, in `if` form.
use live_stream_danmaku.Base.{
  ◌≡◌, refl, Bool, true, false, List, [], ◌∷◌, Option, none, some, Eq, ◌==◌, if◌then◌else◌, arith,
}
use live_stream_danmaku.Dict.{lookup, insert, delete, has}

abbrev pub is_some {ℓ} : {A : Type ℓ} → Option A → Bool
is_some none = false
is_some (some a) = true

module _ {ℓ κ} {K : Type ℓ} ⦃e : Eq K⦄ {V : Type κ} where
  -- Reading a key after a write: the value written at that key, and what was there at any other.
  pub lookup-insert :
      (key other : K) (new : V) (m : List (K × V))
      → lookup other (insert key new m) ≡ (if key == other then some new else lookup other m)
  unfolding lookup insert
  lookup-insert key other new [] = refl
  lookup-insert key other new ((i, old) ∷ rest) = ground (
    arith,
    e.test_iff i key,
    e.test_iff i other,
    e.test_iff key other,
    lookup-insert key other new rest,
  )

  pub lookup-delete :
      (k j : K) (m : List (K × V)) → lookup j (delete k m) ≡ (if k == j then none else lookup j m)
  unfolding lookup delete
  lookup-delete k j [] = ground arith
  lookup-delete k j ((i, w) ∷ m) =
      ground (arith, e.test_iff k j, e.test_iff i k, e.test_iff i j, lookup-delete k j m)

  pub has-lookup : (k : K) (m : List (K × V)) → has k m ≡ is_some (lookup k m)
  unfolding lookup has
  has-lookup k [] = refl
  has-lookup k ((i, w) ∷ m) = ground (arith, has-lookup k m)

  pub has-insert :
      (k j : K) (v : V) (m : List (K × V))
      → has j (insert k v m) ≡ (if k == j then true else has j m)
  unfolding has insert
  has-insert k j v [] = refl
  has-insert k j v ((i, w) ∷ m) =
      ground (arith, e.test_iff k j, e.test_iff i k, e.test_iff i j, has-insert k j v m)

  pub has-delete :
      (k j : K) (m : List (K × V)) → has j (delete k m) ≡ (if k == j then false else has j m)
  unfolding has delete
  has-delete k j [] = ground arith
  has-delete k j ((i, w) ∷ m) =
      ground (arith, e.test_iff k j, e.test_iff i k, e.test_iff i j, has-delete k j m)

  pub lookup_absent : (k : K) (m : List (K × V)) → has k m ≡ false → lookup k m ≡ none
  lookup_absent k m h = ground (arith, has-lookup k m)
