-- ===== src/Dict/Sets.antt =====
-- Sets of keys: the keys of a `map[K]struct{}`.
use live_stream_danmaku.Base.{
  ℕ, suc, ◌+◌, ◌≤◌, ◌≡◌, refl, Bool, true, false, List, [], ◌∷◌, Eq, ◌==◌, if◌then◌else◌, arith,
  ◌++◌, map, take_nth, push_rest, OnSome, Option, none, some, zero, ◌≢◌,
}

module _ {ℓ} {K : Type ℓ} ⦃e : Eq K⦄ where
  unfoldable pub member : K → List K → Bool
  member k [] = false
  member k (j ∷ s) = if j == k then true else member k s

  -- `s[k] = struct{}{}`
  unfoldable pub add : K → List K → List K
  add k [] = k ∷ []
  add k (j ∷ s) = if j == k then j ∷ s else j ∷ add k s

  -- `delete(s, k)`
  unfoldable pub remove : K → List K → List K
  remove k [] = []
  remove k (j ∷ s) = if j == k then remove k s else j ∷ remove k s

  -- How often a key stands in a list.
  unfoldable pub count : K → List K → ℕ
  count k [] = 0
  count k (j ∷ s) = if j == k then suc (count k s) else count k s

  pub member-add :
      (k j : K) (s : List K) → member j (add k s) ≡ (if k == j then true else member j s)
  unfolding member add
  member-add k j [] = refl
  member-add k j (i ∷ s) =
      ground (arith, e.test_iff i k, e.test_iff i j, e.test_iff k j, member-add k j s)

  pub member-remove :
      (k j : K) (s : List K) → member j (remove k s) ≡ (if k == j then false else member j s)
  unfolding member remove
  member-remove k j [] = ground arith
  member-remove k j (i ∷ s) =
      ground (arith, e.test_iff i k, e.test_iff i j, e.test_iff k j, member-remove k j s)

  pub count-add :
      (k j : K) (s : List K)
      → count j (add k s)
        ≡ (if member k s then count j s else if k == j then suc (count j s) else count j s)
  unfolding member add count
  count-add k j [] = ground arith
  count-add k j (i ∷ s) =
      ground (arith, e.test_iff i k, e.test_iff i j, e.test_iff k j, count-add k j s)

  pub count-remove :
      (k j : K) (s : List K) → count j (remove k s) ≡ (if k == j then 0 else count j s)
  unfolding remove count
  count-remove k j [] = ground arith
  count-remove k j (i ∷ s) =
      ground (arith, e.test_iff i k, e.test_iff i j, e.test_iff k j, count-remove k j s)

  pub member-count : (k : K) (s : List K) → (if member k s then 1 else 0) ≤ count k s
  unfolding member count
  member-count k [] = omega arith
  member-count k (i ∷ s) = ground (arith, member-count k s)

  pub count_nonmember : (k : K) (s : List K) → member k s ≡ false → count k s ≡ 0
  unfolding member count
  count_nonmember k [] h = refl
  count_nonmember k (i ∷ s) h = ground (arith, count_nonmember k s)

  pub remove_nonmember : (k : K) (s : List K) → member k s ≡ false → remove k s ≡ s
  unfolding member remove
  remove_nonmember k [] h = refl
  remove_nonmember k (i ∷ s) h = ground (arith, remove_nonmember k s)

  pub add-member : (k : K) (s : List K) → member k s ≡ true → add k s ≡ s
  unfolding member add
  add-member k [] h = cc
  add-member k (i ∷ s) h = ground (arith, add-member k s)

  pub add-ne-nil : (k : K) (s : List K) → add k s ≢ []
  unfolding add
  add-ne-nil k [] = λ h. cc
  add-ne-nil k (i ∷ s) = λ h. ground arith

  pub count-append : (k : K) (s t : List K) → count k (s ++ t) ≡ count k s + count k t
  unfolding count
  count-append k [] t = omega arith
  count-append k (j ∷ s) t = ground (arith, count-append k s t)

  count-push_rest {κ} :
      {A : Type κ} (f : A → K) (k : K) (x : A) (xs : List A) (o : Option (A × List A))
      → OnSome (λ yr. count k (map f xs) ≡ (if f yr.0 == k then 1 else 0) + count k (map f yr.1)) o
      → OnSome
          (λ yr. count k (f x ∷ map f xs) ≡ (if f yr.0 == k then 1 else 0) + count k (map f yr.1))
          (push_rest x o)
  unfolding count
  count-push_rest f k x xs none h = tt
  count-push_rest f k x xs (some (y, rest)) h = ground arith

  -- Taking an element out of a list lowers its count by one, and no other.
  pub count-take_nth {κ} :
      {A : Type κ} (f : A → K) (k : K) (n : ℕ) (xs : List A)
      → OnSome
          (λ yr. count k (map f xs) ≡ (if f yr.0 == k then 1 else 0) + count k (map f yr.1))
          (take_nth n xs)
  unfolding count take_nth
  count-take_nth f k n [] = tt
  count-take_nth f k zero (x ∷ xs) = ground arith
  count-take_nth f k (suc n) (x ∷ xs) =
      count-push_rest f k x xs (take_nth n xs) (count-take_nth f k n xs)
