-- ===== src/Infra/Redis/Heartbeats/Sums.antt =====
-- Sums over a set do not depend on the order in which it is listed.
use live_stream_danmaku.Base.{
  ℕ, ◌+◌, ◌≡◌, ◌≤◌, refl, true, false, List, [], ◌∷◌, if◌then◌else◌, arith, nat_eq, list_eq, ◌==◌,
  ==_iff, ==_refl, Bool-cases, inl, inr,
}
use live_stream_danmaku.Text.{Text}
use live_stream_danmaku.Dict.Sets.{
  member, remove, count, count-remove, count_nonmember, member-count, remove_nonmember,
}
use live_stream_danmaku.Infra.Redis.Heartbeats.{sum_of}

sum_of-remove :
    (g : Text → ℕ) (x : Text) (ys : List Text)
    → count x ys ≤ 1
    → sum_of g ys ≡ (if member x ys then g x else 0) + sum_of g (remove x ys)
unfolding member remove count
sum_of-remove g x [] h = refl
sum_of-remove g x (y ∷ ys) h = elim (Bool-cases (y == x)) [
  | inl e ↦
      let same : y ≡ x = (==_iff y x).0 e in
      let once : count x ys ≡ 0 = ground arith in
      let absent : member x ys ≡ false = ground (arith, member-count x ys) in
      rw e (rw (remove_nonmember x ys absent, same) refl)
  | inr e ↦ let rest = sum_of-remove g x ys (rw e at h) in rw e (omega arith)
]

pub sum_of-same :
    (g : Text → ℕ) (xs ys : List Text)
    → ((u : Text) → count u xs ≤ 1)
    → ((u : Text) → count u xs ≡ count u ys)
    → sum_of g xs ≡ sum_of g ys
unfolding count
sum_of-same g [] [] single same = refl
sum_of-same g [] (y ∷ ys) single same = absurd (ground (arith, same y, ==_refl y))
sum_of-same g (x ∷ xs) ys single same =
    let once : count x xs ≡ 0 = ground (arith, single x, ==_refl x) in
    let there : member x ys ≡ true = ground (arith, same x, ==_refl x, count_nonmember x ys) in
    let split = sum_of-remove g x ys (ground (arith, same x, single x)) in
    let rest : sum_of g xs ≡ sum_of g (remove x ys) =
      sum_of-same g xs (remove x ys) (λ u. ground (arith, single u))
        (λ u. ground (arith, same u, count-remove x u ys, ==_iff x u)) in
    ground (arith)
