-- ===== src/Ws/Slices/Laws.antt =====
-- What `append` writes is what a reader of the slice sees, and no other array changes.
use live_stream_danmaku.Base.{
  ℕ, zero, suc, ◌+◌, ◌≡◌, ◌≢◌, ◌≤◌, ◌<◌, refl, List, [], ◌∷◌, ◌++◌, ltb, nat_eq, arith, append-nil,
  append_assoc, ap, ◌∙◌, sym, Bool-cases, inl, inr,
}
use live_stream_danmaku.Ws.Slices.{
  Slice, Memory, write_cell, read_from, read_slice, append, append_all, append_in_place,
  append_grown, copy_cells,
}

-- Two families that agree on a range are read alike.
pub read_from-eq :
    (f g : ℕ → ℕ) (i n : ℕ) → ((j : ℕ) → j < i + n → f j ≡ g j) → read_from f i n ≡ read_from g i n
unfolding read_from
read_from-eq f g i zero h = refl
read_from-eq f g i (suc n) h =
    rw (h i (omega arith), read_from-eq f g (suc i) n (λ j l. h j (omega arith)))

read_from-suc : (f : ℕ → ℕ) (i n : ℕ) → read_from f i (suc n) ≡ read_from f i n ++ f (i + n) ∷ []
unfolding read_from
read_from-suc f i zero = let e : i + 0 ≡ i = omega arith in rw e
read_from-suc f i (suc n) =
    let e : i + suc n ≡ suc i + n = omega arith in
    rw e (ap (λ t. f i ∷ t) (read_from-suc f (suc i) n))

-- From `sm` to `sm'` the elements `cs` have been appended: a reader sees them after the old ones, and
-- any other array that was in use is as it was and is not the slice's.
pub record Extends (sm : Slice × Memory) (cs : List ℕ) (sm' : Slice × Memory) : Type 0 where
  pub reads : read_slice sm'.1 sm'.0 ≡ read_slice sm.1 sm.0 ++ cs
  pub live : sm'.0.array < sm'.1.next
  pub grows : sm.1.next ≤ sm'.1.next
  pub apart : (b : ℕ) → b < sm.1.next → b ≢ sm.0.array → b ≢ sm'.0.array
  pub kept : (b : ℕ) → b < sm.1.next → b ≢ sm.0.array → (j : ℕ) → sm'.1.cells b j ≡ sm.1.cells b j

read_written :
    (f g : ℕ → ℕ) (n c : ℕ)
    → ((j : ℕ) → j < n → f j ≡ g j)
    → f n ≡ c
    → read_from f 0 (suc n) ≡ read_from g 0 n ++ c ∷ []
read_written f g n c h e =
    let z : 0 + n ≡ n = omega arith in
    read_from-suc f 0 n ∙ (rw (z, e, read_from-eq f g 0 n (λ j l. h j (omega arith))))

module _ (extra : ℕ → ℕ) (s : Slice) (mem : Memory) (c : ℕ) (h : s.array < mem.next) where
  in_place : Extends (s, mem) (c ∷ []) (append_in_place s mem c)
  unfolding append_in_place read_slice
  in_place = record {
    reads =
        read_written (write_cell mem.cells s.array s.len c s.array) (mem.cells s.array) s.len c
          (λ j l. ground arith) (ground arith);
    live = h;
    grows = omega arith;
    apart = λ b l n. n;
    kept = λ b l n j. ground arith;
  }

  grown : Extends (s, mem) (c ∷ []) (append_grown extra s mem c)
  unfolding append_grown read_slice copy_cells
  grown = record {
    reads =
        read_written (copy_cells mem.cells s.array mem.next s.len c mem.next) (mem.cells s.array)
          s.len c (λ j l. ground arith) (ground arith);
    live = omega arith;
    grows = omega arith;
    apart = λ b l n. omega arith;
    kept = λ b l n j. ground arith;
  }

  append-Extends : Extends (s, mem) (c ∷ []) (append extra (s, mem) c)
  unfolding append
  append-Extends = elim (Bool-cases (ltb s.len s.capacity)) [
    | inl e ↦ rw e in_place
    | inr e ↦ rw e grown
  ]

Extends-trans :
    (sm tm um : Slice × Memory) (cs ds : List ℕ)
    → Extends sm cs tm
    → Extends tm ds um
    → Extends sm (cs ++ ds) um
Extends-trans sm tm um cs ds v w = record {
  reads = rw (w.reads, v.reads) (append_assoc (read_slice sm.1 sm.0) cs ds);
  live = w.live;
  grows = omega arith;
  apart = λ b l n. w.apart b (omega (arith, v.grows)) (v.apart b l n);
  kept = λ b l n j. w.kept b (omega (arith, v.grows)) (v.apart b l n) j ∙ v.kept b l n j;
}

pub append_all-Extends :
    (extra : ℕ → ℕ) (s : Slice) (mem : Memory) (cs : List ℕ)
    → s.array < mem.next
    → Extends (s, mem) cs (append_all extra (s, mem) cs)
unfolding append_all
append_all-Extends extra s mem [] h = record {
  reads = sym (append-nil _);
  live = h;
  grows = omega arith;
  apart = λ b l n. n;
  kept = λ b l n j. refl;
}
append_all-Extends extra s mem (c ∷ cs) h =
    let v = append-Extends extra s mem c h in
    let sm = append extra (s, mem) c in
    Extends-trans (s, mem) sm (append_all extra sm cs) (c ∷ []) cs v
      (append_all-Extends extra sm.0 sm.1 cs v.live)
