-- ===== src/Consumer/Session/Marks.antt =====
-- internal/consumer/handler.go: the Kafka messages that the claims have consumed are, each once, marked
-- or still to be marked, in some order.
use mathlib.Core.List.{Perm, perm_append_comm}
use mathlib.Core.List.Perm
use live_stream_danmaku.Base.{
  ℕ, zero, suc, List, [], ◌∷◌, ◌++◌, append_assoc, sym, inl, inr, OnSome, OnSome_some, Option-cases,
  take_nth, push_rest, subst,
}
use live_stream_danmaku.Json.{Bytes}

-- One more message is sent, and marked later.
pub send-Perm :
    (taken a b : List Bytes) (msg : Bytes)
    → Perm taken (a ++ b)
    → Perm (taken ++ msg ∷ []) (a ++ (b ++ msg ∷ []))
send-Perm taken a b msg p =
    subst (Perm (taken ++ msg ∷ [])) (append_assoc a b (msg ∷ [])) (Perm.append_right (msg ∷ []) p)

-- It is marked at once.
pub mark-Perm :
    (taken a b : List Bytes) (msg : Bytes)
    → Perm taken (a ++ b)
    → Perm (taken ++ msg ∷ []) ((a ++ msg ∷ []) ++ b)
mark-Perm taken a b msg p = Perm.trans (send-Perm taken a b msg p) (
    subst (Perm (a ++ (b ++ msg ∷ []))) (sym (append_assoc a (msg ∷ []) b))
      (Perm.append_left a (perm_append_comm b (msg ∷ []))))

pub take_nth-Perm : (i : ℕ) (xs : List Bytes) → OnSome (λ yr. Perm xs (yr.0 ∷ yr.1)) (take_nth i xs)
unfolding take_nth
take_nth-Perm i [] = tt
take_nth-Perm zero (x ∷ xs) = Perm.refl (x ∷ xs)
take_nth-Perm (suc i) (x ∷ xs) = elim (Option-cases (take_nth i xs)) [
  | inl e ↦ rw (e, push_rest) tt
  | inr (yr, e) ↦
      let h = OnSome_some (λ zr. Perm xs (zr.0 ∷ zr.1)) (take_nth i xs) e (take_nth-Perm i xs) in
      rw (e, push_rest) (Perm.trans (Perm.cons x h) (Perm.swap yr.0 x yr.1))
]
