-- ===== src/Ws/Manager/Broadcast/Listening.antt =====
-- internal/ws/manager.go: which subscribers of a room take a message. One of an existing room is not
-- cancelled; cancelled ones may linger.
use mathlib.Core.List.{append_cancel_left, append_cancel_right}
use live_stream_danmaku.Base.{
  ℕ, ◌≡◌, inl, inr, refl, ap, ◌∙◌, Bool, not, ◌&&◌, if◌then◌else◌, suc, List, [], ◌∷◌, ◌++◌, none,
  some, nat_eq, list_eq, ◌==◌, ==_iff, ==_refl, arith, Bool-cases, Option-cases,
}
use live_stream_danmaku.Text.{Text, codes}
use live_stream_danmaku.Dict.{lookup}
use live_stream_danmaku.Dict.Laws.{is_some}
use live_stream_danmaku.Ws.Manager.{Manager, Subscription}
use live_stream_danmaku.Ws.Manager.Registry.{IsWf, live, is_ctx}
use live_stream_danmaku.Ws.Manager.Broadcast.{room_pub_sub}

room_pub_sub-inj : (r s : Text) → room_pub_sub r ≡ room_pub_sub s → r ≡ s
unfolding room_pub_sub
room_pub_sub-inj r s e =
    append_cancel_right r s (codes ":pubsub")
      (append_cancel_left (codes "room:") (r ++ codes ":pubsub") (s ++ codes ":pubsub") e)

channel_ap : (r s : Text) → r ≡ s → room_pub_sub r ≡ room_pub_sub s
channel_ap r s e = ap room_pub_sub e

pub same_channel : (r s : Text) → (room_pub_sub r == room_pub_sub s) ≡ (r == s)
same_channel r s = ground (
  arith,
  ==_iff (room_pub_sub r) (room_pub_sub s),
  ==_iff r s,
  room_pub_sub-inj r s,
  channel_ap r s,
)

-- Whether a subscriber to room `r` is not cancelled; whether it is, and takes a message all the same.

abbrev pub listens : Text → Subscription → Bool
listens r s = s.room == r && not s.cancelled

abbrev pub lingers : Text → (Subscription → Bool) → Subscription → Bool
lingers r leaves s = s.room == r && s.cancelled && not (leaves s)

abbrev pub listening : Text → List Subscription → ℕ
listening r [] = 0
listening r (s ∷ subs) = if listens r s then suc (listening r subs) else listening r subs

-- The subscribers of room `r` that are cancelled and do not leave yet.
abbrev pub lingering : Text → (Subscription → Bool) → List Subscription → ℕ
lingering r leaves [] = 0
lingering r leaves (s ∷ subs) =
    if lingers r leaves s then suc (lingering r leaves subs) else lingering r leaves subs

none_listens :
    (r : Text) (subs : List Subscription) → ((c : ℕ) → live r c subs ≡ 0) → listening r subs ≡ 0
unfolding live
none_listens r [] h = refl
none_listens r (s ∷ subs) h = elim (Bool-cases (listens r s)) [
  | inl e ↦ absurd (ground (arith, h s.ctx, ==_refl s.ctx))
  | inr e ↦ rw e (none_listens r subs (λ c. ground (arith, h c)))
]

one_listens :
    (r : Text) (subs : List Subscription) (d : ℕ)
    → ((c : ℕ) → live r c subs ≡ is_ctx (some d) c)
    → listening r subs ≡ 1
unfolding live
one_listens r [] d h = absurd (ground (arith, h d, ==_refl d))
one_listens r (s ∷ subs) d h = elim (Bool-cases (listens r s)) [
  | inl e ↦
      let rest = none_listens r subs (λ c.
        ground (arith, h c, h s.ctx, ==_refl s.ctx, ==_iff s.ctx c, ==_iff d c, ==_iff d s.ctx)) in
      rw (e, rest) refl
  | inr e ↦ rw e (one_listens r subs d (λ c. ground (arith, h c)))
]

room_absent :
    (r : Text) (m : Manager) → IsWf m → lookup r m.cancel_sub ≡ none → lookup r m.rooms ≡ none
room_absent r m v e = elim (Option-cases (lookup r m.rooms)) [
  | inl n ↦ n
  | inr (cs, k) ↦
      let both : is_some (lookup r m.rooms) ≡ is_some (lookup r m.cancel_sub) = v.same r in
      let same = rw (k, e) at both in cc
]

-- A room that exists has one subscriber that is not cancelled.
pub one_listening :
    (r : Text) (m : Manager) (cs : List ℕ)
    → IsWf m
    → lookup r m.rooms ≡ some cs
    → listening r m.subscriptions ≡ 1
one_listening r m cs v e = elim (Option-cases (lookup r m.cancel_sub)) [
  | inl n ↦ let n' = room_absent r m v n in cc
  | inr (d, k) ↦ one_listens r m.subscriptions d (λ c. v.watched r c ∙ ap (λ o. is_ctx o c) k)
]
