-- ===== src/Ws/Manager/Registry.antt =====
-- The invariant of the rooms, their cancel functions and their subscribers, and what registering
-- and unregistering do to each map.
pub mod Register
pub mod Unregister
pub mod Members
pub mod Untouched
use live_stream_danmaku.Base.{
  ℕ, suc, ◌+◌, ◌≤◌, ◌<◌, ◌≡◌, ◌≢◌, refl, Bool, true, false, not, List, [], ◌∷◌, Option, none, some,
  if◌then◌else◌, nat_eq, list_eq, ◌==◌, ◌&&◌, ==_iff, arith, Bool-cases, inl, inr,
}
use live_stream_danmaku.Text.{Text}
use live_stream_danmaku.Dict.{lookup}
use live_stream_danmaku.Dict.Laws.{is_some}
use live_stream_danmaku.Dict.Sets.{member, count}
use live_stream_danmaku.Ws.Client.{Client}
use live_stream_danmaku.Ws.Manager.{Manager, Subscription, or_nil, cancel, cancel_one}

-- The subscribers to room `r` under context `c` that have not been cancelled.
abbrev pub is_live : Text → ℕ → Subscription → Bool
is_live r c s = s.room == r && s.ctx == c && not s.cancelled

unfoldable pub live : Text → ℕ → List Subscription → ℕ
live r c [] = 0
live r c (s ∷ subs) = if is_live r c s then suc (live r c subs) else live r c subs

abbrev pub is_ctx : Option ℕ → ℕ → ℕ
is_ctx none c = 0
is_ctx (some d) c = if d == c then 1 else 0

-- A room exists exactly if it has a cancel function, which belongs to no other room; under its
-- context one subscriber listens, and none under any other. A room's clients are at least one,
-- each once, registered for this room and not closed. `done` is closed by `Close` alone.
pub record IsWf (m : Manager) : Type 0 where
  pub same : (r : Text) → is_some (lookup r m.rooms) ≡ is_some (lookup r m.cancel_sub)
  pub fresh : (r : Text) (c : ℕ) → lookup r m.cancel_sub ≡ some c → c < m.next_ctx
  pub apart :
      (r r' : Text) (c : ℕ)
      → lookup r m.cancel_sub ≡ some c
      → lookup r' m.cancel_sub ≡ some c
      → r ≡ r'
  pub watched : (r : Text) (c : ℕ) → live r c m.subscriptions ≡ is_ctx (lookup r m.cancel_sub) c
  pub nonempty : (r : Text) → lookup r m.rooms ≢ some []
  pub single : (r : Text) (k : ℕ) → count k (or_nil (lookup r m.rooms)) ≤ 1
  pub home :
      (r : Text) (k : ℕ) → member k (or_nil (lookup r m.rooms)) ≡ true → (m.clients k).room_id ≡ r
  pub open_client :
      (r : Text) (k : ℕ) → member k (or_nil (lookup r m.rooms)) ≡ true → (m.clients k).done ≡ false
  pub closes : (k : ℕ) → (m.clients k).done ≡ (m.clients k).once

-- Cancelling context `c` ends the subscribers under it, and no others.
pub live-cancel :
    (r : Text) (d c : ℕ) (subs : List Subscription)
    → live r d (cancel c subs) ≡ (if c == d then 0 else live r d subs)
unfolding live cancel
live-cancel r d c [] = ground arith
live-cancel r d c (s ∷ subs) = ground (arith, live-cancel r d c subs)
