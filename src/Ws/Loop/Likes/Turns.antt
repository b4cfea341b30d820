-- ===== src/Ws/Loop/Likes/Turns.antt =====
-- What each turn does to the counted likes of a room.
use live_stream_danmaku.Base.{
  ℕ, ◌+◌, ◌≡◌, ◌<◌, refl, sym, ap, ◌∙◌, some, if◌then◌else◌, arith, nat_eq, list_eq, ◌==◌, ◌&&◌,
  ==_iff, OnSome, OnSome_some, Bool-cases, inl, inr, some_inj,
}
use live_stream_danmaku.Text.{Text}
use live_stream_danmaku.Text.Decimal.{ℤ, int_eq, u64}
use live_stream_danmaku.Dict.Entries.{IsKeyed}
use live_stream_danmaku.Json.{Bytes}
use live_stream_danmaku.Model.{TimeFormat, action_like, unmarshal_like}
use live_stream_danmaku.Ws.Manager.{Manager, handle_register, handle_unregister}
use live_stream_danmaku.Ws.Manager.Broadcast.{receive_broadcast, work}
use live_stream_danmaku.Ws.Manager.Registry.Untouched.{
  IsUntouched, handle_register-IsUntouched, handle_unregister-IsUntouched,
}
use live_stream_danmaku.Ws.Router.{dispatch, action_registry, like_handler, add_likes}
use live_stream_danmaku.Ws.Router.Laws.{likes_in, liked, dispatch_like, dispatch_like_counts}
use live_stream_danmaku.Ws.Loop.{
  write_round, shut_socket, Step, registers, unregisters, receives, takes_likes, informs, hears,
  reads, writes, shuts, starts, works, finishes, collects,
}
use live_stream_danmaku.Ws.Loop.Likes.{IsTurn, liked_by}
use live_stream_danmaku.Ws.Loop.Likes.Steady.{
  IsSteady, broadcast-IsSteady, on_message-IsSteady, receive_broadcast-IsSteady, work-IsSteady,
  dispatch-IsSteady,
}

-- A turn that has read `n` likes for room `r`.
pub record IsTurned (r : Text) (m m' : Manager) (n : ℕ) : Type 0 where
  pub likes : likes_in r m + n < u64 → likes_in r m' ≡ likes_in r m + n
  pub keyed : IsKeyed m.rooms → IsKeyed m'.rooms

steady-IsTurned : (r : Text) (m m' : Manager) → IsSteady m m' → IsTurned r m m' 0
steady-IsTurned r m m' s = record {
  likes = λ h. rw s.likes (omega arith);
  keyed = λ k. rw s.rooms k;
}

untouched-IsTurned : (r : Text) (m m' : Manager) → IsUntouched m m' → IsTurned r m m' 0
untouched-IsTurned r m m' u = record {
  likes = λ h. rw u.local_likes (omega arith);
  keyed = u.keyed;
}

same-IsTurned :
    (r : Text) (m m' : Manager)
    → m'.local_likes ≡ m.local_likes
    → m'.rooms ≡ m.rooms
    → IsTurned r m m' 0
same-IsTurned r m m' l o = steady-IsTurned r m m' (record { likes = l; rooms = o })

liked-rooms :
    (k : ℕ) (m : Manager) (payload : Bytes)
    → OnSome (λ (m' : Manager). m'.rooms ≡ m.rooms) (like_handler k m payload)
unfolding like_handler add_likes
liked-rooms k m payload = refl

like-IsTurned :
    (format : TimeFormat) (now k : ℕ) (r : Text) (m m' : Manager) (payload : Bytes)
    → dispatch (action_registry format now) k m action_like payload ≡ some m'
    → IsTurned r m m' (if (m.clients k).room_id == r then liked (unmarshal_like payload) else 0)
like-IsTurned format now k r m m' payload e =
    let (x, d, counts) = dispatch_like_counts format now k m payload in
    let same : x ≡ m' = some_inj (sym d ∙ e) in
    record {
      likes = λ h.
          ap (likes_in r) (sym same) ∙ counts r ∙ elim (Bool-cases ((m.clients k).room_id == r)) [
            | inl b ↦ let h' = rw b at h in rw b (omega arith)
            | inr b ↦ rw b (omega arith)
          ];
      keyed = λ v.
          rw
            (OnSome_some (λ (y : Manager). y.rooms ≡ m.rooms) (like_handler k m payload)
              (sym (dispatch_like format now k m payload) ∙ e) (liked-rooms k m payload))
            v;
    }

read-IsTurned :
    (format : TimeFormat) (now k : ℕ) (r : Text) (m m' : Manager) (t : ℤ) (payload : Bytes)
    → dispatch (action_registry format now) k m t payload ≡ some m'
    → IsTurned r m m' (
        if t == action_like && (m.clients k).room_id == r
        then liked (unmarshal_like payload)
        else 0)
read-IsTurned format now k r m m' t payload e = elim (Bool-cases (t == action_like)) [
  | inl h ↦ rw h (like-IsTurned format now k r m m' payload (rw ((==_iff t action_like).0 h) at e))
  | inr h ↦ rw h (
      steady-IsTurned r m m' (
        OnSome_some (IsSteady m) (dispatch (action_registry format now) k m t payload) e
          (dispatch-IsSteady format now k m t payload h)))
]

pub turn-IsTurned :
    {format : TimeFormat} {m m' : Manager} (r : Text) (st : Step format m m')
    → IsTurn st
    → IsTurned r m m' (liked_by r st)
unfolding write_round shut_socket
turn-IsTurned {m = m} r (registers k h) t =
    untouched-IsTurned r m (handle_register k m) (handle_register-IsUntouched k m)
turn-IsTurned {m = m} {m'} r (unregisters k e) t =
    untouched-IsTurned r m m'
      (OnSome_some (IsUntouched m) (handle_unregister k m) e (handle_unregister-IsUntouched k m))
turn-IsTurned {m = m} {m'} r (receives ch reached e) t = steady-IsTurned r m m' (
    OnSome_some (IsSteady m) (receive_broadcast ch reached m) e
      (receive_broadcast-IsSteady ch reached m))
turn-IsTurned {m = m} r (informs ch room payload) t =
    steady-IsTurned r m _ (broadcast-IsSteady ch room payload m)
turn-IsTurned {m = m} r (hears ch leaves s payload) t =
    steady-IsTurned r m _ (on_message-IsSteady ch leaves s payload m)
turn-IsTurned {format} {m} {m'} r (reads now k p e) t =
    read-IsTurned format now k r m m' p.msg_type p.raw_data e
turn-IsTurned {m = m} r (writes k x) t = same-IsTurned r m _ refl refl
turn-IsTurned {m = m} r (shuts k) t = same-IsTurned r m _ refl refl
turn-IsTurned {m = m} r (starts e) t = same-IsTurned r m _ refl refl
turn-IsTurned {m = m} {m'} r (works i e) t =
    steady-IsTurned r m m' (OnSome_some (IsSteady m) (work i m) e (work-IsSteady i m))
turn-IsTurned {m = m} r (finishes i e) t = same-IsTurned r m _ refl refl
turn-IsTurned {m = m} r (collects i s rest e) t = same-IsTurned r m _ refl refl
turn-IsTurned r takes_likes t = elim t [ ]
