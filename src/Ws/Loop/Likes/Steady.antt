-- ===== src/Ws/Loop/Likes/Steady.antt =====
-- The turns that leave the counted likes and the map of rooms alone.
use live_stream_danmaku.Base.{
  ℕ, ◌≡◌, refl, Bool, true, false, List, [], ◌∷◌, ltb, length, arith, nat_eq, list_eq, ◌==◌, ==_iff,
  OnSome, Bool-cases, Option-cases, inl, inr,
}
use live_stream_danmaku.Text.{Text}
use live_stream_danmaku.Text.Decimal.{ℤ, int_eq}
use live_stream_danmaku.Dict.{lookup}
use live_stream_danmaku.Json.{Bytes, ◌>>=◌}
use live_stream_danmaku.Model.{
  WsPacket, TimeFormat, type_danmaku, action_like, unmarshal_message, marshal_packet, type_stats,
}
use live_stream_danmaku.Ws.Jobs.{serve_next}
use live_stream_danmaku.Ws.Manager.{Manager, Subscription}
use live_stream_danmaku.Ws.Manager.Broadcast.{
  Choices, broadcast_to_local_clients, handle_broadcast, process_danmaku, receive_broadcast,
  send_broadcast, on_message, work, broadcast_chan_size,
}
use live_stream_danmaku.Ws.Router.{dispatch, action_registry, danmaku_handler}
use live_stream_danmaku.Ws.Router.Laws.{dispatch_danmaku, dispatch_unknown}

-- Neither the counted likes nor the map of rooms have changed.
pub record IsSteady (m m' : Manager) : Type 0 where
  pub likes : m'.local_likes ≡ m.local_likes
  pub rooms : m'.rooms ≡ m.rooms

pub broadcast-IsSteady :
    (ch : Choices) (room : Text) (payload : Bytes) (m : Manager)
    → IsSteady m (broadcast_to_local_clients ch room payload m)
unfolding broadcast_to_local_clients
broadcast-IsSteady ch room payload m = elim (Option-cases (lookup room m.rooms)) [
  | inl e ↦ rw (e, broadcast_to_local_clients) (record { likes = refl; rooms = refl })
  | inr (cs, e) ↦ rw (e, broadcast_to_local_clients) (record { likes = refl; rooms = refl })
]

pub on_message-IsSteady :
    (ch : Choices) (leaves : Bool) (s : Subscription) (payload : Bytes) (m : Manager)
    → IsSteady m (on_message ch leaves s payload m)
unfolding on_message
on_message-IsSteady ch leaves s payload m =
    let b = broadcast-IsSteady ch s.room payload m in
    elim (Bool-cases s.cancelled) [
      | inl c ↦ elim (Bool-cases leaves) [
        | inl l ↦ rw (c, l) (record { likes = refl; rooms = refl })
        | inr l ↦ rw (c, l) b
      ]
      | inr c ↦ rw c b
    ]

process_danmaku-IsSteady :
    (reached : Bool) (room : Text) (payload : Bytes) (m : Manager)
    → IsSteady m (process_danmaku reached room payload m)
unfolding process_danmaku
process_danmaku-IsSteady true room payload m = record { likes = refl; rooms = refl }
process_danmaku-IsSteady false room payload m = record { likes = refl; rooms = refl }

handle_broadcast-IsSteady :
    (ch : Choices) (reached : Bool) (p : WsPacket) (m : Manager)
    → IsSteady m (handle_broadcast ch reached p m)
unfolding handle_broadcast
handle_broadcast-IsSteady ch reached p m = elim (Option-cases (marshal_packet p)) [
  | inl e ↦ rw (e, handle_broadcast) (record { likes = refl; rooms = refl })
  | inr (payload, e) ↦
      rw (e, handle_broadcast)
        (elim (Bool-cases (p.msg_type == type_danmaku)) [
          | inl d ↦ rw d (process_danmaku-IsSteady reached p.room_id payload m)
          | inr d ↦ elim (Bool-cases (p.msg_type == action_like)) [
            | inl l ↦ rw (d, l) (record { likes = refl; rooms = refl })
            | inr l ↦ elim (Bool-cases (p.msg_type == type_stats)) [
              | inl s ↦ rw (d, l, s) (broadcast-IsSteady ch p.room_id payload m)
              | inr s ↦ rw (d, l, s) (record { likes = refl; rooms = refl })
            ]
          ]
        ])
]

receive-IsSteady :
    (ch : Choices) (reached : Bool) (ps : List WsPacket) (m : Manager)
    → m.broadcast ≡ ps
    → OnSome (IsSteady m) (receive_broadcast ch reached m)
unfolding receive_broadcast
receive-IsSteady ch reached [] m e = rw (e, receive_broadcast) tt
receive-IsSteady ch reached (p ∷ rest) m e =
    let h = handle_broadcast-IsSteady ch reached p (record m { broadcast = rest }) in
    rw (e, receive_broadcast) (record { likes = h.likes; rooms = h.rooms })

pub receive_broadcast-IsSteady :
    (ch : Choices) (reached : Bool) (m : Manager)
    → OnSome (IsSteady m) (receive_broadcast ch reached m)
receive_broadcast-IsSteady ch reached m = receive-IsSteady ch reached m.broadcast m refl

pub work-IsSteady : (i : ℕ) (m : Manager) → OnSome (IsSteady m) (work i m)
unfolding work
work-IsSteady i m = elim (Option-cases (serve_next i m.jobs)) [
  | inl e ↦ rw (e, ◌>>=◌) tt
  | inr (((c, payload), q), e) ↦ rw (e, ◌>>=◌) (record { likes = refl; rooms = refl })
]

send_broadcast-IsSteady : (p : WsPacket) (m : Manager) → OnSome (IsSteady m) (send_broadcast p m)
unfolding send_broadcast
send_broadcast-IsSteady p m = elim (Bool-cases (ltb (length m.broadcast) broadcast_chan_size)) [
  | inl h ↦ rw h (record { likes = refl; rooms = refl })
  | inr h ↦ rw h tt
]

danmaku_handler-IsSteady :
    (format : TimeFormat) (now k : ℕ) (m : Manager) (payload : Bytes)
    → OnSome (IsSteady m) (danmaku_handler format now k m payload)
unfolding danmaku_handler
danmaku_handler-IsSteady format now k m payload =
    elim (Option-cases (unmarshal_message format payload)) [
      | inl e ↦ rw (e, danmaku_handler) (record { likes = refl; rooms = refl })
      | inr (d, e) ↦ rw (e, danmaku_handler) (send_broadcast-IsSteady _ m)
    ]

-- What is not a like counts none.
pub dispatch-IsSteady :
    (format : TimeFormat) (now k : ℕ) (m : Manager) (t : ℤ) (payload : Bytes)
    → (t == action_like) ≡ false
    → OnSome (IsSteady m) (dispatch (action_registry format now) k m t payload)
dispatch-IsSteady format now k m t payload h = elim (Bool-cases (t == type_danmaku)) [
  | inl e ↦ rw ((==_iff t type_danmaku).0 e) (
      rw (dispatch_danmaku format now k m payload)
        (danmaku_handler-IsSteady format now k m payload))
  | inr e ↦
      rw
        (dispatch_unknown format now k m payload t
          (λ u. ground (arith, u, e, ==_iff t type_danmaku))
          (λ u. ground (arith, u, h, ==_iff t action_like)))
        (record { likes = refl; rooms = refl })
]
