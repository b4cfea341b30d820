-- ===== src/Ws/Loop/Handlers.antt =====
-- What a broadcast keeps.
use live_stream_danmaku.Base.{
  ℕ, ◌≡◌, ◌≤◌, refl, ap, ◌∙◌, Bool, true, false, List, length, arith, nat_eq, list_eq, ◌==◌, ==_iff,
  Bool-cases, Option-cases, inl, inr,
}
use live_stream_danmaku.Text.{Text}
use live_stream_danmaku.Text.Decimal.{int_eq}
use live_stream_danmaku.Dict.{lookup}
use live_stream_danmaku.Json.{Bytes}
use live_stream_danmaku.Model.{WsPacket, marshal_packet, type_danmaku, type_stats, action_like}
use live_stream_danmaku.Ws.Client.{Client, send_chan_size}
use live_stream_danmaku.Ws.Jobs.Bounds.{dispatch-IsWithin}
use live_stream_danmaku.Ws.Jobs.Ownership.{dispatch-IsOwned}
use live_stream_danmaku.Ws.Manager.{Manager, Subscription, update}
use live_stream_danmaku.Ws.Manager.Broadcast.{
  Choices, broadcast_chan_size, broadcast_to_local_clients, handle_broadcast, process_danmaku,
  on_message,
}
use live_stream_danmaku.Ws.Loop.Good.{IsGood, same-IsWf, with_jobs}

-- The counted likes, the waiting packets and what has been given to the outside do not matter, as long as
-- no more packets wait than the channel holds.
pub with_queue :
    (m : Manager) (likes : List (Text × ℕ)) (packets : List WsPacket)
    (kafka_input published : List (Text × Bytes))
    → IsGood m
    → length packets ≤ broadcast_chan_size
    → IsGood (record m {
      local_likes = likes;
      broadcast = packets;
      kafka_input = kafka_input;
      published = published;
    })
with_queue m likes packets kafka_input published g h = record {
  wf =
      same-IsWf {m = m}
        (record {
          rooms = refl;
          cancel_sub = refl;
          next_ctx = refl;
          subscriptions = refl;
          room_id = λ k. refl;
          done = λ k. refl;
          once = λ k. refl;
        })
        g.wf;
  owned = g.owned;
  within = g.within;
  queue = h;
  buffers = g.buffers;
}

-- A client that keeps its room, its closing and the bound of its buffer.
pub record IsLike (c c' : Client) : Type 0 where
  pub room_id : c'.room_id ≡ c.room_id
  pub done : c'.done ≡ c.done
  pub once : c'.once ≡ c.once
  pub send : length c'.send ≤ send_chan_size

updated :
    {A : Type 0} (f : Client → A) (m : Manager) (k : ℕ) (c : Client)
    → f c ≡ f (m.clients k)
    → (j : ℕ) → f (update m.clients k c j) ≡ f (m.clients j)
updated f m k c e j = elim (Bool-cases (k == j)) [
  | inl h ↦ rw h (e ∙ ap (λ i. f (m.clients i)) ((==_iff k j).0 h))
  | inr h ↦ rw h refl
]

pub with_client :
    (m : Manager) (k : ℕ) (c : Client)
    → IsGood m
    → IsLike (m.clients k) c
    → IsGood (record m { clients = update m.clients k c })
with_client m k c g s = record {
  wf =
      same-IsWf {m = m}
        (record {
          rooms = refl;
          cancel_sub = refl;
          next_ctx = refl;
          subscriptions = refl;
          room_id = updated (λ x. x.room_id) m k c s.room_id;
          done = updated (λ x. x.done) m k c s.done;
          once = updated (λ x. x.once) m k c s.once;
        })
        g.wf;
  owned = g.owned;
  within = g.within;
  queue = g.queue;
  buffers = λ j. ground (arith, s.send, g.buffers j);
}

pub broadcast_to_local_clients-IsGood :
    (ch : Choices) (room : Text) (payload : Bytes) (m : Manager)
    → IsGood m
    → IsGood (broadcast_to_local_clients ch room payload m)
unfolding broadcast_to_local_clients
broadcast_to_local_clients-IsGood ch room payload m g = elim (Option-cases (lookup room m.rooms)) [
  | inl e ↦ rw (e, broadcast_to_local_clients) g
  | inr (cs, e) ↦
      rw (e, broadcast_to_local_clients)
        (with_jobs m _ g (dispatch-IsOwned ch.extra ch.pick (ch.order cs) payload m.jobs g.owned)
          (dispatch-IsWithin ch.extra ch.pick (ch.order cs) payload m.jobs g.within))
]

pub on_message-IsGood :
    (ch : Choices) (leaves : Bool) (s : Subscription) (payload : Bytes) (m : Manager)
    → IsGood m
    → IsGood (on_message ch leaves s payload m)
unfolding on_message
on_message-IsGood ch leaves s payload m g =
    let b = broadcast_to_local_clients-IsGood ch s.room payload m g in
    elim (Bool-cases s.cancelled) [
      | inl c ↦ elim (Bool-cases leaves) [ inl l ↦ rw (c, l) g | inr l ↦ rw (c, l) b ]
      | inr c ↦ rw c b
    ]

process_danmaku-IsGood :
    (reached : Bool) (room : Text) (payload : Bytes) (m : Manager)
    → IsGood m
    → IsGood (process_danmaku reached room payload m)
unfolding process_danmaku
process_danmaku-IsGood true room payload m g = with_queue m m.local_likes m.broadcast _ _ g g.queue
process_danmaku-IsGood false room payload m g = with_queue m m.local_likes m.broadcast _ _ g g.queue

pub handle_broadcast-IsGood :
    (ch : Choices) (reached : Bool) (p : WsPacket) (m : Manager)
    → IsGood m
    → IsGood (handle_broadcast ch reached p m)
unfolding handle_broadcast
handle_broadcast-IsGood ch reached p m g = elim (Option-cases (marshal_packet p)) [
  | inl e ↦ rw (e, handle_broadcast) g
  | inr (payload, e) ↦
      rw (e, handle_broadcast)
        (elim (Bool-cases (p.msg_type == type_danmaku)) [
          | inl d ↦ rw d (process_danmaku-IsGood reached p.room_id payload m g)
          | inr d ↦ elim (Bool-cases (p.msg_type == action_like)) [
            | inl l ↦ rw (d, l) g
            | inr l ↦ elim (Bool-cases (p.msg_type == type_stats)) [
              | inl s ↦ rw (d, l, s) (broadcast_to_local_clients-IsGood ch p.room_id payload m g)
              | inr s ↦ rw (d, l, s) g
            ]
          ]
        ])
]
