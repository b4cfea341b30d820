-- ===== src/Ws/Loop/Isolation/Steps.antt =====
-- Each turn keeps the clients isolated.
use live_stream_danmaku.Base.{
  ℕ, ◌≡◌, refl, sym, ◌∙◌, subst, Bool, true, false, List, [], ◌∷◌, ltb, length, arith, nat_eq,
  list_eq, All, All-append, OnSome, Bool-cases, Option-cases, inl, inr,
}
use live_stream_danmaku.Text.{Text}
use live_stream_danmaku.Text.Decimal.{int_eq}
use live_stream_danmaku.Dict.{lookup}
use live_stream_danmaku.Json.{Bytes}
use live_stream_danmaku.Model.{WsPacket, TimeFormat, marshal_packet, unmarshal_message}
use live_stream_danmaku.Ws.Jobs.Refinement.{view}
use live_stream_danmaku.Ws.Manager.{Manager, Subscription}
use live_stream_danmaku.Ws.Manager.Broadcast.{
  Choices, broadcast_chan_size, broadcast_to_local_clients, handle_broadcast, process_danmaku,
  receive_broadcast, send_broadcast, on_message,
}
use live_stream_danmaku.Ws.Manager.Broadcast.Laws.{AreClients, broadcast_reaches_room}
use live_stream_danmaku.Ws.Manager.Registry.{IsWf}
use live_stream_danmaku.Ws.Manager.Registry.Members.{in_room}
use live_stream_danmaku.Ws.Router.{danmaku_handler, danmaku_packet, like_handler, add_likes}
use live_stream_danmaku.Ws.Loop.Good.{IsGood}
use live_stream_danmaku.Ws.Loop.Isolation.{AreFair, IsIsolated, IsDanmaku}
use live_stream_danmaku.Ws.Loop.Isolation.Sendings.{All-count, send_all-AreFair}

packets_kept :
    (ch : Choices) (room : Text) (payload : Bytes) (m : Manager)
    → (broadcast_to_local_clients ch room payload m).broadcast ≡ m.broadcast
unfolding broadcast_to_local_clients
packets_kept ch room payload m = elim (Option-cases (lookup room m.rooms)) [
  | inl e ↦ rw (e, broadcast_to_local_clients)
  | inr (cs, e) ↦ rw (e, broadcast_to_local_clients)
]

module _ (Allowed : Text → Bytes → Type 0) (home : ℕ → Text) where
  abbrev Isolated : Manager → Type 0
  Isolated = IsIsolated Allowed home

  -- The clients of a room are at home there, so a message allowed in the room is allowed for each.
  room_allowed :
      (m : Manager) (room : Text) (payload : Bytes) (targets : List ℕ)
      → IsWf m
      → ((k : ℕ) → (m.clients k).room_id ≡ home k)
      → Allowed room payload
      → AreClients m room targets
      → All (λ k. Allowed (home k) payload) targets
  room_allowed m room payload targets v h ok a =
      All-count (λ k. Allowed (home k) payload) targets
        (λ k n.
          let here : in_room room k m ≡ true = ground (arith, a k, n) in
          subst (λ r. Allowed r payload) (sym (v.home room k here) ∙ h k) ok)

  pub broadcast-IsIsolated :
      (ch : Choices) (room : Text) (payload : Bytes) (m : Manager)
      → IsGood m
      → Allowed room payload
      → Isolated m
      → Isolated (broadcast_to_local_clients ch room payload m)
  broadcast-IsIsolated ch room payload m g ok v =
      elim (broadcast_reaches_room ch m room payload g.wf g.owned) [
        | inl (_, e) ↦ subst Isolated (sym e) v
        | inr (ts, a, w, c, _) ↦ record {
          homes = rw c v.homes;
          danmaku = rw (packets_kept ch room payload m) v.danmaku;
          jobs = subst (AreFair Allowed home) (sym w) (
              send_all-AreFair Allowed home ts payload (view m.jobs)
                (room_allowed m room payload ts g.wf v.homes ok a) v.jobs);
          buffers = rw c v.buffers;
        }
      ]

  pub on_message-IsIsolated :
      (ch : Choices) (leaves : Bool) (s : Subscription) (payload : Bytes) (m : Manager)
      → IsGood m
      → Allowed s.room payload
      → Isolated m
      → Isolated (on_message ch leaves s payload m)
  unfolding on_message
  on_message-IsIsolated ch leaves s payload m g ok v =
      let b = broadcast-IsIsolated ch s.room payload m g ok v in
      elim (Bool-cases s.cancelled) [
        | inl c ↦ elim (Bool-cases leaves) [ inl l ↦ rw (c, l) v | inr l ↦ rw (c, l) b ]
        | inr c ↦ rw c b
      ]

  process_danmaku-IsIsolated :
      (reached : Bool) (room : Text) (payload : Bytes) (m : Manager)
      → Isolated m
      → Isolated (process_danmaku reached room payload m)
  unfolding process_danmaku
  process_danmaku-IsIsolated true room payload m v = record {
    homes = v.homes;
    danmaku = v.danmaku;
    jobs = v.jobs;
    buffers = v.buffers;
  }
  process_danmaku-IsIsolated false room payload m v = record {
    homes = v.homes;
    danmaku = v.danmaku;
    jobs = v.jobs;
    buffers = v.buffers;
  }

  -- A chat message goes to Kafka and Redis, and to no client.
  receive-IsIsolated :
      (ch : Choices) (reached : Bool) (ps : List WsPacket) (m : Manager)
      → m.broadcast ≡ ps
      → Isolated m
      → OnSome Isolated (receive_broadcast ch reached m)
  unfolding receive_broadcast handle_broadcast
  receive-IsIsolated ch reached [] m e v = rw (e, receive_broadcast) tt
  receive-IsIsolated ch reached (p ∷ rest) m e v =
      let d = rw e at v.danmaku in
      let v' : Isolated (record m { broadcast = rest }) = record {
        homes = v.homes;
        danmaku = d.1;
        jobs = v.jobs;
        buffers = v.buffers;
      } in
      rw (e, receive_broadcast)
        (elim (Option-cases (marshal_packet p)) [
          | inl n ↦ rw (n, handle_broadcast) v'
          | inr (payload, n) ↦
              rw (n, handle_broadcast)
                (rw d.0 (process_danmaku-IsIsolated reached p.room_id payload _ v'))
        ])

  pub receive_broadcast-IsIsolated :
      (ch : Choices) (reached : Bool) (m : Manager)
      → Isolated m
      → OnSome Isolated (receive_broadcast ch reached m)
  receive_broadcast-IsIsolated ch reached m v = receive-IsIsolated ch reached m.broadcast m refl v

  send_broadcast-IsIsolated :
      (p : WsPacket) (m : Manager) → IsDanmaku p → Isolated m → OnSome Isolated (send_broadcast p m)
  unfolding send_broadcast
  send_broadcast-IsIsolated p m d v =
      elim (Bool-cases (ltb (length m.broadcast) broadcast_chan_size)) [
        | inl h ↦ rw h (record {
          homes = v.homes;
          danmaku = All-append IsDanmaku m.broadcast (p ∷ []) v.danmaku (d, tt);
          jobs = v.jobs;
          buffers = v.buffers;
        })
        | inr h ↦ rw h tt
      ]

  pub danmaku_handler-IsIsolated :
      (format : TimeFormat) (now k : ℕ) (m : Manager) (payload : Bytes)
      → Isolated m
      → OnSome Isolated (danmaku_handler format now k m payload)
  unfolding danmaku_handler danmaku_packet
  danmaku_handler-IsIsolated format now k m payload v =
      elim (Option-cases (unmarshal_message format payload)) [
        | inl e ↦ rw (e, danmaku_handler) v
        | inr (d, e) ↦ rw (e, danmaku_handler) (send_broadcast-IsIsolated _ m refl v)
      ]

  pub like_handler-IsIsolated :
      (k : ℕ) (m : Manager) (payload : Bytes)
      → Isolated m
      → OnSome Isolated (like_handler k m payload)
  unfolding like_handler add_likes
  like_handler-IsIsolated k m payload v = record {
    homes = v.homes;
    danmaku = v.danmaku;
    jobs = v.jobs;
    buffers = v.buffers;
  }
