-- ===== src/Ws/Loop/Turns.antt =====
-- What the turns of the loop, of a client's pumps and of a worker keep.
use live_stream_danmaku.Base.{
  ℕ, ◌≡◌, ◌≤◌, refl, Bool, true, false, List, [], ◌∷◌, ◌++◌, length, length-append, ltb, arith,
  nat_eq, list_eq, ◌==◌, ==_iff, OnSome, OnSome_some, Bool-cases, Option-cases, inl, inr, subst,
}
use live_stream_danmaku.Text.Decimal.{ℤ, int_eq}
use live_stream_danmaku.Json.{Bytes, ◌>>=◌}
use live_stream_danmaku.Model.{WsPacket, TimeFormat, unmarshal_message, type_danmaku, action_like}
use live_stream_danmaku.Ws.Client.{
  Client, send_chan_size, safe_send, Ready, message, stopped, start_pump, pump_step,
}
use live_stream_danmaku.Ws.Jobs.{serve_next}
use live_stream_danmaku.Ws.Jobs.Bounds.{IsWithin, serve_next-IsWithin}
use live_stream_danmaku.Ws.Jobs.Ownership.{IsOwned}
use live_stream_danmaku.Ws.Jobs.Ownership.Steps.{serve_next-IsOwned}
use live_stream_danmaku.Ws.Manager.{Manager}
use live_stream_danmaku.Ws.Manager.Broadcast.{
  Choices, broadcast_chan_size, receive_broadcast, send_broadcast, work,
}
use live_stream_danmaku.Ws.Router.{
  dispatch, action_registry, danmaku_handler, like_handler, add_likes,
}
use live_stream_danmaku.Ws.Router.Laws.{dispatch_danmaku, dispatch_like, dispatch_unknown}
use live_stream_danmaku.Ws.Loop.{write_round, shut_socket}
use live_stream_danmaku.Ws.Loop.Good.{IsGood, with_jobs}
use live_stream_danmaku.Ws.Loop.Handlers.{IsLike, with_queue, with_client, handle_broadcast-IsGood}

receive-IsGood :
    (ch : Choices) (reached : Bool) (ps : List WsPacket) (m : Manager)
    → m.broadcast ≡ ps
    → IsGood m
    → OnSome IsGood (receive_broadcast ch reached m)
unfolding receive_broadcast
receive-IsGood ch reached [] m e g = rw (e, receive_broadcast) tt
receive-IsGood ch reached (p ∷ rest) m e g =
    let fits = rw e at g.queue in
    rw (e, receive_broadcast)
      (handle_broadcast-IsGood ch reached p (record m { broadcast = rest })
        (with_queue m m.local_likes rest m.kafka_input m.published g (omega arith)))

pub receive_broadcast-IsGood :
    (ch : Choices) (reached : Bool) (m : Manager)
    → IsGood m
    → OnSome IsGood (receive_broadcast ch reached m)
receive_broadcast-IsGood ch reached m g = receive-IsGood ch reached m.broadcast m refl g

send_broadcast-IsGood : (p : WsPacket) (m : Manager) → IsGood m → OnSome IsGood (send_broadcast p m)
unfolding send_broadcast
send_broadcast-IsGood p m g = elim (Bool-cases (ltb (length m.broadcast) broadcast_chan_size)) [
  | inl h ↦ rw h (
      with_queue m m.local_likes (m.broadcast ++ p ∷ []) m.kafka_input m.published g
        (ground (arith, length-append m.broadcast (p ∷ []))))
  | inr h ↦ rw h tt
]

danmaku_handler-IsGood :
    (format : TimeFormat) (now k : ℕ) (m : Manager) (payload : Bytes)
    → IsGood m
    → OnSome IsGood (danmaku_handler format now k m payload)
unfolding danmaku_handler
danmaku_handler-IsGood format now k m payload g =
    elim (Option-cases (unmarshal_message format payload)) [
      | inl e ↦ rw (e, danmaku_handler) g
      | inr (d, e) ↦ rw (e, danmaku_handler) (send_broadcast-IsGood _ m g)
    ]

like_handler-IsGood :
    (k : ℕ) (m : Manager) (payload : Bytes) → IsGood m → OnSome IsGood (like_handler k m payload)
unfolding like_handler add_likes
like_handler-IsGood k m payload g = with_queue m _ m.broadcast m.kafka_input m.published g g.queue

pub dispatch-IsGood :
    (format : TimeFormat) (now k : ℕ) (m : Manager) (t : ℤ) (payload : Bytes)
    → IsGood m
    → OnSome IsGood (dispatch (action_registry format now) k m t payload)
dispatch-IsGood format now k m t payload g = elim (Bool-cases (type_danmaku == t)) [
  | inl e ↦
      subst (λ u. OnSome IsGood (dispatch (action_registry format now) k m u payload))
        ((==_iff type_danmaku t).0 e)
        (rw (dispatch_danmaku format now k m payload)
          (danmaku_handler-IsGood format now k m payload g))
  | inr e ↦ elim (Bool-cases (action_like == t)) [
    | inl f ↦
        subst (λ u. OnSome IsGood (dispatch (action_registry format now) k m u payload))
          ((==_iff action_like t).0 f)
          (rw (dispatch_like format now k m payload) (like_handler-IsGood k m payload g))
    | inr f ↦
        rw
          (dispatch_unknown format now k m payload t
            (λ h. ground (arith, h, e, ==_iff type_danmaku t))
            (λ h. ground (arith, h, f, ==_iff action_like t)))
          g
  ]
]

sent-IsLike :
    (c : Client) (payload : Bytes) → length c.send ≤ send_chan_size → IsLike c (safe_send c payload)
unfolding safe_send
sent-IsLike c payload h = ground (arith, length-append c.send (payload ∷ []))

round-IsLike :
    (c : Client) (r : Ready) (bs : List Bytes)
    → c.send ≡ bs
    → length c.send ≤ send_chan_size
    → IsLike c (pump_step (start_pump c) r).client
unfolding pump_step
round-IsLike c stopped bs e h = ground arith
round-IsLike c (message wrote) [] e h =
    rw (e, pump_step) (record { room_id = refl; done = refl; once = refl; send = h })
round-IsLike c (message true) (b ∷ rest) e h =
    let fits = rw e at h in
    rw (e, pump_step) (record { room_id = refl; done = refl; once = refl; send = omega arith })
round-IsLike c (message false) (b ∷ rest) e h =
    let fits = rw e at h in
    rw (e, pump_step) (record { room_id = refl; done = refl; once = refl; send = omega arith })

pub work-IsGood : (i : ℕ) (m : Manager) → IsGood m → OnSome IsGood (work i m)
unfolding work
work-IsGood i m g = elim (Option-cases (serve_next i m.jobs)) [
  | inl e ↦ rw (e, ◌>>=◌) tt
  | inr (((c, payload), q), e) ↦
      let o =
        OnSome_some (λ r. IsOwned r.1) (serve_next i m.jobs) e
          (serve_next-IsOwned i m.jobs g.owned) in
      let w =
        OnSome_some (λ r. IsWithin r.1) (serve_next i m.jobs) e
          (serve_next-IsWithin i m.jobs g.within) in
      rw (e, ◌>>=◌)
        (with_client (record m { jobs = q }) c (safe_send (m.clients c) payload)
          (with_jobs m q g o w) (sent-IsLike (m.clients c) payload (g.buffers c)))
]

pub write_round-IsGood : (k : ℕ) (r : Ready) (m : Manager) → IsGood m → IsGood (write_round k r m)
unfolding write_round
write_round-IsGood k r m g =
    with_client m k _ g (round-IsLike (m.clients k) r (m.clients k).send refl (g.buffers k))

pub shut_socket-IsGood : (k : ℕ) (m : Manager) → IsGood m → IsGood (shut_socket k m)
unfolding shut_socket
shut_socket-IsGood k m g =
    with_client m k _ g (record { room_id = refl; done = refl; once = refl; send = g.buffers k })
