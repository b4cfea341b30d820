-- ===== src/Ws/Manager/Broadcast.antt =====
-- internal/ws/manager.go: `handleBroadcast`, `processDanmaku`, `broadcastToLocalClients`,
-- `subscribeToRoom` and the sends of `broadcastWorker`; internal/infra: `PushToInput` and
-- `PublishToRoom`, as far as they hand a message over.
pub mod Laws
pub mod Delivery
pub mod Listening
pub mod Subscribers
use live_stream_danmaku.Base.{
  ℕ, ◌≡◌, Bool, true, false, List, [], ◌∷◌, ◌++◌, Option, none, some, if◌then◌else◌, nat_eq,
  list_eq, ◌==◌, ltb, length, ◌+◌, not, ◌&&◌,
}
use live_stream_danmaku.Text.{Text, codes}
use live_stream_danmaku.Text.Decimal.{int_eq}
use live_stream_danmaku.Dict.{lookup}
use live_stream_danmaku.Dict.Sets.{count}
use live_stream_danmaku.Json.{Bytes, ◌>>=◌}
use live_stream_danmaku.Model.{WsPacket, marshal_packet, type_danmaku, type_stats, action_like}
use live_stream_danmaku.Ws.Client.{Client, safe_send}
use live_stream_danmaku.Ws.Jobs.{Jobs, dispatch, serve_next}
use live_stream_danmaku.Ws.Manager.{Manager, Subscription, update}

abbrev pub danmaku_save_topic : Text
danmaku_save_topic = codes "danmaku_save_topic"

abbrev pub broadcast_chan_size : ℕ
broadcast_chan_size = 1024

-- `KeyRoomPubSub`, "room:%s:pubsub"
unfoldable pub room_pub_sub : Text → Text
room_pub_sub room = codes "room:" ++ (room ++ codes ":pubsub")

-- What the Go runtime and its environment choose in one broadcast: the order in which `range` visits
-- the clients, the slice that the pool hands out, and the room that `append` leaves.
pub record Choices : Type 0 where
  pub order : List ℕ → List ℕ
  pub same_clients : (cs : List ℕ) (k : ℕ) → count k (order cs) ≡ count k cs
  pub pick : ℕ
  pub extra : ℕ → ℕ

-- `broadcastToLocalClients`
unfoldable pub broadcast_to_local_clients : Choices → Text → Bytes → Manager → Manager
broadcast_to_local_clients ch room payload m = elim (lookup room m.rooms) [
  | none ↦ m
  | some clients ↦ record m { jobs = dispatch ch.extra ch.pick (ch.order clients) payload m.jobs }
]

-- `PushToInput` waits until the producer takes the message; it never drops it.
push_to_input : Text → Bytes → Manager → Manager
push_to_input topic payload m = record m { kafka_input = m.kafka_input ++ (topic, payload) ∷ [] }

-- `PublishToRoom`: a failed call of Redis is logged, and the message is not seen again.
publish_to_room : Bool → Text → Bytes → Manager → Manager
publish_to_room reached room payload m =
    if reached then record m { published = m.published ++ (room_pub_sub room, payload) ∷ [] } else m

-- `processDanmaku`
unfoldable pub process_danmaku : Bool → Text → Bytes → Manager → Manager
unfolding push_to_input publish_to_room
process_danmaku reached room payload m =
    publish_to_room reached room payload (push_to_input danmaku_save_topic payload m)

-- The `switch` of `handleBroadcast`.
route : Choices → Bool → WsPacket → Bytes → Manager → Manager
unfolding process_danmaku broadcast_to_local_clients
route ch reached packet payload m =
    if packet.msg_type == type_danmaku
    then process_danmaku reached packet.room_id payload m
    else if packet.msg_type == action_like
    then m
    else if packet.msg_type == type_stats
    then broadcast_to_local_clients ch packet.room_id payload m
    else m

-- `handleBroadcast`; `reached` says whether Redis takes the message.
unfoldable pub handle_broadcast : Choices → Bool → WsPacket → Manager → Manager
unfolding route
handle_broadcast ch reached packet m = elim (marshal_packet packet) [
  | none ↦ m
  | some payload ↦ route ch reached packet payload m
]

-- `case packet := <-m.Broadcast`
take_packet : Choices → Bool → List WsPacket → Manager → Option Manager
take_packet ch reached [] m = none
take_packet ch reached (packet ∷ rest) m =
    some (handle_broadcast ch reached packet (record m { broadcast = rest }))

unfoldable pub receive_broadcast : Choices → Bool → Manager → Option Manager
unfolding take_packet
receive_broadcast ch reached m = take_packet ch reached m.broadcast m

-- `m.Broadcast <- packet`: `none` while the buffer is full, when the sender waits.
unfoldable pub send_broadcast : WsPacket → Manager → Option Manager
send_broadcast packet m =
    if ltb (length m.broadcast) broadcast_chan_size
    then some (record m { broadcast = m.broadcast ++ packet ∷ [] })
    else none

-- `subscribeToRoom`: one round with a message from Redis. A subscriber whose context is done may
-- return instead (`leaves`), as `select` takes either case.
unfoldable pub on_message : Choices → Bool → Subscription → Bytes → Manager → Manager
on_message ch leaves s payload m =
    if s.cancelled
    then (if leaves then m else broadcast_to_local_clients ch s.room payload m)
    else broadcast_to_local_clients ch s.room payload m

-- A message that Redis has for the subscribers of a channel, at one of this server's subscribers.
unfoldable pub hear : Choices → Bool → Text → Bytes → Subscription → Manager → Manager
unfolding on_message
hear ch leaves channel payload s m =
    if room_pub_sub s.room == channel then on_message ch leaves s payload m else m

-- The same at all of them. `ch` is what the runtime chooses in the round of each, and `leaves` says which
-- of the cancelled ones return, or have returned, without the message.
unfoldable pub hear_all :
    (Subscription → Choices)
    → (Subscription → Bool)
    → Text
    → Bytes
    → List Subscription
    → Manager
    → Manager
hear_all ch leaves channel payload [] m = m
hear_all ch leaves channel payload (s ∷ subs) m =
    hear_all ch leaves channel payload subs (hear (ch s) (leaves s) channel payload s m)

-- One send of worker `k`: the client whose turn it is gets the payload by `safeSend`.
deliver : (ℕ × Bytes) × Jobs → Manager → Manager
deliver ((c, payload), jobs) m = record m {
  jobs = jobs;
  clients = update m.clients c (safe_send (m.clients c) payload);
}

unfoldable pub work : ℕ → Manager → Option Manager
unfolding deliver
work k m = serve_next k m.jobs >>= λ o. some (deliver o m)
