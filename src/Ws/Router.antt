-- ===== src/Ws/Router.antt =====
-- internal/ws/dispatcher.go and router.go, and `ReadPump` of client.go: what a frame from a client
-- does to the manager.
pub mod Laws
use live_stream_danmaku.Base.{
  ℕ, ◌+◌, ◌%◌, ◌≡◌, Bool, true, false, List, [], ◌∷◌, ◌++◌, Option, none, some, if◌then◌else◌,
  nat_eq, list_eq, ◌==◌,
}
use live_stream_danmaku.Text.{Text, codes}
use live_stream_danmaku.Text.Decimal.{ℤ, int_eq, u64}
use live_stream_danmaku.Dict.{lookup, insert}
use live_stream_danmaku.Json.{Bytes, empty}
use live_stream_danmaku.Model.{
  WsPacket, DanmakuMessage, Like, TimeFormat, unmarshal_packet, unmarshal_message, unmarshal_like,
  marshal_message, type_danmaku, action_like,
}
use live_stream_danmaku.Ws.Client.{Client}
use live_stream_danmaku.Ws.Manager.{Manager, handle_unregister, update}
use live_stream_danmaku.Ws.Manager.Broadcast.{send_broadcast}

-- `MessageHandler`: the client, the manager and the data. `none` means that the handler waits,
-- since the `Broadcast` channel is full.
abbrev pub MessageHandler : Type 0
MessageHandler = ℕ → Manager → Bytes → Option Manager

-- `actionRegistry`
abbrev pub ActionRegistry : Type 0
ActionRegistry = List (ℤ × MessageHandler)

unfoldable pub register_action : ℤ → MessageHandler → ActionRegistry → ActionRegistry
register_action msg_type handler registry = insert msg_type handler registry

-- A message type without a handler is logged, and nothing else happens.
unfoldable pub dispatch : ActionRegistry → ℕ → Manager → ℤ → Bytes → Option Manager
dispatch registry client m msg_type payload = elim (lookup msg_type registry) [
  | none ↦ some m
  | some handler ↦ handler client m payload
]

-- `b, _ := json.Marshal(…)`: nil on an error.
abbrev pub or_empty : Option Bytes → Bytes
or_empty none = empty
or_empty (some b) = b

-- `likes` after `json.Unmarshal` and the two defaults of the handler.
unfoldable pub like_count : Option Like → ℕ
like_count none = 1
like_count (some l) = if l.count == 0 then 1 else l.count

-- `m.localLikes[room]`, with the zero value of a missing key.
abbrev pub or_zero : Option ℕ → ℕ
or_zero none = 0
or_zero (some n) = n

-- `m.localLikes[room] += n` on uint64.
unfoldable pub add_likes : Text → ℕ → Manager → Manager
add_likes room n m = record m {
  local_likes = insert room ((or_zero (lookup room m.local_likes) + n) % u64) m.local_likes;
}

unfoldable pub like_handler : MessageHandler
unfolding add_likes
like_handler client m payload =
    some (add_likes (m.clients client).room_id (like_count (unmarshal_like payload)) m)

pub data PumpResult : Type 0 where
  ended : Manager → PumpResult
  waiting : List Bytes → Manager → PumpResult
  panicked : PumpResult

close_socket : ℕ → Option Manager → PumpResult
close_socket client none = panicked
close_socket client (some m) = ended (record m {
  clients = update m.clients client (record (m.clients client) { socket_open = false });
})

-- The handlers read the clock: `now` is what `time.Now` returns.
module _ (format : TimeFormat) (now : ℕ) where
  -- Who sent it, and where, is taken from the connection.
  unfoldable pub full_message : Client → DanmakuMessage → DanmakuMessage
  full_message c input = record {
    id = 0;
    room_id = c.room_id;
    user_id = c.user_id;
    content = input.content;
    send_time = now;
  }

  unfoldable pub danmaku_packet : Client → DanmakuMessage → WsPacket
  unfolding full_message
  danmaku_packet c input = record {
    msg_type = type_danmaku;
    room_id = c.room_id;
    raw_data = or_empty (marshal_message format (full_message c input));
  }

  unfoldable pub danmaku_handler : MessageHandler
  unfolding danmaku_packet
  danmaku_handler client m payload = elim (unmarshal_message format payload) [
    | none ↦ some m
    | some input ↦ send_broadcast (danmaku_packet (m.clients client) input) m
  ]

  -- `RegisterActionHandlers`, on the empty registry.
  unfoldable pub action_registry : ActionRegistry
  unfolding register_action danmaku_handler like_handler
  action_registry =
      register_action action_like like_handler (register_action type_danmaku danmaku_handler [])

  -- `ReadPump` for the frames that arrive until a read fails: a frame that is no packet is skipped;
  -- at the end the client is unregistered and its socket closed. A handler that waits keeps its
  -- frame and those behind it.
  unfoldable pub read_pump : ℕ → List Bytes → Manager → PumpResult
  unfolding close_socket action_registry
  read_pump client [] m = close_socket client (handle_unregister client m)
  read_pump client (frame ∷ frames) m = elim (unmarshal_packet frame) [
    | none ↦ read_pump client frames m
    | some packet ↦ elim (dispatch action_registry client m packet.msg_type packet.raw_data) [
      | none ↦ waiting (frame ∷ frames) m
      | some m' ↦ read_pump client frames m'
    ]
  ]
