-- ===== src/Cmd/Client.antt =====
-- cmd/client/main.go: the command line client. What it asks of the server is the query of its URL, as
-- the server reads it back; a line of the keyboard becomes a frame, and a frame from the server a line
-- of the log.
pub mod Laws
pub mod Shows
use live_stream_danmaku.Base.{
  ℕ, ◌≡◌, Bool, true, false, List, [], ◌∷◌, ◌++◌, Option, none, some, if◌then◌else◌, nat_eq,
  list_eq, ◌==◌,
}
use live_stream_danmaku.Text.{Text, codes}
use live_stream_danmaku.Text.Decimal.{ℤ, pos, int_eq, format_int}
use live_stream_danmaku.Json.{
  Json, null, obj, Fields, end, field, Bytes, doc, same_name, get_uint, get_text,
}
use live_stream_danmaku.Model.{
  WsPacket, DanmakuMessage, TimeFormat, zero_message, unmarshal_packet, marshal_packet,
  marshal_message, type_danmaku, type_stats, action_like,
}
use live_stream_danmaku.Infra.Redis.{int64}
use live_stream_danmaku.Ws.Router.{or_empty}

-- The flags `uid` and `room`, and the values of the query `uid`, `name` and `room`.
pub record Query : Type 0 where
  pub uid : Text
  pub name : Text
  pub room : Text

-- `now` is `time.Now().UnixNano()`, which stands for an empty uid.
unfoldable pub query : ℤ → Text → Text → Query
query now uid room =
    let id = if uid == [] then format_int now else uid in
    record { uid = id; name = id; room = room }

-- The `Host` of the URL, from the flag `port`, and its `Path`.
unfoldable pub host : Text → Text
host port = codes "127.0.0.1:" ++ port

abbrev pub path : Text
path = codes "/ws"

-- `sendPacket`, with the data already marshalled: the frame that `WriteJSON` writes, if it can.
unfoldable pub send_packet : ℤ → Bytes → Option Bytes
send_packet msg_type content =
    marshal_packet (record { msg_type = msg_type; room_id = []; raw_data = content })

-- One line of the keyboard: "1" is a like, whose data is nil, any other is a danmaku.
unfoldable pub type_line : TimeFormat → Text → Option Bytes
unfolding send_packet
type_line format text =
    if text == codes "1"
    then send_packet action_like (doc null)
    else send_packet type_danmaku
        (or_empty (marshal_message format (record zero_message { content = text })))

-- The result of a field that does not fit is dropped, and the loop of json.Unmarshal goes on.
abbrev or_keep {ℓ} : {A : Type ℓ} → A → Option A → A
or_keep a none = a
or_keep a (some b) = b

-- A time that cannot be read ends json.Unmarshal.
is_time : TimeFormat → Json → Bool
is_time format null = true
is_time format (Json.str s) = elim (format.read s) [ none ↦ false | some t ↦ true ]
is_time format _ = false

-- `json.Unmarshal(packet.Data, &danmaku)` with its error ignored, as far as the content goes.
content_of : TimeFormat → Text → Fields → Text
unfolding is_time
content_of format old end = old
content_of format old (field k v rest) =
    let rest' =
      content_of format
        (if same_name k (codes "content") then or_keep old (get_text old v) else old) rest in
    if same_name k (codes "send_time") then (if is_time format v then rest' else old) else rest'

-- The same for a field of the statistics.
number_of : Text → ℕ → Fields → ℕ
number_of name old end = old
number_of name old (field k v rest) =
    number_of name (if same_name k name then or_keep old (get_uint old v) else old) rest

abbrev members : Bytes → Fields
members (doc (obj fs)) = fs
members _ = end

-- What the client logs of a frame.
pub data Shown : Type 0 where
  live_chat : (content : Text) → Shown
  stats : (online likes : ℤ) → Shown
  nothing : Shown

show_packet : TimeFormat → WsPacket → Shown
unfolding content_of number_of
show_packet format packet =
    if packet.msg_type == type_danmaku
    then live_chat (content_of format [] (members packet.raw_data))
    else if packet.msg_type == type_stats
    then stats (int64 (number_of (codes "online") 0 (members packet.raw_data)))
        (int64 (number_of (codes "likes") 0 (members packet.raw_data)))
    else nothing

unfoldable pub show_frame : TimeFormat → Bytes → Shown
unfolding show_packet
show_frame format message = elim (unmarshal_packet message) [
  | none ↦ nothing
  | some packet ↦ show_packet format packet
]
