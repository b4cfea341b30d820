-- ===== src/Cmd/Client/Shows.antt =====
-- cmd/client/main.go with the server: what the client shows of the frames that the server makes.
use live_stream_danmaku.Base.{
  ℕ, ◌≡◌, ◌<◌, refl, true, [], ◌∷◌, ◌++◌, some, arith, nat_eq, list_eq, list_beq, Option-cases, inl,
  inr,
}
use live_stream_danmaku.Text.{Text, to_valid_utf8}
use live_stream_danmaku.Text.Decimal.{
  int_eq, u64, NumResult, parsed, syntax, range, parse_uint, result_value,
}
use live_stream_danmaku.Text.Decimal.Laws.{parse_uint_iff}
use live_stream_danmaku.Json.{put_text, get_text, Bytes, doc, same_name}
use live_stream_danmaku.Json.Laws.{get_uint-put_uint}
use live_stream_danmaku.Model.{
  WsPacket, DanmakuMessage, TimeFormat, marshal_packet, marshal_stats, type_danmaku, type_stats,
}
use live_stream_danmaku.Model.RoundTrip.{marshal_packet_doc, marshal_message_doc, message_doc}
use live_stream_danmaku.Infra.Redis.{
  Replies, int64, get_total_online, get_room_likes, key_room_likes,
}
use live_stream_danmaku.Infra.Redis.Laws.{get_total_online_sum}
use live_stream_danmaku.Ws.Client.{Client}
use live_stream_danmaku.Ws.Manager.{Manager}
use live_stream_danmaku.Ws.Manager.Broadcast.{
  Choices, handle_broadcast, process_danmaku, room_pub_sub,
}
use live_stream_danmaku.Ws.Manager.Stats.{stats_packet}
use live_stream_danmaku.Ws.Router.{danmaku_packet, full_message}
use live_stream_danmaku.Cmd.Client.{live_chat, stats, show_frame, show_packet, is_time}

get_total_online-lt-u64 : (replies : Replies) (room : Text) → get_total_online replies room < u64
get_total_online-lt-u64 replies room = rw (get_total_online_sum replies room) (omega arith)

result_value-lt-u64 : (s : Text) → result_value (parse_uint s) < u64
unfolding result_value
result_value-lt-u64 s = go (parse_uint s) refl
  where
    go : (r : NumResult) → parse_uint s ≡ r → result_value r < u64
    go (parsed n) e = let (_, _, _, fits) = (parse_uint_iff s n).0 e in fits
    go syntax e = omega arith
    go range e = omega arith

get_room_likes-lt-u64 : (replies : Replies) (room : Text) → get_room_likes replies room < u64
unfolding get_room_likes
get_room_likes-lt-u64 replies room = elim (Option-cases (replies.get (key_room_likes room))) [
  | inl e ↦ rw (e, get_room_likes) (omega arith)
  | inr (s, e) ↦ rw (e, get_room_likes) (result_value-lt-u64 s)
]

-- A frame of statistics, shown.
shown_stats :
    (format : TimeFormat) (p : WsPacket) (online likes : ℕ)
    → online < u64
    → likes < u64
    → p.msg_type ≡ type_stats
    → p.raw_data ≡ marshal_stats (record { online = online; likes = likes })
    → show_packet format p ≡ stats (int64 online) (int64 likes)
unfolding show_packet marshal_stats same_name list_beq
shown_stats format p online likes a b t d =
    simp (t, d) (rw (get_uint-put_uint 0 online a, get_uint-put_uint 0 likes b) refl)

-- The packet of a tick's statistics for a room can always be written, and the client shows it as what
-- Redis has answered: the online total and the likes of the room, each as an int64.
pub stats_packet-show_frame :
    (format : TimeFormat) (replies : Replies) (room : Text)
    → (payload : Bytes) × (marshal_packet (stats_packet replies room) ≡ some payload)
      × (show_frame format payload
          ≡ stats (int64 (get_total_online replies room)) (int64 (get_room_likes replies room)))
unfolding show_frame stats_packet marshal_stats
stats_packet-show_frame format replies room =
    let (payload, e, back) = marshal_packet_doc (stats_packet replies room) _ (omega arith) refl in
    (
      payload,
      e,
      rw (back, show_frame)
          (shown_stats format (record (stats_packet replies room) { room_id = to_valid_utf8 room })
            (get_total_online replies room) (get_room_likes replies room)
            (get_total_online-lt-u64 replies room) (get_room_likes-lt-u64 replies room) refl refl),
    )

-- A frame of a danmaku, shown.
shown_danmaku :
    (format : TimeFormat) (p : WsPacket) (m : DanmakuMessage) (t : Text)
    → format.write m.send_time ≡ some t
    → p.msg_type ≡ type_danmaku
    → p.raw_data ≡ doc (message_doc m t)
    → show_packet format p ≡ live_chat (to_valid_utf8 m.content)
unfolding show_packet same_name list_beq get_text put_text
shown_danmaku format p m t w e d =
    simp (e, d) (rw (format.read-write m.send_time t w, is_time) refl)

danmaku_raw :
    (format : TimeFormat) (now : ℕ) (c : Client) (input : DanmakuMessage) (t : Text)
    → format.write now ≡ some t
    → (danmaku_packet format now c input).raw_data
      ≡ doc (message_doc (full_message format now c input) t)
unfolding danmaku_packet full_message
danmaku_raw format now c input t w =
    rw (marshal_message_doc format (full_message format now c input) t w) refl

handed_to_redis :
    (ch : Choices) (p : WsPacket) (payload : Bytes) (m : Manager)
    → marshal_packet p ≡ some payload
    → p.msg_type ≡ type_danmaku
    → (handle_broadcast ch true p m).published
      ≡ m.published ++ (room_pub_sub p.room_id, payload) ∷ []
unfolding handle_broadcast process_danmaku
handed_to_redis ch p payload m e t = rw (e, handle_broadcast) (simp t refl)

-- A danmaku that can be written is published for its room, if Redis is reached, as one payload, which
-- the clients show with the sender's content, invalid UTF-8 having become U+FFFD.
pub handle_broadcast-show_frame :
    (format : TimeFormat) (now : ℕ) (c : Client) (input : DanmakuMessage) (t : Text) (ch : Choices)
    (m : Manager)
    → format.write now ≡ some t
    → (payload : Bytes) × ((handle_broadcast ch true
          (danmaku_packet format now c input)
          m).published
        ≡ m.published ++ (room_pub_sub c.room_id, payload) ∷ [])
      × (show_frame format payload ≡ live_chat (to_valid_utf8 input.content))
unfolding show_frame full_message danmaku_packet
handle_broadcast-show_frame format now c input t ch m w =
    let p = danmaku_packet format now c input in
    let full = full_message format now c input in
    let raw = danmaku_raw format now c input t w in
    let (payload, e, back) = marshal_packet_doc p (message_doc full t) (omega arith) raw in
    (
      payload,
      handed_to_redis ch p payload m e refl,
      rw (back, show_frame)
          (shown_danmaku format
            (record p { room_id = to_valid_utf8 c.room_id; raw_data = doc (message_doc full t) })
            full t w refl refl),
    )
