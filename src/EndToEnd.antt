-- ===== src/EndToEnd.antt =====
-- From the server to the consumer, and to the clients: what handleBroadcast (internal/ws/manager.go) hands to Kafka for a
-- danmaku, and what parseMessage (internal/consumer/handler.go) makes of it.
pub mod Saved
pub mod Shown
use live_stream_danmaku.Base.{
  ℕ, ◌≡◌, ◌<◌, refl, sym, Bool, true, false, [], ◌∷◌, ◌++◌, some, arith, subst,
}
use live_stream_danmaku.Text.{Text, to_valid_utf8}
use live_stream_danmaku.Text.Decimal.{u64, int_eq, IsInt64}
use live_stream_danmaku.Json.{Json, Bytes, doc}
use live_stream_danmaku.Model.{
  WsPacket, DanmakuMessage, TimeFormat, marshal_packet, unmarshal_packet, unmarshal_message,
  type_danmaku,
}
use live_stream_danmaku.Model.RoundTrip.{
  marshal_packet_doc, marshal_message_doc, unmarshal_message_doc, message_doc,
}
use live_stream_danmaku.Ws.Client.{Client}
use live_stream_danmaku.Ws.Manager.{Manager}
use live_stream_danmaku.Ws.Manager.Broadcast.{
  Choices, handle_broadcast, process_danmaku, danmaku_save_topic,
}
use live_stream_danmaku.Ws.Router.{danmaku_packet, full_message}
use live_stream_danmaku.Consumer.Session.{parse_message}

handed_over :
    (ch : Choices) (reached : Bool) (p : WsPacket) (payload : Bytes) (m : Manager)
    → marshal_packet p ≡ some payload
    → p.msg_type ≡ type_danmaku
    → (handle_broadcast ch reached p m).kafka_input
      ≡ m.kafka_input ++ (danmaku_save_topic, payload) ∷ []
unfolding handle_broadcast process_danmaku
handed_over ch true p payload m e t = rw (e, handle_broadcast) (simp t refl)
handed_over ch false p payload m e t = rw (e, handle_broadcast) (simp t refl)

pub parsed_message :
    (format : TimeFormat) (payload : Bytes) (p : WsPacket) (d : DanmakuMessage)
    → unmarshal_packet payload ≡ some p
    → p.msg_type ≡ type_danmaku
    → unmarshal_message format p.raw_data ≡ some d
    → parse_message format payload ≡ some (some d)
unfolding parse_message
parsed_message format payload p d e t u = rw (e, parse_message) (simp (t, u) refl)

-- The JSON of the message that the handler makes, and the message read back from it.
written_message :
    (format : TimeFormat) (now : ℕ) (c : Client) (input : DanmakuMessage) (t : Text)
    → format.write now ≡ some t
    → c.user_id < u64
    → (j : Json) × ((danmaku_packet format now c input).raw_data ≡ doc j)
      × (unmarshal_message format (doc j)
          ≡ some (record {
            id = 0;
            room_id = to_valid_utf8 c.room_id;
            user_id = c.user_id;
            content = to_valid_utf8 input.content;
            send_time = now;
          }))
unfolding danmaku_packet full_message
written_message format now c input t w small =
    let m = full_message format now c input in
    (
      message_doc m t,
      rw (marshal_message_doc format m t w) refl,
      unmarshal_message_doc format m t (omega arith) small w,
    )

-- A danmaku that a client of a server sent, with a user id that is a uint64 and at a time that can be
-- written, is handed to Kafka by handleBroadcast as one message more on the save topic, and
-- parseMessage of the consumer reads it back: with the user and the room of the connection, the
-- content and the time, invalid UTF-8 in the texts having become U+FFFD.
pub handle_broadcast-parse_message :
    (format : TimeFormat) (now : ℕ) (c : Client) (input : DanmakuMessage) (t : Text) (ch : Choices)
    (reached : Bool) (m : Manager)
    → format.write now ≡ some t
    → c.user_id < u64
    → (payload : Bytes) × ((handle_broadcast ch reached
          (danmaku_packet format now c input)
          m).kafka_input
        ≡ m.kafka_input ++ (danmaku_save_topic, payload) ∷ [])
      × (parse_message format payload
          ≡ some (
              some (record {
                id = 0;
                room_id = to_valid_utf8 c.room_id;
                user_id = c.user_id;
                content = to_valid_utf8 input.content;
                send_time = now;
              })))
handle_broadcast-parse_message format now c input t ch reached m w small =
    let p = danmaku_packet format now c input in
    let is_danmaku : p.msg_type ≡ type_danmaku = unfold danmaku_packet in refl in
    let (j, raw, message) = written_message format now c input t w small in
    let small : IsInt64 p.msg_type = subst IsInt64 (sym is_danmaku) (omega arith) in
    let (payload, e, back) = marshal_packet_doc p j small raw in
    (
      payload,
      handed_over ch reached p payload m e is_danmaku,
      parsed_message format payload _ _ back is_danmaku message,
    )
