-- ===== src/Cmd/Client/Laws.antt =====
-- cmd/client/main.go with the server: what a typed line does there.

use live_stream_danmaku.Base.{
  ℕ, ◌≡◌, ◌<◌, refl, false, List, [], ◌∷◌, ◌++◌, some, arith, length, nat_eq, list_eq, ◌==◌,
  list_beq,
}
use live_stream_danmaku.Text.{Text, codes, to_valid_utf8, to_valid_utf8_idem}
use live_stream_danmaku.Text.Decimal.{ℤ, u64, IsInt64}
use live_stream_danmaku.Dict.{lookup, insert}
use live_stream_danmaku.Json.{Json, Bytes, doc, null, unmarshal_struct}
use live_stream_danmaku.Model.{
  WsPacket, DanmakuMessage, TimeFormat, zero_message, unmarshal_packet, marshal_message,
  unmarshal_message, unmarshal_like, type_danmaku, action_like,
}
use live_stream_danmaku.Model.RoundTrip.{
  marshal_packet_doc, marshal_message_doc, message_doc, unmarshal_message_doc,
}
use live_stream_danmaku.Ws.Manager.{Manager}
use live_stream_danmaku.Ws.Manager.Broadcast.{broadcast_chan_size}
use live_stream_danmaku.Ws.Router.{
  dispatch, action_registry, register_action, read_pump, add_likes, like_handler, like_count,
  or_empty,
}
use live_stream_danmaku.Ws.Router.Laws.{dispatch_danmaku_signed}
use live_stream_danmaku.Cmd.Client.{send_packet, type_line}

-- A frame whose handler does not wait is one round of ReadPump.
pub read_frame :
    (format : TimeFormat) (now : ℕ) (k : ℕ) (frame : Bytes) (frames : List Bytes) (m m' : Manager)
    (p : WsPacket)
    → unmarshal_packet frame ≡ some p
    → dispatch (action_registry format now) k m p.msg_type p.raw_data ≡ some m'
    → read_pump format now k (frame ∷ frames) m ≡ read_pump format now k frames m'
unfolding read_pump
read_frame format now k frame frames m m' p e d = rw (e, read_pump) (rw (d, read_pump) refl)

-- The frame of `sendPacket` for data that is a document.
pub sent_frame :
    (z : ℤ) (j : Json)
    → IsInt64 z
    → (frame : Bytes) × (send_packet z (doc j) ≡ some frame)
      × (unmarshal_packet frame ≡ some (record { msg_type = z; room_id = []; raw_data = doc j }))
unfolding send_packet to_valid_utf8
sent_frame z j small =
    marshal_packet_doc (record { msg_type = z; room_id = []; raw_data = doc j }) j small refl

dispatch_null_like :
    (format : TimeFormat) (now k : ℕ) (m : Manager)
    → dispatch (action_registry format now) k m action_like (doc null)
      ≡ some (add_likes (m.clients k).room_id 1 m)
unfolding dispatch action_registry register_action lookup insert like_handler unmarshal_like
    unmarshal_struct like_count
dispatch_null_like format now k m = refl

-- Typing "1" sends one frame, and ReadPump of the server counts one like for the room of the
-- connection for it.
pub type_line_like :
    (format : TimeFormat) (now k : ℕ) (frames : List Bytes) (m : Manager)
    → (frame : Bytes) × (type_line format (codes "1") ≡ some frame)
      × (read_pump format now k (frame ∷ frames) m
          ≡ read_pump format now k frames (add_likes (m.clients k).room_id 1 m))
unfolding type_line list_beq
type_line_like format now k frames m =
    let (frame, sent, back) = sent_frame action_like null (omega arith) in
    (
      frame,
      sent,
      read_frame format now k frame frames m (add_likes (m.clients k).room_id 1 m) _ back
          (dispatch_null_like format now k m),
    )

-- What the server reads in the data of a typed danmaku.
pub typed_data :
    (format : TimeFormat) (text t : Text)
    → format.write 0 ≡ some t
    → (j : Json) × (or_empty (marshal_message format (record zero_message { content = text }))
        ≡ doc j)
      × (unmarshal_message format (doc j)
          ≡ some (record zero_message { content = to_valid_utf8 text }))
unfolding to_valid_utf8
typed_data format text t w =
    let typed : DanmakuMessage = record zero_message { content = text } in
    let e = marshal_message_doc format typed t w in
    (
      message_doc typed t,
      rw e refl,
      unmarshal_message_doc format typed t (omega arith) (omega arith) w,
    )

-- Typing any other line sends one frame. If the server can write the time, its `Broadcast` channel has
-- space and the user id of the connection is a uint64, ReadPump puts one packet on the channel for it:
-- for the room of the connection, with a danmaku of its user and room, at the present time, whose
-- content is the line, invalid UTF-8 having become U+FFFD. The client must be able to write the zero
-- time.
pub type_line_danmaku :
    (format : TimeFormat) (now k : ℕ) (frames : List Bytes) (m : Manager)
    (text zero_time now_time : Text)
    → (text == codes "1") ≡ false
    → format.write 0 ≡ some zero_time
    → format.write now ≡ some now_time
    → length m.broadcast < broadcast_chan_size
    → (m.clients k).user_id < u64
    → (frame : Bytes) × (p : WsPacket) × (type_line format text ≡ some frame)
      × (read_pump format now k (frame ∷ frames) m
          ≡ read_pump format now k frames (record m { broadcast = m.broadcast ++ p ∷ [] }))
      × (p.room_id ≡ (m.clients k).room_id)
      × (unmarshal_message format p.raw_data
          ≡ some (record {
            id = 0;
            room_id = to_valid_utf8 (m.clients k).room_id;
            user_id = (m.clients k).user_id;
            content = to_valid_utf8 text;
            send_time = now;
          }))
unfolding type_line
type_line_danmaku format now k frames m text zero_time now_time other z w free small =
    let (j, raw, message) = typed_data format text zero_time z in
    let (frame, sent, back) = sent_frame type_danmaku j (omega arith) in
    let (p, goes, _, room, signed) =
      dispatch_danmaku_signed format now k m (doc j)
        (record zero_message { content = to_valid_utf8 text }) now_time message w free small in
    (
      frame,
      p,
      rw (other, raw) sent,
      read_frame format now k frame frames m (record m { broadcast = m.broadcast ++ p ∷ [] }) _ back
          goes,
      room,
      rw (to_valid_utf8_idem text) at signed,
    )
