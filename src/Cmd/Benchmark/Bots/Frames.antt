-- ===== src/Cmd/Benchmark/Bots/Frames.antt =====
-- cmd/benchmark/main.go with the server: which of the server's frames a bot counts.
use live_stream_danmaku.Base.{
  ap, ◌∙◌, ℕ, ◌<◌, ◌%◌, nat_eq, list_eq, ◌+◌, ◌≡◌, refl, some, arith, if◌then◌else◌, ◌==◌,
}
use live_stream_danmaku.Text.{Text}
use live_stream_danmaku.Text.Decimal.{u64, IsInt64, int_eq}
use live_stream_danmaku.Json.{Json, Bytes, doc}
use live_stream_danmaku.Model.{
  WsPacket, DanmakuMessage, TimeFormat, marshal_packet, marshal_stats, type_danmaku, action_like,
  marshal_like, unmarshal_packet, unmarshal_like,
}
use live_stream_danmaku.Model.RoundTrip.{
  marshal_packet_doc, marshal_message_doc, message_doc, marshal_like-unmarshal_like,
}
use live_stream_danmaku.Infra.Redis.{Replies}
use live_stream_danmaku.Ws.Client.{Client}
use live_stream_danmaku.Ws.Manager.Stats.{stats_packet}
use live_stream_danmaku.Ws.Manager.{Manager}
use live_stream_danmaku.Ws.Router.{danmaku_packet, full_message, dispatch, action_registry}
use live_stream_danmaku.Ws.Router.Laws.{likes_in, liked, dispatch_like_counts}
use live_stream_danmaku.Cmd.Benchmark.Bots.{Counters, count_frame, bench_like_frame}

-- A packet that can be written, as the bot counts it.
count_packet :
    (p : WsPacket) (j : Json) (c : Counters)
    → IsInt64 p.msg_type
    → p.raw_data ≡ doc j
    → (payload : Bytes) × (marshal_packet p ≡ some payload)
      × (count_frame payload c ≡ (
          if p.msg_type == type_danmaku
          then record c { msg_recv_count = c.msg_recv_count + 1 }
          else c))
unfolding count_frame
count_packet p j c small d =
    let (payload, e, back) = marshal_packet_doc p j small d in
    (payload, e, rw (back, count_frame) refl)

-- At a time that can be written the frame of a danmaku is one message received; the frame of a
-- room's statistics is none.
pub count_frame_frames :
    (format : TimeFormat) (now : ℕ) (client : Client) (input : DanmakuMessage) (t : Text)
    (replies : Replies) (room : Text) (c : Counters)
    → format.write now ≡ some t
    → ((payload : Bytes) × (marshal_packet (danmaku_packet format now client input) ≡ some payload)
        × (count_frame payload c ≡ record c { msg_recv_count = c.msg_recv_count + 1 }))
      × ((payload : Bytes) × (marshal_packet (stats_packet replies room) ≡ some payload)
          × (count_frame payload c ≡ c))
unfolding danmaku_packet stats_packet marshal_stats
count_frame_frames format now client input t replies room c w = (
  count_packet (danmaku_packet format now client input)
      (message_doc (full_message format now client input) t) c (omega arith)
      (rw (marshal_message_doc format (full_message format now client input) t w) refl),
  count_packet (stats_packet replies room) _ c (omega arith) refl,
)

-- The server reads the frame of a like, with a number that `rand.Intn(20)` can give, as a packet,
-- whose dispatch counts one like more than this number for the room of the connection, and for
-- no other room, modulo 2^64.
pub bench_like_frame-counts :
    (format : TimeFormat) (now client n : ℕ) (room : Text) (m : Manager)
    → n < 20
    → (payload : Bytes) × (bench_like_frame n room ≡ some payload)
      × ((p : WsPacket) × (unmarshal_packet payload ≡ some p)
          × ((m' : Manager) × (dispatch (action_registry format now) client m p.msg_type p.raw_data
                ≡ some m')
              × ((r : Text)
                  → likes_in r m' ≡ (
                      if (m.clients client).room_id == r
                      then (likes_in r m + (n + 1)) % u64
                      else likes_in r m))))
unfolding bench_like_frame marshal_like
bench_like_frame-counts format now client n room m h =
    let likes = marshal_like (record { count = n + 1 }) in
    let (payload, e, back) =
      marshal_packet_doc (record { msg_type = action_like; room_id = room; raw_data = likes }) _
        (omega arith) refl in
    let read = marshal_like-unmarshal_like (record { count = n + 1 }) (omega arith) in
    let one : liked (unmarshal_like likes) ≡ n + 1 = ap liked read ∙ ground arith in
    let (m', d, counts) = dispatch_like_counts format now client m likes in
    let sum = λ (r : Text) (k : ℕ).
      if (m.clients client).room_id == r then (likes_in r m + k) % u64 else likes_in r m in
    (payload, e, (_, back, (m', d, λ r. counts r ∙ ap (sum r) one)))
