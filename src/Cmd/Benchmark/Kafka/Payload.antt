-- ===== src/Cmd/Benchmark/Kafka/Payload.antt =====
-- cmd/benchmark/kafka/kafka.go: what the consumer makes of the payload.
use live_stream_danmaku.Base.{◌≡◌, refl, ℕ, some, arith}
use live_stream_danmaku.Text.{Text, codes, to_valid_utf8}
use live_stream_danmaku.Json.{Bytes, doc, ◌>>=◌}
use live_stream_danmaku.Model.{WsPacket, TimeFormat, type_danmaku}
use live_stream_danmaku.Model.RoundTrip.{
  marshal_packet_doc, marshal_message_doc, unmarshal_message_doc, message_doc,
}
use live_stream_danmaku.Consumer.Session.{parse_message}
use live_stream_danmaku.EndToEnd.{parsed_message}
use live_stream_danmaku.Cmd.Benchmark.Kafka.{danmaku, bench_payload}

-- At a time that can be written the payload can be made, and the consumer parses it as the message
-- of the benchmark.
pub bench_payload-parse_message :
    (format : TimeFormat) (now : ℕ) (t : Text)
    → format.write now ≡ some t
    → (payload : Bytes) × (bench_payload format now ≡ some payload)
      × (parse_message format payload ≡ some (some (danmaku now)))
unfolding bench_payload to_valid_utf8
bench_payload-parse_message format now t w =
    let j = message_doc (danmaku now) t in
    let p : WsPacket = record {
      msg_type = type_danmaku;
      room_id = codes "room_benchmark_1";
      raw_data = doc j;
    } in
    let (payload, e, back) = marshal_packet_doc p j (omega arith) refl in
    (
      payload,
      rw (marshal_message_doc format (danmaku now) t w, ◌>>=◌) e,
      parsed_message format payload _ _ back refl
          (unmarshal_message_doc format (danmaku now) t (omega arith) (omega arith) w),
    )
