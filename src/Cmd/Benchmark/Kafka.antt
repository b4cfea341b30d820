-- ===== src/Cmd/Benchmark/Kafka.antt =====
-- cmd/benchmark/kafka/kafka.go: workers that put the same message on the producer's input again and
-- again, in any order among them. What the clock and the producer do with it is not modelled.
pub mod Totals
pub mod Payload
use live_stream_danmaku.Base.{
  ℕ, zero, repeat, suc, ◌+◌, ◌/◌, Bool, List, [], ◌∷◌, ◌++◌, Option, none, some,
}
use live_stream_danmaku.Text.{Text, codes}
use live_stream_danmaku.Json.{Bytes, ◌>>=◌}
use live_stream_danmaku.Model.{
  WsPacket, DanmakuMessage, TimeFormat, marshal_packet, marshal_message, type_danmaku,
}

abbrev pub kafka_topic : Text
kafka_topic = codes "danmaku_save_topic"

abbrev pub total_messages : ℕ
total_messages = 5000000

abbrev pub goroutines : ℕ
goroutines = 300

abbrev pub msgs_per_worker : ℕ
msgs_per_worker = total_messages / goroutines

-- The message, and the payload made of it once; `none` is a failed marshal, which ends the program.
abbrev pub danmaku : ℕ → DanmakuMessage
danmaku now = record {
  id = 0;
  room_id = codes "room_benchmark_1";
  user_id = 12345;
  content = codes "This is a stress test message for Kafka optimization";
  send_time = now;
}

unfoldable pub bench_payload : TimeFormat → ℕ → Option Bytes
bench_payload format now = do
  content ← marshal_message format (danmaku now)
  marshal_packet
      (record { msg_type = type_danmaku; room_id = codes "room_benchmark_1"; raw_data = content })

-- The rounds that each worker has left, `producer.Input()`, and `sentCount`, which stays far below
-- the bound of an int64.
pub record Load : Type 0 where
  pub left : List ℕ
  pub input : List (Text × Bytes)
  pub sent_count : ℕ

abbrev pub start : Load
start = record { left = repeat goroutines msgs_per_worker; input = []; sent_count = 0 }

-- The loop of a worker: a round less; `none` when the worker has returned, or is not one.
unfoldable pub count_round : ℕ → List ℕ → Option (List ℕ)
count_round i [] = none
count_round zero (zero ∷ left) = none
count_round zero (suc n ∷ left) = some (n ∷ left)
count_round (suc i) (n ∷ left) = do rest ← count_round i left; some (n ∷ rest)

-- `sendDanmaku`
unfoldable pub send_danmaku : Text → Bytes → List (Text × Bytes) → List (Text × Bytes)
send_danmaku topic payload input = input ++ (topic, payload) ∷ []

-- One round of worker `i`.
unfoldable pub work : Bytes → ℕ → Load → Option Load
unfolding send_danmaku
work payload i l = do
  left ← count_round i l.left
  some (record {
    left = left;
    input = send_danmaku kafka_topic payload l.input;
    sent_count = l.sent_count + 1;
  })

-- The rounds in the order in which the workers come to them.
unfoldable pub work_all : Bytes → List ℕ → Load → Option Load
work_all payload [] l = some l
work_all payload (i ∷ is) l = do l' ← work payload i l; work_all payload is l'

-- `wg.Wait()` returns when no worker has a round left.
unfoldable pub rounds_left : List ℕ → ℕ
rounds_left [] = 0
rounds_left (n ∷ left) = n + rounds_left left
