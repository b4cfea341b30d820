-- ===== src/Cmd/Benchmark/Bots.antt =====
-- cmd/benchmark/main.go: the bots. Each has a goroutine that reads and one that sends, and all share
-- the counters, which they access by atomic operations: a step is one such operation, with the call
-- before it. What the connection gives is chosen by the event.
pub mod Counts
pub mod Hosts
pub mod Frames
use live_stream_danmaku.Base.{
  ℕ, zero, repeat, suc, ◌+◌, ◌-◌, ◌/◌, ◌%◌, Bool, true, false, not, ◌&&◌, List, [], ◌∷◌, ◌++◌,
  Option, none, some, if◌then◌else◌, nat_eq, ◌==◌,
}
use live_stream_danmaku.Text.{Text, codes}
use live_stream_danmaku.Text.Decimal.{int_eq, format_uint}
use live_stream_danmaku.Json.{Bytes, ◌>>=◌}
use live_stream_danmaku.Model.{
  WsPacket, DanmakuMessage, TimeFormat, zero_message, unmarshal_packet, marshal_packet,
  marshal_message, marshal_like, type_danmaku, action_like,
}
use live_stream_danmaku.Ws.Router.{or_empty}
use live_stream_danmaku.Cmd.Server.{Request}

abbrev pub room_capacity : ℕ
room_capacity = 100000

-- `targetHosts[id%len(targetHosts)]`, by its index.
unfoldable pub target_host : ℕ → ℕ
target_host id = id % 2

unfoldable pub room_of : ℕ → Text
room_of id = codes "room_" ++ format_uint (id / room_capacity)

-- What the dial of a bot asks the server for.
unfoldable pub bot_request : ℕ → Request
unfolding room_of
bot_request id = record {
  method = codes "GET";
  path = codes "/ws";
  uid = format_uint id;
  name = codes "bot-" ++ format_uint id;
  room = room_of id;
}

-- The frame of `sendDanmaku`, if it can be written.
unfoldable pub bench_frame : TimeFormat → ℕ → Text → Option Bytes
bench_frame format seq_id room =
    let content = record zero_message { content = codes "bench-msg-" ++ format_uint seq_id } in
    marshal_packet (record {
      msg_type = type_danmaku;
      room_id = room;
      raw_data = or_empty (marshal_message format content);
    })

-- The frame of `sendLike`, if it can be written; `n` is what `rand.Intn(20)` gives.
unfoldable pub bench_like_frame : (n : ℕ) → Text → Option Bytes
bench_like_frame n room = marshal_packet (record {
  msg_type = action_like;
  room_id = room;
  raw_data = marshal_like (record { count = n + 1 });
})

pub record Counters : Type 0 where
  pub connected_count : ℕ
  pub msg_sent_count : ℕ
  pub msg_recv_count : ℕ
  pub error_count : ℕ
  pub expected_recv_count : ℕ
  pub global_msg_seq : ℕ

-- Where the sending goroutine is in `sendDanmaku`: outside; past the next number; past a write that
-- has not failed; past the count of it; and past the load of `connectedCount`.
pub data Sending : Type 0 where
  quiet : Sending
  numbered : Sending
  written : Sending
  counted : Sending
  loaded : ℕ → Sending

-- A bot that has not dialled, one in `runBot` after a dial, and one that has returned. `read_done` is
-- the closed channel `done`, which the reading goroutine leaves behind.
pub data Bot : Type 0 where
  unborn : Bot
  online : (talker : Bool) → (read_done : Bool) → (at : Sending) → Bot
  gone : Bot

pub data Event : Type 0 where
  dial_fails : Event
  dials : (talker : Bool) → Event
  reads : Bytes → Event
  read_fails : Event
  numbers : Event
  writes : Event
  write_fails : Event
  counts : Event
  loads : Event
  adds : Event
  leaves : Event

-- `ReadMessage` has given a frame.
unfoldable pub count_frame : Bytes → Counters → Counters
count_frame message c = elim (unmarshal_packet message) [
  | none ↦ c
  | some packet ↦
      if packet.msg_type == type_danmaku
      then record c { msg_recv_count = c.msg_recv_count + 1 }
      else c
]

-- `sendLike`, after the frame is made; `runBot` does not call it.
unfoldable pub send_like : (wrote : Bool) → Counters → Counters
send_like true c = record c { msg_sent_count = c.msg_sent_count + 1 }
send_like false c = record c { error_count = c.error_count + 1 }

-- One step of a bot; `none` where it cannot do this. The decrement of `connectedCount` is never
-- below 0, as it counts the bots online.
unfoldable pub act : Event → Bot → Counters → Option (Bot × Counters)
unfolding count_frame
act dial_fails unborn c = some (gone, record c { error_count = c.error_count + 1 })
act (dials talker) unborn c =
    some (online talker false quiet, record c { connected_count = c.connected_count + 1 })
act (reads message) (online talker false at) c =
    some (online talker false at, count_frame message c)
act read_fails (online talker false at) c =
    some (online talker true at, record c { error_count = c.error_count + 1 })
act numbers (online true done quiet) c =
    some (online true done numbered, record c { global_msg_seq = c.global_msg_seq + 1 })
act writes (online talker done numbered) c = some (online talker done written, c)
act write_fails (online talker done numbered) c =
    some (online talker done quiet, record c { error_count = c.error_count + 1 })
act counts (online talker done written) c =
    some (online talker done counted, record c { msg_sent_count = c.msg_sent_count + 1 })
act loads (online talker done counted) c = some (online talker done (loaded c.connected_count), c)
act adds (online talker done (loaded n)) c =
    some (online talker done quiet, record c { expected_recv_count = c.expected_recv_count + n })
act leaves (online talker true quiet) c =
    some (gone, record c { connected_count = c.connected_count - 1 })
act _ bot c = none

pub record Load : Type 0 where
  pub bots : List Bot
  pub counters : Counters

abbrev pub no_counts : Counters
no_counts = record {
  connected_count = 0;
  msg_sent_count = 0;
  msg_recv_count = 0;
  error_count = 0;
  expected_recv_count = 0;
  global_msg_seq = 0;
}

abbrev pub start : ℕ → Load
start clients = record { bots = repeat clients unborn; counters = no_counts }

abbrev pub bot_at : ℕ → List Bot → Option Bot
bot_at i [] = none
bot_at zero (b ∷ bs) = some b
bot_at (suc i) (b ∷ bs) = bot_at i bs

abbrev pub put : ℕ → Bot → List Bot → List Bot
put i b' [] = []
put zero b' (b ∷ bs) = b' ∷ bs
put (suc i) b' (b ∷ bs) = b ∷ put i b' bs

-- A step of bot `i`.
unfoldable pub step : ℕ → Event → Load → Option Load
step i event l = do
  bot ← bot_at i l.bots
  r ← act event bot l.counters
  some (record { bots = put i r.0 l.bots; counters = r.1 })

unfoldable pub run : List (ℕ × Event) → Load → Option Load
run [] l = some l
run ((i, event) ∷ rest) l = do l' ← step i event l; run rest l'
