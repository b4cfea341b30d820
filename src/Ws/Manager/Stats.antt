-- ===== src/Ws/Manager/Stats.antt =====
-- internal/ws/manager.go: `broadcastStats`, which runs at every tick. It takes the likes that have been
-- counted since the last tick, reports to Redis, and broadcasts what Redis knows to each room.
pub mod Likes
use live_stream_danmaku.Base.{
  ℕ, ◌+◌, ◌*◌, Bool, true, false, List, [], ◌∷◌, ◌++◌, Option, none, some, if◌then◌else◌, ltb,
  length, map, nat_eq, list_eq,
}
use live_stream_danmaku.Text.{Text}
use live_stream_danmaku.Dict.{lookup}
use live_stream_danmaku.Json.{Bytes}
use live_stream_danmaku.Model.{WsPacket, StatsData, type_stats, marshal_packet, marshal_stats}
use live_stream_danmaku.Infra.Redis.{
  Command, Replies, update_server_online, incr_room_likes, get_total_online, get_room_likes,
  remove_expired,
}
use live_stream_danmaku.Ws.Manager.{Manager}
use live_stream_danmaku.Ws.Manager.Broadcast.{Choices, broadcast_to_local_clients}

-- In seconds.
abbrev pub broadcast_interval : ℕ
broadcast_interval = 3

abbrev pub report_ttl : ℕ
report_ttl = broadcast_interval * 2 + 1

-- The commands sent to Redis, oldest first. The increments and the removals run in
-- goroutines of their own.
pub record Ticked : Type 0 where
  pub manager : Manager
  pub commands : List Command

-- `if likesDelta, ok := currentBatchLikes[roomID]; ok && likesDelta > 0`
report_likes : Text → Option ℕ → List Command
report_likes room none = []
report_likes room (some delta) = if ltb 0 delta then incr_room_likes room delta else []

unfoldable pub stats_packet : Replies → Text → WsPacket
stats_packet replies room = record {
  msg_type = type_stats;
  room_id = room;
  raw_data =
      marshal_stats
        (record { online = get_total_online replies room; likes = get_room_likes replies room });
}

-- The broadcast of the statistics, unless they cannot be marshalled.
send_stats : Choices → Text → Option Bytes → Manager → Manager
send_stats ch room none m = m
send_stats ch room (some payload) m = broadcast_to_local_clients ch room payload m

-- The commands of one round of the loop over `localStats`, for a room with `n` clients.
unfoldable pub room_commands : Replies → Text → List (Text × ℕ) → Text × ℕ → List Command
unfolding report_likes
room_commands replies server likes (room, n) =
    update_server_online room server n report_ttl
    ++ (report_likes room (lookup room likes) ++ remove_expired replies room)

-- One round of the loop over `localStats`.
unfoldable pub tick_room : Choices → Replies → List (Text × ℕ) → Text × ℕ → Ticked → Ticked
unfolding room_commands send_stats stats_packet
tick_room ch replies likes (room, n) t = record {
  manager = send_stats ch room (marshal_packet (stats_packet replies room)) t.manager;
  commands = t.commands ++ room_commands replies t.manager.server_id likes (room, n);
}

unfoldable pub tick_rooms : Choices → Replies → List (Text × ℕ) → List (Text × ℕ) → Ticked → Ticked
unfolding tick_room
tick_rooms ch replies likes [] t = t
tick_rooms ch replies likes (room ∷ rooms) t =
    tick_rooms ch replies likes rooms (tick_room ch replies likes room t)

-- `localStats`: the number of clients of each room. The list stands for the map in any order.
abbrev pub local_stats : List (Text × List ℕ) → List (Text × ℕ)
local_stats = map (λ p. (p.0, length p.1))

-- `broadcastStats`
unfoldable pub broadcast_stats : Choices → Replies → Manager → Ticked
unfolding tick_rooms
broadcast_stats ch replies m =
    tick_rooms ch replies m.local_likes (local_stats m.rooms)
      (record { manager = record m { local_likes = [] }; commands = [] })
