-- ===== src/Tests/Statistics.antt =====
-- A tick of the statistics.
use live_stream_danmaku.Base.{◌%◌, ◌≡◌, ◌≤◌, refl, [], ◌∷◌, none, some, arith, list_beq}
use live_stream_danmaku.Text.{codes}
use live_stream_danmaku.Text.Decimal.{pos, u64, parse_uint}
use live_stream_danmaku.Dict.{lookup, has, insert}
use live_stream_danmaku.Dict.Entries.{entries}
use live_stream_danmaku.Dict.Sets.{add}
use live_stream_danmaku.Infra.Redis.{Replies, get_total_online, key_room_likes, int64}
use live_stream_danmaku.Infra.Redis.Laws.{counters, online_sum, get_total_online_sum}
use live_stream_danmaku.Ws.Client.{new_client}
use live_stream_danmaku.Ws.Manager.{Manager, new_manager, handle_register}
use live_stream_danmaku.Ws.Manager.Stats.{broadcast_stats}
use live_stream_danmaku.Ws.Manager.Stats.Likes.{increments, broadcast_stats_likes}
use live_stream_danmaku.Tests.Samples.{two_clients, in_turn}

-- Two servers are registered for each room; one has 2 clients there, the other has expired.
abbrev pub two_servers : Replies
two_servers = record {
  s_members = λ key. some (codes "s1" ∷ codes "s2" ∷ []);
  m_get = λ keys. some (some (codes "2") ∷ none ∷ []);
  get = λ key. some (codes "5");
}

get_total_online_sum_example :
    get_total_online two_servers (codes "a") ≡ online_sum (counters two_servers (codes "a")) % u64
get_total_online_sum_example = get_total_online_sum two_servers (codes "a")

total_lem : get_total_online two_servers (codes "a") ≡ 2
unfolding get_total_online parse_uint
total_lem = refl

-- There are likes for room "a", and for room "c", where nobody is any more.
abbrev liked_rooms : Manager
liked_rooms = record two_clients { local_likes = (codes "c", 4) ∷ (codes "a", 3) ∷ [] }

a_once : entries (codes "a") liked_rooms.rooms ≤ 1
unfolding handle_register has lookup insert add new_client new_manager list_beq
a_once = omega arith

broadcast_stats_likes_example :
    ((broadcast_stats in_turn two_servers liked_rooms).manager.local_likes ≡ [])
    × (increments
          (key_room_likes (codes "a"))
          (broadcast_stats in_turn two_servers liked_rooms).commands
        ≡ pos 3 ∷ [])
unfolding handle_register has lookup insert add new_client new_manager list_beq int64
broadcast_stats_likes_example =
    broadcast_stats_likes in_turn two_servers liked_rooms (codes "a") a_once
