-- ===== src/Tests/Clients.antt =====
-- The command line client, beside the server.
use live_stream_danmaku.Base.{◌≡◌, some, list_eq, nat_eq}
use live_stream_danmaku.Text.{codes}
use live_stream_danmaku.Json.{Bytes}
use live_stream_danmaku.Model.{marshal_packet}
use live_stream_danmaku.Infra.Redis.{int64, get_total_online, get_room_likes}
use live_stream_danmaku.Ws.Manager.Stats.{stats_packet}
use live_stream_danmaku.Cmd.Client.{show_frame, stats}
use live_stream_danmaku.Cmd.Client.Shows.{stats_packet-show_frame}
use live_stream_danmaku.Tests.Samples.{nanos}
use live_stream_danmaku.Tests.Statistics.{two_servers}

stats_packet-show_frame_example :
    (payload : Bytes) × (marshal_packet (stats_packet two_servers (codes "a")) ≡ some payload)
    × (show_frame nanos payload
        ≡ stats
            (int64 (get_total_online two_servers (codes "a")))
            (int64 (get_room_likes two_servers (codes "a"))))
stats_packet-show_frame_example = stats_packet-show_frame nanos two_servers (codes "a")
