-- ===== src/Tests/Messages.antt =====
-- The frames of the clients, and the formats.
use live_stream_danmaku.Base.{
  ◌≡◌, ◌<◌, ◌≢◌, ◌↔◌, refl, true, [], ◌∷◌, some, if◌then◌else◌, arith, nat_eq, list_eq, ◌==◌,
  list_beq,
}
use live_stream_danmaku.Text.{Text, codes, to_valid_utf8}
use live_stream_danmaku.Text.Decimal.{negsuc, u64, parse_uint, format_uint, parse_int, format_int}
use live_stream_danmaku.Text.Decimal.Laws.{AllDigits, value_from, parse_int-format_int}
use live_stream_danmaku.Json.{
  get_uint, get_text, unmarshal_struct, same_name, empty, malformed, doc, null, put_raw, ◌>>=◌,
}
use live_stream_danmaku.Model.{
  WsPacket, DanmakuMessage, StatsData, Like, unmarshal_message, marshal_message, unmarshal_packet,
  marshal_packet, unmarshal_like, type_danmaku, action_like, type_stats,
}
use live_stream_danmaku.Model.RoundTrip.{
  marshal_packet-unmarshal_packet, marshal_message-unmarshal_message,
}
use live_stream_danmaku.Dict.{lookup}
use live_stream_danmaku.Ws.Client.{new_client}
use live_stream_danmaku.Ws.Manager.{Manager, new_manager}
use live_stream_danmaku.Ws.Router.{dispatch, action_registry}
use live_stream_danmaku.Ws.Router.Laws.{likes_in, dispatch_like_counts, dispatch_danmaku_signed}
use live_stream_danmaku.Api.{connect_web_socket, accepted}
use live_stream_danmaku.Api.Laws.{connect_web_socket_iff}
use live_stream_danmaku.Tests.Samples.{nanos, no_rooms, claims_99}

abbrev hi : DanmakuMessage
hi = record { id = 0; room_id = []; user_id = 99; content = codes "hi"; send_time = 0 }

claims_99_lem : unmarshal_message nanos claims_99 ≡ some hi
unfolding unmarshal_message unmarshal_struct same_name list_beq get_uint get_text parse_uint
claims_99_lem = refl

dispatch_danmaku_signed_example :
    (p : WsPacket) × (dispatch (action_registry nanos 5) 0 no_rooms type_danmaku claims_99
      ≡ some (record no_rooms { broadcast = p ∷ [] }))
    × (p.msg_type ≡ type_danmaku)
    × (p.room_id ≡ codes "a")
    × (unmarshal_message nanos p.raw_data
        ≡ some (record {
          id = 0;
          room_id = codes "a";
          user_id = 7;
          content = codes "hi";
          send_time = 5;
        }))
unfolding new_client new_manager to_valid_utf8
dispatch_danmaku_signed_example =
    dispatch_danmaku_signed nanos 5 0 no_rooms claims_99 hi (format_uint 5) claims_99_lem refl
      (omega arith) (omega arith)

dispatch_like_counts_example :
    (m' : Manager) × (dispatch (action_registry nanos 5) 0 no_rooms action_like malformed ≡ some m')
    × ((r : Text) → likes_in r m' ≡ (if (no_rooms.clients 0).room_id == r then 1 else 0))
unfolding new_manager lookup unmarshal_like unmarshal_struct
dispatch_like_counts_example = dispatch_like_counts nanos 5 0 no_rooms malformed

marshal_message-unmarshal_message_example :
    (marshal_message nanos hi >>= unmarshal_message nanos) ≡ some hi
unfolding to_valid_utf8
marshal_message-unmarshal_message_example =
    marshal_message-unmarshal_message nanos hi (omega arith) (omega arith)

abbrev stats_packet : WsPacket
stats_packet = record { msg_type = type_stats; room_id = codes "a"; raw_data = empty }

marshal_packet-unmarshal_packet_example :
    (marshal_packet stats_packet >>= unmarshal_packet)
    ≡ some (record stats_packet { raw_data = doc null })
unfolding to_valid_utf8 put_raw
marshal_packet-unmarshal_packet_example = marshal_packet-unmarshal_packet stats_packet (omega arith)

abbrev three_likes : Like
three_likes = record { count = 3 }

abbrev some_stats : StatsData
some_stats = record { online = 2; likes = 3 }

connect_web_socket_iff_example :
    (connect_web_socket true (codes "42") (codes "ann") (codes "a")
      ≡ accepted (new_client 42 (codes "ann") (codes "a")))
    ↔ ((codes "a" ≢ [])
        × (codes "42" ≢ [])
        × AllDigits (codes "42")
        × (value_from 0 (codes "42") ≡ 42)
        × (42 < u64))
connect_web_socket_iff_example = connect_web_socket_iff (codes "42") (codes "ann") (codes "a") 42

parse_int-format_int_example : parse_int (format_int (negsuc 6)) ≡ some (negsuc 6)
parse_int-format_int_example = parse_int-format_int (negsuc 6) (omega arith)
