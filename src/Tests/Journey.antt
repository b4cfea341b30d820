-- ===== src/Tests/Journey.antt =====
-- A danmaku on its way from a client of the server to the consumer.
use live_stream_danmaku.Base.{
  ℕ, ◌<◌, length, nat_eq, list_eq, ◌≡◌, refl, [], ◌∷◌, some, true, false, arith, list_beq,
}
use live_stream_danmaku.Text.{codes, to_valid_utf8}
use live_stream_danmaku.Text.Decimal.{format_uint}
use live_stream_danmaku.Json.{Bytes}
use live_stream_danmaku.Model.{DanmakuMessage}
use live_stream_danmaku.Ws.Client.{new_client}
use live_stream_danmaku.Ws.Manager.{Manager, new_manager}
use live_stream_danmaku.Ws.Manager.Broadcast.{
  receive_broadcast, handle_broadcast, danmaku_save_topic,
}
use live_stream_danmaku.Ws.Router.{danmaku_packet, read_pump}
use live_stream_danmaku.Repo.{Row, IsRow}
use live_stream_danmaku.Consumer.Session.{Session, new_danmaku_handler, setup, parse_message}
use live_stream_danmaku.Consumer.Session.Events.{delivers, receives, ticks, run_events}
use live_stream_danmaku.Cmd.Client.{type_line}
use live_stream_danmaku.EndToEnd.Shown.{HasWritten, type_line-shown}
use live_stream_danmaku.Ws.Client.{send_chan_size}
use live_stream_danmaku.Ws.Manager.Broadcast.{room_pub_sub, hear_all}
use live_stream_danmaku.Ws.Manager.Broadcast.Delivery.{sent, Fanned}
use live_stream_danmaku.Ws.Manager.Registry.Members.{in_room}
use live_stream_danmaku.Cmd.Client.{live_chat, show_frame}
use live_stream_danmaku.Tests.Rooms.{two_clients-IsOwned, idle_lem, free_lem, a_exists}
use live_stream_danmaku.Tests.Samples.{two_clients, two_clients-IsWf}
use live_stream_danmaku.EndToEnd.Saved.{type_line-saved}
use live_stream_danmaku.Tests.Consumers.{recovers, recovers-IsHonest, second_attempt}
use live_stream_danmaku.EndToEnd.{handle_broadcast-parse_message}
use live_stream_danmaku.Tests.Samples.{nanos, no_rooms, in_turn, sample_client}

abbrev greeting : DanmakuMessage
greeting = record { id = 5; room_id = codes "x"; user_id = 99; content = codes "hi"; send_time = 0 }

handle_broadcast-parse_message_example :
    (payload : Bytes) × ((handle_broadcast in_turn true
        (danmaku_packet nanos 5 (sample_client 0) greeting)
        no_rooms).kafka_input
      ≡ (danmaku_save_topic, payload) ∷ [])
    × (parse_message nanos payload
        ≡ some (
            some (record {
              id = 0;
              room_id = codes "a";
              user_id = 7;
              content = codes "hi";
              send_time = 5;
            })))
unfolding new_client new_manager to_valid_utf8
handle_broadcast-parse_message_example =
    handle_broadcast-parse_message nanos 5 (sample_client 0) greeting (format_uint 5) in_turn true
      no_rooms refl (omega arith)

type_line-saved_example :
    (frame payload : Bytes) × (queued sent : Manager) × (t : Session) × (type_line nanos
        (codes "hey")
      ≡ some frame)
    × (read_pump nanos 5 0 (frame ∷ []) no_rooms ≡ read_pump nanos 5 0 [] queued)
    × (receive_broadcast in_turn true queued ≡ some sent)
    × (sent.kafka_input ≡ (danmaku_save_topic, payload) ∷ [])
    × (run_events nanos
          (delivers false payload ∷ receives recovers ∷ ticks recovers ∷ [])
          (setup (new_danmaku_handler 10))
        ≡ some t)
    × ((row : Row) × (t.table ≡ row ∷ [])
        × IsRow
            (record {
              id = 0;
              room_id = codes "a";
              user_id = 7;
              content = codes "hey";
              send_time = 5;
            })
            row)
unfolding new_client new_manager to_valid_utf8 list_beq
type_line-saved_example =
    type_line-saved nanos 5 0 [] no_rooms in_turn true recovers 10 1 (codes "hey") (format_uint 0)
      (format_uint 5) refl refl refl refl (omega arith) (omega arith) recovers-IsHonest
      second_attempt (omega arith)

type_line-shown_example :
    (frame payload : Bytes) × (queued told : Manager) × (type_line nanos (codes "hey") ≡ some frame)
    × (read_pump nanos 5 0 (frame ∷ []) no_rooms ≡ read_pump nanos 5 0 [] queued)
    × (receive_broadcast in_turn true queued ≡ some told)
    × (told.published ≡ (room_pub_sub (codes "a"), payload) ∷ [])
    × (hear_all
          (λ s. in_turn)
          (λ s. true)
          (room_pub_sub (codes "a"))
          payload
          two_clients.subscriptions
          two_clients
        ≡ sent in_turn two_clients (codes "a") payload)
    × ((b' : Manager) × Fanned in_turn two_clients (codes "a") payload b'
        × ((j : ℕ)
            → in_room (codes "a") j two_clients ≡ true
            → length (two_clients.clients j).send < send_chan_size
            → HasWritten in_turn two_clients (codes "a") payload b' j))
    × (show_frame nanos payload ≡ live_chat (codes "hey"))
unfolding new_client new_manager to_valid_utf8 list_beq
type_line-shown_example =
    type_line-shown nanos 5 0 [] no_rooms two_clients in_turn in_turn (codes "hey") (format_uint 0)
      (format_uint 5) refl refl refl refl two_clients-IsWf two_clients-IsOwned idle_lem free_lem
      a_exists
