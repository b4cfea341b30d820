-- ===== src/Cmd/Server/Starts.antt =====
-- A server that has started, and a client of cmd/client/main.go that dials it.
use live_stream_danmaku.Base.{
  ℕ, ◌≢◌, ◌≡◌, ◌<◌, ◌≢◌, refl, ap, sym, subst, true, [], ◌++◌, some, nat_eq, list_eq, list_beq,
  some_inj,
}
use live_stream_danmaku.Text.{Text, codes}
use live_stream_danmaku.Text.Decimal.{ℤ, pos, u64, format_int, format_uint}
use live_stream_danmaku.Text.Decimal.Laws.{parse_uint-format_uint, parse_uint_iff}
use live_stream_danmaku.Model.{TimeFormat}
use live_stream_danmaku.Json.{bind-some}
use live_stream_danmaku.Logger.{Zap, init_logger}
use live_stream_danmaku.Infra.Db.{Gorm, Table, init_db, dsn}
use live_stream_danmaku.Infra.Kafka.{Sarama, init_kafka_producer}
use live_stream_danmaku.Ws.Router.{action_registry}
use live_stream_danmaku.Infra.Db.Fresh.{init_db-gone}
use live_stream_danmaku.Ws.Client.{Client, new_client}
use live_stream_danmaku.Ws.Manager.{new_manager}
use live_stream_danmaku.Ws.Manager.Registry.{IsWf}
use live_stream_danmaku.Ws.Manager.Registry.Members.{new_manager-IsWf}
use live_stream_danmaku.Api.{accepted, connect_web_socket}
use live_stream_danmaku.Api.Laws.{connect_web_socket_iff}
use live_stream_danmaku.Cmd.Client.{query, host, path}
use live_stream_danmaku.Cmd.Server.{Server, brokers, server_main, Request, answered, serve}

-- The request that the client's dial makes.
abbrev pub dial : ℤ → (uid room : Text) → Request
dial now uid room =
    let q = query now uid room in
    record { method = codes "GET"; path = path; uid = q.uid; name = q.name; room = q.room }

accepted_time :
    (now : ℕ) (room : Text)
    → now < u64
    → room ≢ []
    → connect_web_socket true (format_uint now) (format_uint now) room
      ≡ accepted (new_client now (format_uint now) room)
accepted_time now room small some_room =
    let (some_digit, digits, value, fits) =
      (parse_uint_iff (format_uint now) now).0 (parse_uint-format_uint now small) in
    (connect_web_socket_iff (format_uint now) (format_uint now) room now).1
      (some_room, some_digit, digits, value, fits)

module _
    {Database Row Acks Codec Partitioner Offset Producer Group TimeEncoder LevelEncoder Rest
      Logger : Type 0}
    (zap : Zap TimeEncoder LevelEncoder Rest Logger) (gorm : Gorm Database Row)
    (sarama : Sarama Acks Codec Partitioner Offset Producer Group) (format : TimeFormat)
    (clients : ℕ → Client) (server_id port : Text) where
  -- What a server is made of.
  pub record Started (s : Server Database Producer Logger) : Type 0 where
    pub logger : init_logger zap (codes "dev") ≡ some s.logger
    pub opened : init_db gorm ≡ some s.opened
    pub producer : init_kafka_producer sarama brokers ≡ some s.producer
    pub registry : s.registry ≡ action_registry format
    pub manager : s.manager ≡ new_manager server_id clients
    pub address : s.address ≡ codes ":" ++ port

  server_main-Started :
      (s : Server Database Producer Logger)
      → server_main zap gorm sarama format clients server_id port ≡ some s
      → Started s
  unfolding server_main
  server_main-Started s e =
      let (l, logger, after_logger) = bind-some (init_logger zap (codes "dev")) e in
      let (o, opened, after_db) = bind-some (init_db gorm) after_logger in
      let (q, producer, after_kafka) = bind-some (init_kafka_producer sarama brokers) after_db in
      let made = some_inj after_kafka in
      subst Started made (record {
        logger = logger;
        opened = opened;
        producer = producer;
        registry = refl;
        manager = refl;
        address = refl;
      })

  -- A client that is started with a room and without a user id dials the address of a server with the
  -- same port, and is accepted, if the upgrade succeeds, as the user whose id and name are the time in
  -- nanoseconds, which is a uint64.
  pub dial-serve :
      (room : Text) (now : ℕ) (s : Server Database Producer Logger)
      → server_main zap gorm sarama format clients server_id port ≡ some s
      → now < u64
      → room ≢ []
      → (host port ≡ codes "127.0.0.1" ++ s.address)
        × (serve true (dial (pos now) [] room)
            ≡ answered (accepted (new_client now (format_uint now) room)))
  unfolding serve host query format_int list_beq
  dial-serve room now s e small some_room = (
    rw ((server_main-Started s e).address) refl,
    ap answered (accepted_time now room small some_room),
  )

  -- Whatever the database held, a server that has started with no drop logged as failed has a table
  -- with no rows for each model, the stored danmaku among them, and a manager that is well-formed.
  pub server_main-rows :
      (db : Database) (s : Server Database Producer Logger) (t : Table)
      → ((k : ℕ) → (clients k).done ≡ (clients k).once)
      → gorm.connect dsn ≡ some db
      → server_main zap gorm sarama format clients server_id port ≡ some s
      → s.opened.kept ≡ []
      → (gorm.rows s.opened.db t ≡ []) × IsWf s.manager
  server_main-rows db s t closes c e k =
      let v = server_main-Started s e in
      (
        init_db-gone gorm db s.opened t c v.opened k,
        subst IsWf (sym v.manager) (new_manager-IsWf server_id clients closes),
      )
