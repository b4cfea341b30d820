-- ===== src/Cmd/Server.antt =====
-- cmd/server/main.go: what the server is made of before it listens, and what it answers a request.
-- The router is gin's: it calls the handler that is registered for the method and the path.
pub mod Starts
use live_stream_danmaku.Base.{
  ℕ, ◌≡◌, Bool, true, false, ◌&&◌, List, [], ◌∷◌, ◌++◌, Option, none, some, if◌then◌else◌, nat_eq,
  list_eq, ◌==◌,
}
use live_stream_danmaku.Text.{Text, codes}
use live_stream_danmaku.Model.{TimeFormat}
use live_stream_danmaku.Json.{◌>>=◌}
use live_stream_danmaku.Logger.{Zap, init_logger}
use live_stream_danmaku.Infra.Db.{Gorm, Opened, init_db}
use live_stream_danmaku.Infra.Kafka.{Sarama, init_kafka_producer}
use live_stream_danmaku.Ws.Client.{Client}
use live_stream_danmaku.Ws.Manager.{Manager, new_manager}
use live_stream_danmaku.Ws.Router.{ActionRegistry, action_registry}
use live_stream_danmaku.Api.{Response, connect_web_socket}

abbrev pub brokers : List Text
brokers = codes "127.0.0.1:9092" ∷ []

-- The handlers read the clock, so the registry is one for each time.
pub record Server (Database Producer Logger : Type 0) : Type 0 where
  pub logger : Logger
  pub opened : Opened Database
  pub producer : Producer
  pub registry : ℕ → ActionRegistry
  pub manager : Manager
  pub address : Text

module _
    {Database Row Acks Codec Partitioner Offset Producer Group TimeEncoder LevelEncoder Rest
      Logger : Type 0}
    (zap : Zap TimeEncoder LevelEncoder Rest Logger) (gorm : Gorm Database Row)
    (sarama : Sarama Acks Codec Partitioner Offset Producer Group) where
  -- `main`, up to `r.Run(addr)`: `none` when InitLogger or InitDB ends the program, or InitKafkaProducer,
  -- which NewManager calls, panics. `server_id` is the id that NewManager makes of the host's name and a
  -- random number.
  unfoldable pub server_main :
      TimeFormat → (ℕ → Client) → (server_id port : Text) → Option (Server Database Producer Logger)
  server_main format clients server_id port = do
    logger ← init_logger zap (codes "dev")
    opened ← init_db gorm
    producer ← init_kafka_producer sarama brokers
    some (record {
      logger = logger;
      opened = opened;
      producer = producer;
      registry = action_registry format;
      manager = new_manager server_id clients;
      address = codes ":" ++ port;
    })

-- What a request asks for: the method, the path, and three values of the query.
pub record Request : Type 0 where
  pub method : Text
  pub path : Text
  pub uid : Text
  pub name : Text
  pub room : Text

pub data Answer : Type 0 where
  not_found : Answer
  answered : Response → Answer

-- `r.GET("/ws", chatHandler.ConnectWebSocket)` is the one route.
unfoldable pub serve : Bool → Request → Answer
serve upgraded r =
    if r.method == codes "GET" && r.path == codes "/ws"
    then answered (connect_web_socket upgraded r.uid r.name r.room)
    else not_found
