-- ===== src/Tests/Programs.antt =====
-- The database that is opened, and a server that starts with it.
use live_stream_danmaku.Base.{
  list_beq, ◌≡◌, refl, Bool, true, false, List, [], ◌∷◌, ◌++◌, some, arith, if◌then◌else◌,
}
use live_stream_danmaku.Text.{Text, codes}
use live_stream_danmaku.Text.Decimal.{pos, format_uint}
use live_stream_danmaku.Ws.Client.{new_client}
use live_stream_danmaku.Ws.Manager.Registry.{IsWf}
use live_stream_danmaku.Ws.Manager.{new_manager}
use live_stream_danmaku.Ws.Router.{action_registry}
use live_stream_danmaku.Api.{accepted}
use live_stream_danmaku.Infra.Db.{
  Table, danmaku_messages, rooms, users, same_table, Gorm, Opened, init_db, drop_one, migrate_one,
  drop_all,
}
use live_stream_danmaku.Infra.Kafka.{Sarama, init_kafka_producer}
use live_stream_danmaku.Logger
use live_stream_danmaku.Logger.{Zap, init_logger, log_config}
use live_stream_danmaku.Cmd.Server.{Server, brokers, server_main, serve, answered}
use live_stream_danmaku.Cmd.Server.Starts.{dial, dial-serve, server_main-rows}
use live_stream_danmaku.Cmd.Client.{host}
use live_stream_danmaku.Tests.Samples.{nanos, sample_client, sample_client-closed}

-- A database as the rows of its tables.
abbrev Rows : Type 0
Rows = Table → List Text

abbrev emptied : Table → Rows → Rows
emptied t db u = if same_table t u then [] else db u

-- Drops fail for the tables of `locked`.
abbrev drop_of : (Table → Bool) → Table → Rows → Rows × Bool
drop_of locked t db = if locked t then (db, false) else (emptied t db, true)

abbrev before : Rows
before danmaku_messages = codes "hi" ∷ codes "hey" ∷ []
before rooms = codes "a" ∷ []
before users = []

drop_of-rows :
    (locked : Table → Bool) (t : Table) (db : Rows)
    → (drop_of locked t db).1 ≡ true
    → (drop_of locked t db).0 t ≡ []
drop_of-rows locked danmaku_messages db e = ground arith
drop_of-rows locked rooms db e = ground arith
drop_of-rows locked users db e = ground arith

drop_of-other :
    (locked : Table → Bool) (t u : Table) (db : Rows)
    → same_table t u ≡ false
    → (drop_of locked t db).0 u ≡ db u
drop_of-other locked t u db e = ground arith

abbrev database : (Table → Bool) → Gorm Rows Text
database locked = record {
  connect = λ s. some before;
  rows = λ db t. db t;
  drop_table = drop_of locked;
  auto_migrate = λ t db. (db, true);
  rows-drop_table = drop_of-rows locked;
  rows-other_table = drop_of-other locked;
  rows-auto_migrate = λ t u db. refl;
}

abbrev none_locked : Table → Bool
none_locked _ = false

abbrev emptied_all : Opened Rows
emptied_all = record {
  db = emptied users (emptied rooms (emptied danmaku_messages before));
  kept = [];
}

-- A configuration that only tells which one it is, and a logger that is made of it.
abbrev plain : Text → Logger.Config Text Text Text
plain preset = record {
  encode_time = codes "EpochTimeEncoder";
  encode_level = codes "LowercaseLevelEncoder";
  time_key = codes "ts";
  caller_key = codes "caller";
  rest = preset;
}

abbrev zap : Zap Text Text Text Text
zap = record {
  new_production_config = plain (codes "production");
  new_development_config = plain (codes "development");
  iso8601_time_encoder = codes "ISO8601TimeEncoder";
  capital_color_level_encoder = codes "CapitalColorLevelEncoder";
  build = λ config. some config.rest;
}

-- Brokers that are always reached: a producer and a group are the brokers that they know.
abbrev sarama : Sarama Text Text Text Text (List Text) (List Text)
sarama = record {
  wait_for_local = codes "WaitForLocal";
  compression_snappy = codes "CompressionSnappy";
  new_random_partitioner = codes "NewRandomPartitioner";
  offset_oldest = codes "OffsetOldest";
  new_config = record {
    channel_buffer_size = 256;
    required_acks = codes "WaitForLocal";
    compression = codes "CompressionNone";
    flush_messages = 0;
    flush_max_messages = 0;
    flush_frequency = 0;
    flush_bytes = 0;
    return_successes = false;
    producer_return_errors = true;
    partitioner = codes "NewHashPartitioner";
    offsets_initial = codes "OffsetNewest";
    fetch_default = 1048576;
    consumer_return_errors = false;
  };
  new_async_producer = λ known config. some known;
  new_consumer_group = λ known group_id config. some known;
}

abbrev server : Server Rows (List Text) Text
server = record {
  logger = codes "development";
  opened = emptied_all;
  producer = brokers;
  registry = action_registry nanos;
  manager = new_manager (codes "host-1") sample_client;
  address = codes ":8080";
}

server_lem :
    server_main zap
      (database none_locked)
      sarama
      nanos
      sample_client
      (codes "host-1")
      (codes "8080")
    ≡ some server
unfolding server_main init_logger log_config init_db drop_all drop_one migrate_one
    init_kafka_producer list_beq
server_lem = refl

server_main-rows_example : (emptied_all.db danmaku_messages ≡ []) × IsWf server.manager
server_main-rows_example =
    server_main-rows zap (database none_locked) sarama nanos sample_client (codes "host-1")
      (codes "8080") before server danmaku_messages sample_client-closed refl server_lem refl

dial-serve_example :
    (host (codes "8080") ≡ codes "127.0.0.1" ++ server.address)
    × (serve true (dial (pos 1700000000) [] (codes "1001"))
        ≡ answered (accepted (new_client 1700000000 (format_uint 1700000000) (codes "1001"))))
dial-serve_example =
    dial-serve zap (database none_locked) sarama nanos sample_client (codes "host-1") (codes "8080")
      (codes "1001") 1700000000 server server_lem (omega arith) (λ e. cc)
