-- ===== src/Lib.antt =====
-- live-stream-danmaku: live chat ("danmaku") and likes for rooms, over WebSocket, Kafka, Redis and
-- MySQL. A browser opens a connection to a server for one room; what a user sends goes through the
-- server's manager to Kafka, from where a consumer stores it in batches, and to Redis, which hands it
-- to every server that has clients in the room; each server gives it to its clients of the room.
--
-- The program's parts, and the files that model them:
-- - internal/model/*.go: Model.antt has the types, the constants and the JSON forms of the struct
--   tags; Json.antt has what the program uses of encoding/json (documents as trees, texts decoded),
--   Text.antt strings as lists of code points, Text/Decimal.antt strconv.ParseUint and the decimal
--   form of integers. Model/RoundTrip.antt has the round trips.
-- - internal/api/chat_handler.go: `connect_web_socket` of Api.antt is ConnectWebSocket up to the
--   registration.
-- - internal/ws/client.go: Ws/Client.antt; `close`, `safe_send`, and `write_pump` for the rounds of
--   WritePump. `read_pump` (ReadPump) is in Ws/Router.antt, since it calls the handlers.
-- - internal/ws/dispatcher.go and router.go: Ws/Router.antt. `dispatch` is Dispatch, `action_registry`
--   what RegisterActionHandlers builds.
-- - internal/ws/manager.go: Ws/Manager.antt has the state (`Manager`), NewManager, handleRegister and
--   handleUnregister; Ws/Manager/Broadcast.antt has handleBroadcast, processDanmaku, subscribeToRoom
--   and broadcastToLocalClients; Ws/Jobs.antt has what is behind it: the sync.Pool of slices, the job
--   channel and the broadcastWorker goroutines, over Ws/Slices.antt, Go's slices with their shared
--   arrays. Ws/Manager/Registry.antt and its children have the invariant of the rooms, Ws/Jobs/Spec.antt
--   the specification of the broadcast path, Ws/Jobs/Ownership.antt who owns which array,
--   Ws/Jobs/Drain.antt the rounds of the workers.
--   Ws/Manager/Stats.antt has broadcastStats, over Infra/Redis.antt. Ws/Loop.antt puts them together:
--   the turns that the loop of Start, the pumps of the clients, the subscribers, the ticks and the
--   workers take, in any order; Ws/Loop/Isolation.antt follows who is given which message,
--   and Ws/Loop/Likes.antt what becomes of the likes.
-- - internal/infra/redis.go: Infra/Redis.antt has the keys, the commands sent and what is made of the
--   replies; PublishToRoom, and PushToInput of kafka.go, are in Ws/Manager/Broadcast.antt, as far as
--   they hand a message over. Infra/Redis/Heartbeats.antt has several servers that report to one
--   Redis, and the board of their reports as the specification. Infra/Kafka.antt has the rest of
--   kafka.go: what is asked of sarama, and the goroutines that log its errors.
-- - internal/repo/message_repo.go and internal/service/chat_service.go: Repo.antt.
-- - internal/consumer/handler.go: Consumer/Flush.antt has flushBuffer, Consumer/Session.antt has Setup,
--   Cleanup, ConsumeClaim, dbWorker and parseMessage as operations on a `Session`.
--   Consumer/Session/Events.antt puts them in sequence.
-- - internal/infra/db.go: Infra/Db.antt has InitDB.
-- - internal/logger/logger.go: Logger.antt has InitLogger.
-- - cmd/server/main.go: Cmd/Server.antt has the set-up of `main` and the route of the server.
-- - cmd/consumer/main.go: Cmd/Consumer.antt has the set-up and the loop over `group.Consume`.
-- - cmd/client/main.go: Cmd/Client.antt has the request, the frames sent for typed lines, and what is
--   shown of a frame from the server.
-- - cmd/benchmark/kafka/kafka.go: Cmd/Benchmark/Kafka.antt has the payload and the workers.
-- - cmd/benchmark/main.go: Cmd/Benchmark/Bots.antt has the bots (runBot, sendDanmaku) with the shared
--   counters, Cmd/Benchmark/Ramp.antt `main`, and Cmd/Benchmark/Monitor.antt the integers of `monitor`.
-- EndToEnd.antt follows a danmaku from the handler of the server through Kafka to the consumer,
-- EndToEnd/Saved.antt from the client's keyboard to the table, and EndToEnd/Shown.antt through Redis and
-- another server to the screens of the room; Cmd/Client/Shows.antt has what a client shows of a frame.
-- Dict.antt has Go's maps and sets; Base.antt what all modules share; Tests.antt runs at small inputs.
--
-- A goroutine's turn under a mutex, or one case of a `select`, is one step: a claim's send on the channel
-- and its mark are two, and so are the two locks of a tick, and the round of each of its rooms; where several cases are
-- ready, or the runtime is free (the order of `range` over a map, the slice that a pool hands out, the
-- room that `append` leaves), the choice is an argument. Numbers are natural numbers; uint64 sums are
-- taken modulo 2^64. There is no fuel: every loop is over a list or over the three attempts of a flush.
--
-- Not modelled: the client of Redis as it is made (its commands are), the wire protocol of
-- WebSocket, HTTP, the terminal of the client, the lines that are logged, main.go, which prints
-- three lines about the runtime, the floating-point rates of the benchmark, and time, except that a
-- clock reading and a tick are arguments. What those libraries do is an argument: whether a publish
-- reaches Redis, its replies, the outcome of an insert and the rows that MySQL makes of a batch
-- (`IsRow`: the id is MySQL's, the time is kept to the millisecond), the commands of Redis and the
-- expiry of its keys where its state is followed (`Redis`), GORM's operations on tables (`Gorm`, of
-- which the rows that a successful drop and a migration leave are assumed), the constants and constructors of sarama
-- (`Sarama`) and of zap (`Zap`), the layout of a time in JSON (`TimeFormat`, of which only that it
-- reads back what it wrote is assumed).
pub mod Base
pub mod Text
pub mod Json
pub mod Dict
pub mod Model
pub mod Infra
pub mod Logger
pub mod Ws
pub mod Repo
pub mod Api
pub mod Consumer
pub mod EndToEnd
pub mod Cmd
pub mod Tests
