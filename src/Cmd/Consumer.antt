-- ===== src/Cmd/Consumer.antt =====
-- cmd/consumer/main.go: the loop that calls `group.Consume` again and again, with one handler. A call
-- of sarama's Consume is a session, which it runs as documented: Setup, the claims beside the worker,
-- then Cleanup; or it fails before there is a session.
pub mod Sessions
use live_stream_danmaku.Base.{
  ℕ, Bool, true, false, List, [], ◌∷◌, Option, none, some, if◌then◌else◌,
}
use live_stream_danmaku.Model.{TimeFormat}
use live_stream_danmaku.Json.{◌>>=◌}
use live_stream_danmaku.Logger.{Zap, init_logger}
use live_stream_danmaku.Infra.Db.{Gorm, Opened, init_db}
use live_stream_danmaku.Infra.Kafka.{Sarama, init_kafka_consumer_group}
use live_stream_danmaku.Text.{Text, codes}
use live_stream_danmaku.Consumer.Session.{
  Session, new_danmaku_handler, setup, close_msg_chan, wait_for_worker,
}
use live_stream_danmaku.Consumer.Session.Events.{Event, run_events}

abbrev pub kafka_topic : Text
kafka_topic = codes "danmaku_save_topic"

abbrev pub batch_size : ℕ
batch_size = 1000

-- One call of Consume, with what happens in it: the events of a session until its claims have ended,
-- and those between the close of the channel and the return of `h.wg.Wait()`.
pub data Call : Type 0 where
  failed : Call
  session : (events : List Event) → (ending : List Event) → Call

-- How a call ends: it returns, `Cleanup` waits for its worker, or a goroutine panics.
pub data Ending : Type 0 where
  returned : Session → Ending
  waiting : Session → Ending
  panicked : Ending

-- `h.wg.Wait()` in `Cleanup`.
await_worker : Session → Option Session → Ending
await_worker s none = waiting s
await_worker s (some s') = returned s'

after_close : Option Session → Ending
unfolding await_worker
after_close none = panicked
after_close (some s) = await_worker s (wait_for_worker s)

-- `Cleanup`
unfoldable pub cleanup : TimeFormat → List Event → Option Session → Ending
unfolding after_close
cleanup format ending none = panicked
cleanup format ending (some s) = after_close (run_events format ending s)

claims_ended : TimeFormat → List Event → Option Session → Ending
unfolding cleanup
claims_ended format ending none = panicked
claims_ended format ending (some s) = cleanup format ending (close_msg_chan s)

unfoldable pub run_call : TimeFormat → Call → Session → Ending
unfolding claims_ended
run_call format failed s = returned s
run_call format (session events ending) s =
    claims_ended format ending (run_events format events (setup s))

-- A call, and whether `ctx.Err() != nil` after it: then the loop is left.
abbrev pub Round : Type 0
Round = Call × Bool

pub data Outcome : Type 0 where
  exited : Session → Outcome
  running : Session → Outcome
  stuck : Session → Outcome
  crashed : Outcome

-- `running` is the state after the calls that are given.
unfoldable pub consume_loop : TimeFormat → List Round → Session → Outcome
consume_loop format [] s = running s
consume_loop format ((call, stop) ∷ rs) s = elim (run_call format call s) [
  | returned s' ↦ elim stop [ true ↦ exited s' | false ↦ consume_loop format rs s' ]
  | waiting s' ↦ stuck s'
  | panicked ↦ crashed
]

-- `main`, after its set-up.
unfoldable pub consumer_main : TimeFormat → List Round → Outcome
unfolding consume_loop
consumer_main format rounds = consume_loop format rounds (new_danmaku_handler batch_size)

abbrev pub kafka_group_id : Text
kafka_group_id = codes "danmaku_group_v1"

abbrev pub kafka_brokers : List Text
kafka_brokers = codes "127.0.0.1:9092" ∷ []

-- What `main` has made when it enters the loop.
pub record Program (Database Group Logger : Type 0) : Type 0 where
  pub logger : Logger
  pub opened : Opened Database
  pub handler : Session
  pub group : Group

module _
    {Database Row Acks Codec Partitioner Offset Producer Group TimeEncoder LevelEncoder Rest
      Logger : Type 0}
    (zap : Zap TimeEncoder LevelEncoder Rest Logger) (gorm : Gorm Database Row)
    (sarama : Sarama Acks Codec Partitioner Offset Producer Group) where
  -- `main`, up to the loop: `none` when InitLogger or InitDB ends the program, or
  -- InitKafkaConsumerGroup panics.
  unfoldable pub set_up : Option (Program Database Group Logger)
  set_up = do
    logger ← init_logger zap (codes "dev")
    opened ← init_db gorm
    group ← init_kafka_consumer_group sarama kafka_brokers kafka_group_id
    some (record {
      logger = logger;
      opened = opened;
      handler = new_danmaku_handler batch_size;
      group = group;
    })
