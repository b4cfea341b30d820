-- ===== src/Infra/Kafka.antt =====
-- internal/infra/kafka.go: the configurations of the producer and of the consumer group, and the
-- goroutines that log their errors. sarama is not part of the program: its constants, its default
-- configuration and its constructors are a parameter. `PushToInput` is in Ws/Manager/Broadcast.antt.
use live_stream_danmaku.Base.{
  ℕ, zero, suc, ◌*◌, ◌≡◌, refl, ◌∙◌, Bool, true, false, List, [], ◌∷◌, ◌++◌, Option, none, some,
  length, append_assoc, append-nil,
}
use live_stream_danmaku.Text.{Text}
use live_stream_danmaku.Json.{◌>>=◌}

abbrev pub producer_chan_buf_size : ℕ
producer_chan_buf_size = 16384

-- A `time.Duration` in milliseconds.
abbrev pub Millis : Type 0
Millis = ℕ

-- Of `sarama.Config` the fields that are set; the others keep their defaults.
pub record Config (Acks Codec Partitioner Offset : Type 0) : Type 0 where
  pub channel_buffer_size : ℕ
  pub required_acks : Acks
  pub compression : Codec
  pub flush_messages : ℕ
  pub flush_max_messages : ℕ
  pub flush_frequency : Millis
  pub flush_bytes : ℕ
  pub return_successes : Bool
  pub producer_return_errors : Bool
  pub partitioner : Partitioner
  pub offsets_initial : Offset
  pub fetch_default : ℕ
  pub consumer_return_errors : Bool

-- The constructors give `none` for an error.
pub record Sarama (Acks Codec Partitioner Offset Producer Group : Type 0) : Type 0 where
  pub wait_for_local : Acks
  pub compression_snappy : Codec
  pub new_random_partitioner : Partitioner
  pub offset_oldest : Offset
  pub new_config : Config Acks Codec Partitioner Offset
  pub new_async_producer :
      (brokers : List Text) → Config Acks Codec Partitioner Offset → Option Producer
  pub new_consumer_group :
      (brokers : List Text) (group_id : Text) → Config Acks Codec Partitioner Offset → Option Group

module _ {Acks Codec Partitioner Offset Producer Group : Type 0}
    (sarama : Sarama Acks Codec Partitioner Offset Producer Group) where
  unfoldable pub producer_config : Config Acks Codec Partitioner Offset
  producer_config = record sarama.new_config {
    channel_buffer_size = producer_chan_buf_size;
    required_acks = sarama.wait_for_local;
    compression = sarama.compression_snappy;
    flush_messages = 50;
    flush_max_messages = 200;
    flush_frequency = 50;
    flush_bytes = 8 * 1024;
    return_successes = false;
    producer_return_errors = true;
    partitioner = sarama.new_random_partitioner;
  }

  -- `InitKafkaProducer`: `none` where it panics.
  unfoldable pub init_kafka_producer : List Text → Option Producer
  unfolding producer_config
  init_kafka_producer brokers = sarama.new_async_producer brokers producer_config

  unfoldable pub group_config : Config Acks Codec Partitioner Offset
  group_config = record sarama.new_config {
    offsets_initial = sarama.offset_oldest;
    fetch_default = 5 * 1024 * 1024;
    consumer_return_errors = true;
  }

  -- `InitKafkaConsumerGroup`: `none` where it panics.
  unfoldable pub init_kafka_consumer_group : List Text → Text → Option Group
  unfolding group_config
  init_kafka_consumer_group brokers group_id =
      sarama.new_consumer_group brokers group_id group_config

-- The errors that wait in a channel of sarama, oldest first, and those that have been logged.
pub record Errors (E : Type 0) : Type 0 where
  pub waiting : List E
  pub logged : List E

-- One round of `for err := range producer.Errors()`, or of `group.Errors()`.
unfoldable pub log_error : {E : Type 0} → Errors E → Option (Errors E)
log_error s = elim s.waiting [
  | [] ↦ none
  | e ∷ rest ↦ some (record { waiting = rest; logged = s.logged ++ e ∷ [] })
]

unfoldable pub log_errors : {E : Type 0} → ℕ → Errors E → Option (Errors E)
log_errors zero s = some s
log_errors (suc n) s = log_error s >>= λ s'. log_errors n s'

-- As many rounds as errors wait empty the channel, and log each error once, in order.
log_errors_all :
    {E : Type 0} (waiting logged : List E)
    → log_errors (length waiting) (record { waiting = waiting; logged = logged })
      ≡ some (record { waiting = []; logged = logged ++ waiting })
unfolding log_errors log_error
log_errors_all [] logged = rw (append-nil logged) refl
log_errors_all (e ∷ rest) logged =
    log_errors_all rest (logged ++ e ∷ []) ∙ rw (append_assoc logged (e ∷ []) rest) refl
