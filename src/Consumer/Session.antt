-- ===== src/Consumer/Session.antt =====
-- internal/consumer/handler.go: a session of the consumer group. `ConsumeClaim` puts messages on
-- `msgChan`, `dbWorker` takes them off; `Setup` starts the worker, and `Cleanup` closes the channel
-- and waits for it. sarama reuses one handler for all its sessions.
pub mod Marks
pub mod Order
pub mod Restart
pub mod Events
use live_stream_danmaku.Base.{
  ℕ, suc, ◌≡◌, ◌<◌, Bool, true, false, not, List, [], ◌∷◌, ◌++◌, Option, none, some, if◌then◌else◌,
  nat_eq, list_eq, ◌==◌, ltb, leb, length, ◌&&◌, take_nth,
}
use live_stream_danmaku.Json.{Bytes, ◌>>=◌}
use live_stream_danmaku.Text.Decimal.{int_eq}
use live_stream_danmaku.Model.{
  WsPacket, TimeFormat, unmarshal_packet, unmarshal_message, type_danmaku,
}
use live_stream_danmaku.Repo.{Message, Row, Attempt}
use live_stream_danmaku.Consumer.Flush.{Flushed, flush_buffer, background}

abbrev pub channel_buffer_size : ℕ
channel_buffer_size = 2000

-- `chan_closed` says that `msgChan` is closed, `working` that the worker of the session has not
-- returned, `ctx_done` that the session's context is cancelled; `marked` are the Kafka messages
-- marked as consumed, `unmarked` those that a claim has sent on the channel and not marked yet, and
-- `batches` the batches that have been flushed, saved or not, oldest first.
pub record Session : Type 0 where
  pub batch_size : ℕ
  pub msg_chan : List Message
  pub chan_closed : Bool
  pub working : Bool
  pub ctx_done : Bool
  pub buffer : List Message
  pub table : List Row
  pub batches : List (List Message)
  pub marked : List Bytes
  pub unmarked : List Bytes

-- `NewDanmakuHandler`
unfoldable pub new_danmaku_handler : ℕ → Session
new_danmaku_handler batch_size = record {
  batch_size = batch_size;
  msg_chan = [];
  chan_closed = false;
  working = false;
  ctx_done = false;
  buffer = [];
  table = [];
  batches = [];
  marked = [];
  unmarked = [];
}

-- `Setup`: a worker starts, with an empty buffer, under the context of the new session.
unfoldable pub setup : Session → Session
setup s = record s { working = true; ctx_done = false; buffer = [] }

-- `close(h.msgChan)` in `Cleanup`: `none` is the panic of a second close.
unfoldable pub close_msg_chan : Session → Option Session
close_msg_chan s = if s.chan_closed then none else some (record s { chan_closed = true })

-- `h.wg.Wait()` returns when no worker is left; `none` while it waits.
unfoldable pub wait_for_worker : Session → Option Session
wait_for_worker s = if s.working then none else some s

-- `parseMessage`: `none` is an error; `some none` is the nil message without an error that the source
-- returns for a packet of another type.
parse_packet : TimeFormat → WsPacket → Option Message
parse_packet format packet =
    if packet.msg_type == type_danmaku
    then (elim (unmarshal_message format packet.raw_data) [ none ↦ none | some d ↦ some (some d) ])
    else some none

unfoldable pub parse_message : TimeFormat → Bytes → Option Message
unfolding parse_packet
parse_message format msg = elim (unmarshal_packet msg) [
  | none ↦ none
  | some packet ↦ parse_packet format packet
]

-- What one round of `ConsumeClaim` does with a message.
pub data Consumed : Type 0 where
  next : Session → Consumed  -- the loop goes on
  blocked : Consumed  -- the channel is full: the claim waits
  returned : Session → Consumed  -- the context is done: the claim returns
  panicked : Consumed  -- a send on the closed channel

-- The inner `select`. A send on a closed channel panics. `leaves` says that, with the context done,
-- that case is taken. The claim marks the message later, in a step of its own.
offer : Bool → Bytes → Message → Session → Consumed
offer leaves msg danmaku s =
    if s.ctx_done && leaves
    then returned s
    else if s.chan_closed
    then panicked
    else if ltb (length s.msg_chan) channel_buffer_size
    then next
        (record s { msg_chan = s.msg_chan ++ danmaku ∷ []; unmarked = s.unmarked ++ msg ∷ [] })
    else blocked

unfoldable pub consume : TimeFormat → Bool → Bytes → Session → Consumed
unfolding offer
consume format leaves msg s = elim (parse_message format msg) [
  | none ↦ next (record s { marked = s.marked ++ msg ∷ [] })
  | some danmaku ↦ offer leaves msg danmaku s
]

-- `session.MarkMessage(msg, "")` of a claim that has sent its message: of those that are not marked, the
-- one at place `i`.
unfoldable pub mark_message : ℕ → Session → Option Session
mark_message i s = do
  (msg, rest) ← take_nth i s.unmarked
  some (record s { marked = s.marked ++ msg ∷ []; unmarked = rest })

-- A flush of the worker's buffer. An empty buffer is no batch.
log_batch : List Message → List (List Message) → List (List Message)
log_batch [] batches = batches
log_batch (m ∷ ms) batches = batches ++ (m ∷ ms) ∷ []

unfoldable pub flush : (ℕ → Attempt) → Session → Session
unfolding log_batch
flush env s = record s {
  table = (flush_buffer env s.buffer s.table).table;
  batches = log_batch s.buffer s.batches;
  buffer = [];
}

-- `case msg, ok := <-h.msgChan` of `dbWorker`: `none` while nothing comes.
take_message : (ℕ → Attempt) → List Message → Session → Option Session
unfolding flush
take_message env [] s =
    if s.chan_closed then some (record (flush env s) { working = false }) else none
take_message env (m ∷ rest) s =
    let s' = record s { msg_chan = rest; buffer = s.buffer ++ m ∷ [] } in
    some (if leb s.batch_size (length s'.buffer) then flush env s' else s')

unfoldable pub worker_receive : (ℕ → Attempt) → Session → Option Session
unfolding take_message
worker_receive env s = if s.working then take_message env s.msg_chan s else none

-- `case <-ticker.C`
unfoldable pub worker_tick : (ℕ → Attempt) → Session → Option Session
unfolding flush
worker_tick env s = if s.working then some (flush env s) else none

-- `case <-ctx.Done()`: a last flush, whose waits are not cancelled, and the worker returns.
unfoldable pub worker_done : (ℕ → Attempt) → Session → Option Session
unfolding flush
worker_done env s =
    if s.working && s.ctx_done
    then some (record (flush (background env) s) { working = false })
    else none
