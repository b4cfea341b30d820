-- ===== src/EndToEnd/Saved.antt =====
-- From the keyboard of a client (cmd/client/main.go) through the server (internal/ws) and Kafka to the
-- table of the consumer (internal/consumer).
use live_stream_danmaku.Base.{
  ℕ, ap, ◌∙◌, ◌≡◌, ◌<◌, ◌≤◌, refl, Bool, false, List, [], ◌∷◌, ◌++◌, some, arith, leb, list_eq,
  nat_eq, ◌==◌,
}
use live_stream_danmaku.Text.{Text, codes, to_valid_utf8, to_valid_utf8_idem}
use live_stream_danmaku.Text.Decimal.{u64}
use live_stream_danmaku.Json.{Bytes, doc, ◌>>=◌}
use live_stream_danmaku.Model.{DanmakuMessage, TimeFormat, zero_message, type_danmaku}
use live_stream_danmaku.Ws.Manager.{Manager}
use live_stream_danmaku.Ws.Manager.Broadcast.{
  Choices, receive_broadcast, handle_broadcast, danmaku_save_topic,
}
use live_stream_danmaku.Ws.Router.{read_pump, danmaku_packet}
use live_stream_danmaku.Ws.Router.Laws.{dispatch_danmaku_queued}
use live_stream_danmaku.Cmd.Client.{type_line}
use live_stream_danmaku.Cmd.Client.Laws.{read_frame, sent_frame, typed_data}
use live_stream_danmaku.EndToEnd.{handle_broadcast-parse_message}
use live_stream_danmaku.Repo.{Row, IsRow, Attempt}
use live_stream_danmaku.Consumer.Flush.{max_db_retries}
use live_stream_danmaku.Consumer.Flush.Laws.{IsHonest, Succeeds, flush_buffer_saves}
use live_stream_danmaku.Consumer.Session.{
  Session, new_danmaku_handler, setup, consume, parse_message, flush, worker_receive, worker_tick,
}
use live_stream_danmaku.Consumer.Session.Events.{delivers, receives, ticks, run_event, run_events}

module _ (format : TimeFormat) (payload : Bytes) (d : DanmakuMessage) (env : ℕ → Attempt) (n i : ℕ)
    (parses : parse_message format payload ≡ some (some d)) where
  abbrev on_channel : Session
  on_channel = record (setup (new_danmaku_handler n)) {
    msg_chan = some d ∷ [];
    unmarked = payload ∷ [];
  }

  abbrev in_buffer : Session
  in_buffer = record on_channel { msg_chan = []; buffer = some d ∷ [] }

  delivered :
      run_event format (delivers false payload) (setup (new_danmaku_handler n)) ≡ some on_channel
  unfolding run_event consume setup new_danmaku_handler
  delivered = rw (parses, consume) refl

  received : 2 ≤ n → run_event format (receives env) on_channel ≡ some in_buffer
  unfolding run_event worker_receive setup new_danmaku_handler
  received h = let few : leb n 1 ≡ false = ground arith in rw few refl

  ticked : run_event format (ticks env) in_buffer ≡ some (flush env in_buffer)
  unfolding run_event worker_tick setup new_danmaku_handler
  ticked = refl

  ran :
      2 ≤ n
      → run_events format
          (delivers false payload ∷ receives env ∷ ticks env ∷ [])
          (setup (new_danmaku_handler n))
        ≡ some (flush env in_buffer)
  unfolding run_events
  ran h = rw (delivered, ◌>>=◌) (rw (received h, ◌>>=◌) (rw (ticked, ◌>>=◌) refl))

  -- The message of a payload is saved at the next tick.
  pub saved_at_tick :
      2 ≤ n
      → IsHonest env
      → Succeeds env 0 i
      → i < max_db_retries
      → (t : Session) × (run_events format
            (delivers false payload ∷ receives env ∷ ticks env ∷ [])
            (setup (new_danmaku_handler n))
          ≡ some t)
        × ((row : Row) × (t.table ≡ row ∷ []) × IsRow d row)
  unfolding flush setup new_danmaku_handler
  saved_at_tick h honest ok few =
      let (rows, (row, rest, e, same, none_more), saved) =
        flush_buffer_saves env i (some d ∷ []) [] honest ok few in
      (flush env in_buffer, ran h, (row, saved ∙ e ∙ ap (λ x. row ∷ x) none_more, same))

-- A line that is typed at a client, and is not "1", is sent as one frame. The server that reads it, with
-- nothing on its `Broadcast` channel, hands a message to Kafka when it receives from that channel; and a
-- session of the consumer with a batch size of at least 2, started with an empty channel, has
-- one row in its table after it has taken this message and had a tick: with the user and the room of the
-- connection, the line, and the time up to a millisecond, invalid UTF-8 having become U+FFFD. The id
-- of the row is the database's. The times must be written, the user id be a uint64, and the database
-- be honest and take a batch at one of the first three attempts.
pub type_line-saved :
    (format : TimeFormat) (now k : ℕ) (frames : List Bytes) (m : Manager) (ch : Choices)
    (reached : Bool) (env : ℕ → Attempt) (n i : ℕ) (text zero_time now_time : Text)
    → (text == codes "1") ≡ false
    → format.write 0 ≡ some zero_time
    → format.write now ≡ some now_time
    → m.broadcast ≡ []
    → (m.clients k).user_id < u64
    → 2 ≤ n
    → IsHonest env
    → Succeeds env 0 i
    → i < max_db_retries
    → (frame payload : Bytes) × (queued sent : Manager) × (t : Session) × (type_line format text
        ≡ some frame)
      × (read_pump format now k (frame ∷ frames) m ≡ read_pump format now k frames queued)
      × (receive_broadcast ch reached queued ≡ some sent)
      × (sent.kafka_input ≡ m.kafka_input ++ (danmaku_save_topic, payload) ∷ [])
      × (run_events format
            (delivers false payload ∷ receives env ∷ ticks env ∷ [])
            (setup (new_danmaku_handler n))
          ≡ some t)
      × ((row : Row) × (t.table ≡ row ∷ [])
          × IsRow
              (record {
                id = 0;
                room_id = to_valid_utf8 (m.clients k).room_id;
                user_id = (m.clients k).user_id;
                content = to_valid_utf8 text;
                send_time = now;
              })
              row)
unfolding type_line receive_broadcast
type_line-saved format now k frames m ch reached env n i text zero_time now_time other z w idle
      small h honest ok few =
    let client = m.clients k in
    let input : DanmakuMessage = record zero_message { content = to_valid_utf8 text } in
    let p = danmaku_packet format now client input in
    let queued : Manager = record m { broadcast = m.broadcast ++ p ∷ [] } in
    let taken : Manager = record m { broadcast = [] } in
    let (j, raw, message) = typed_data format text zero_time z in
    let (frame, sends, back) = sent_frame type_danmaku j (omega arith) in
    let goes =
      dispatch_danmaku_queued format now k m (doc j) input message (rw idle (omega arith)) in
    let (payload, handed, parses) =
      handle_broadcast-parse_message format now client input now_time ch reached taken w small in
    let (t, runs, saved) = saved_at_tick format payload _ env n i parses h honest ok few in
    (
      frame,
      payload,
      queued,
      handle_broadcast ch reached p taken,
      t,
      rw (other, raw) sends,
      read_frame format now k frame frames m queued _ back goes,
      rw (idle, receive_broadcast) refl,
      handed,
      runs,
      rw (to_valid_utf8_idem text) at saved,
    )
