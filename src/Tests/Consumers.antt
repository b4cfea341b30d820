-- ===== src/Tests/Consumers.antt =====
-- The consumer: one session and its end.
use mathlib.Core.List.{Perm}
use mathlib.Core.List.Perm
use live_stream_danmaku.Base.{
  ℕ, zero, suc, ◌≡◌, ◌<◌, ◌≤◌, refl, true, false, [], ◌∷◌, ◌++◌, none, some, if◌then◌else◌, arith,
  take_nth, List, ◌*◌, ◌/◌, ◌^◌, ◌+◌, list_eq, list_beq,
}
use live_stream_danmaku.Text.{codes}
use live_stream_danmaku.Text.Decimal.{int_eq, parse_uint, parse_int}
use live_stream_danmaku.Json.{
  Bytes, get_text, get_int, unmarshal_struct, same_name, doc, obj, field, str, num, end,
}
use live_stream_danmaku.Model.{DanmakuMessage, unmarshal_packet, unmarshal_message}
use live_stream_danmaku.Repo.{Message, Row, IsRow, AreRows, Attempt}
use live_stream_danmaku.Consumer.Flush.{flush_buffer, max_db_retries}
use live_stream_danmaku.Consumer.Flush.Laws.{
  IsHonest, Succeeds, flush_buffer_once, flush_buffer_saves,
}
use live_stream_danmaku.Consumer.Session.{
  Session, new_danmaku_handler, setup, parse_message, consume, mark_message, panicked, next,
  close_msg_chan,
}
use live_stream_danmaku.Consumer.Session.Order.Drain.{receive_all, IsDrained, receive_all-drains}
use live_stream_danmaku.Consumer.Session.Order.{accepted, flatten, parse_all, IsComplete}
use live_stream_danmaku.Consumer.Session.Order.Complete.{
  Reach, here, later, consumes, marks, Reach-IsComplete,
}
use live_stream_danmaku.Consumer.Session.Order.Batches.{IsBounded, Reach-IsBounded}
use live_stream_danmaku.Consumer.Session.Restart.{setup-close_msg_chan}
use live_stream_danmaku.Tests.Samples.{nanos}

-- The rows of a batch: MySQL numbers them, and rounds the times, in nanoseconds, to milliseconds.

abbrev rounded : ℕ → ℕ
rounded n = (n + 500000) / 10 ^ 6 * 10 ^ 6

abbrev pub as_row : ℕ → DanmakuMessage → Row
as_row id d = record d { id = id; send_time = rounded d.send_time }

abbrev pub as_rows : ℕ → List Message → List Row
as_rows id [] = []
as_rows id (none ∷ ms) = as_rows id ms
as_rows id (some d ∷ ms) = as_row id d ∷ as_rows (suc id) ms

as_row-IsRow : (id : ℕ) (d : DanmakuMessage) → IsRow d (as_row id d)
as_row-IsRow id d = record {
  same_room = refl;
  same_user = refl;
  same_content = refl;
  not_before = omega arith;
  not_after = omega arith;
}

as_rows-AreRows : (id : ℕ) (batch : List Message) → AreRows batch (as_rows id batch)
as_rows-AreRows id [] = refl
as_rows-AreRows id (none ∷ ms) = ([], as_rows id ms, refl, as_rows-AreRows id ms)
as_rows-AreRows id (some d ∷ ms) =
    (as_row id d, as_rows (suc id) ms, refl, as_row-IsRow id d, as_rows-AreRows (suc id) ms)

-- The database fails once, then works.
abbrev pub recovers : ℕ → Attempt
recovers zero = record { stored = false; reported = false; cancelled = false; rows_of = as_rows 1 }
recovers (suc i) = record { stored = true; reported = true; cancelled = false; rows_of = as_rows 1 }

pub recovers-IsHonest : IsHonest recovers
recovers-IsHonest = record { truth = truthful; rows = rows_right }
  where
    truthful : (i : ℕ) → (recovers i).stored ≡ (recovers i).reported
    truthful zero = refl
    truthful (suc i) = refl

    rows_right : (i : ℕ) (batch : List Message) → AreRows batch ((recovers i).rows_of batch)
    rows_right zero batch = as_rows-AreRows 1 batch
    rows_right (suc i) batch = as_rows-AreRows 1 batch

failed_before :
    (l : ℕ) → 0 ≤ l → l < 1 → ((recovers l).reported ≡ false) × ((recovers l).cancelled ≡ false)
failed_before zero h k = (refl, refl)
failed_before (suc l) h k = absurd (omega arith)

pub second_attempt : Succeeds recovers 0 1
second_attempt = record { after = omega arith; success = refl; before = failed_before }

abbrev pub hello : DanmakuMessage
hello = record { id = 0; room_id = []; user_id = 0; content = codes "hi"; send_time = 0 }

flush_buffer_once_example :
    let r = flush_buffer recovers (some hello ∷ []) [] in
    (rows : List Row) × AreRows (some hello ∷ []) rows
    × (r.table ≡ (if r.saved then rows else []))
    × (r.calls ≤ max_db_retries)
flush_buffer_once_example = flush_buffer_once recovers (some hello ∷ []) [] recovers-IsHonest

flush_buffer_saves_example :
    (rows : List Row) × AreRows (some hello ∷ []) rows
    × ((flush_buffer recovers (some hello ∷ []) []).table ≡ rows)
flush_buffer_saves_example =
    flush_buffer_saves recovers 1 (some hello ∷ []) [] recovers-IsHonest second_attempt
      (omega arith)

-- `{"type": 101, "data": {"content": "hi"}}`

abbrev pub danmaku_json : Bytes
danmaku_json = doc (
    obj (
      field (codes "type") (num (codes "101"))
        (field (codes "data") (obj (field (codes "content") (str (codes "hi")) end)) end)))

danmaku_json_lem : parse_message nanos danmaku_json ≡ some (some hello)
unfolding parse_message unmarshal_packet unmarshal_message unmarshal_struct same_name list_beq
    get_int get_text parse_uint parse_int
danmaku_json_lem = refl

abbrev pub started : Session
started = setup (new_danmaku_handler 10)

abbrev received : Session
received = record started { msg_chan = some hello ∷ []; unmarked = danmaku_json ∷ [] }

received_lem : consume nanos false danmaku_json started ≡ next received
unfolding parse_message unmarshal_packet unmarshal_message unmarshal_struct same_name list_beq
    get_int get_text parse_uint parse_int consume setup new_danmaku_handler
received_lem = refl

abbrev run : Reach nanos started received
run = later here (consumes false danmaku_json received_lem)

-- Another claim has sent a message after it; that one is marked first.

abbrev yo_json : Bytes
yo_json = doc (
    obj (
      field (codes "type") (num (codes "101"))
        (field (codes "data") (obj (field (codes "content") (str (codes "yo")) end)) end)))

abbrev two_sent : Session
two_sent = record started {
  msg_chan = some hello ∷ some (record hello { content = codes "yo" }) ∷ [];
  unmarked = danmaku_json ∷ yo_json ∷ [];
}

abbrev one_marked : Session
one_marked = record two_sent { marked = yo_json ∷ []; unmarked = danmaku_json ∷ [] }

abbrev noted : Session
noted = record two_sent { marked = yo_json ∷ danmaku_json ∷ []; unmarked = [] }

two_sent_lem : consume nanos false yo_json received ≡ next two_sent
unfolding parse_message unmarshal_packet unmarshal_message unmarshal_struct same_name list_beq
    get_int get_text parse_uint parse_int consume setup new_danmaku_handler
two_sent_lem = refl

one_marked_lem : mark_message 1 two_sent ≡ some one_marked
unfolding setup new_danmaku_handler mark_message take_nth
one_marked_lem = refl

noted_lem : mark_message 0 one_marked ≡ some noted
unfolding setup new_danmaku_handler mark_message take_nth
noted_lem = refl

started-IsComplete : IsComplete nanos [] started
unfolding setup new_danmaku_handler
started-IsComplete = (refl, Perm.nil)

Reach-IsComplete_example :
    (flatten noted.batches ++ (noted.buffer ++ noted.msg_chan)
      ≡ parse_all nanos (danmaku_json ∷ yo_json ∷ []))
    × Perm (danmaku_json ∷ yo_json ∷ []) (noted.marked ++ noted.unmarked)
Reach-IsComplete_example = Reach-IsComplete nanos [] started-IsComplete (
    later (later (later run (consumes false yo_json two_sent_lem)) (marks 1 one_marked_lem))
      (marks 0 noted_lem))

started-IsBounded : IsBounded 10 started
unfolding setup new_danmaku_handler
started-IsBounded = record { size = refl; room = omega arith; flushed = tt; capacity = omega arith }

Reach-IsBounded_example : IsBounded 10 received
Reach-IsBounded_example = Reach-IsBounded 10 nanos (omega arith) started-IsBounded run

abbrev ended : Session
ended = record started { chan_closed = true }

ended_lem : close_msg_chan started ≡ some ended
unfolding setup new_danmaku_handler close_msg_chan
ended_lem = refl

setup-close_msg_chan_example :
    (consume nanos false danmaku_json (setup ended) ≡ panicked)
    × (close_msg_chan (setup ended) ≡ none)
setup-close_msg_chan_example =
    setup-close_msg_chan nanos false danmaku_json (some hello) started ended danmaku_json_lem
      ended_lem

-- `Cleanup` after one message has been received.
abbrev closing : Session
closing = record received { chan_closed = true }

closing-working : closing.working ≡ true
unfolding setup new_danmaku_handler
closing-working = refl

receive_all-drains_example :
    (s' : Session) × (receive_all (λ n. recovers) 2 closing ≡ some s')
    × IsDrained (accepted closing) s'
receive_all-drains_example = receive_all-drains (λ n. recovers) closing closing-working refl
