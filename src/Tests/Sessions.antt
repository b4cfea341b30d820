-- ===== src/Tests/Sessions.antt =====
-- The consumer's events and its main loop.
use live_stream_danmaku.Base.{
  ◌≡◌, ◌⊎◌, refl, false, List, [], ◌∷◌, some, arith, list_beq, All, take_nth,
}
use live_stream_danmaku.Json.{get_text, get_int, unmarshal_struct, same_name}
use live_stream_danmaku.Text.Decimal.{parse_uint, parse_int}
use live_stream_danmaku.Model.{unmarshal_packet, unmarshal_message}
use live_stream_danmaku.Repo.{create_in_batches}
use live_stream_danmaku.Consumer.Flush.{flush_buffer}
use live_stream_danmaku.Consumer.Session.{
  Session, new_danmaku_handler, setup, parse_message, consume, mark_message, flush, worker_receive,
  worker_tick,
}
use live_stream_danmaku.Consumer.Session.Events.{
  Event, delivers, marks, receives, ticks, stops, cancels, run_event, run_events,
}
use live_stream_danmaku.Consumer.Session.Events.Saved.{IsSaved, IsTruthful}
use live_stream_danmaku.Consumer.Session.Events.Runs.{run_events-IsSaved}
use live_stream_danmaku.Cmd.Consumer.{session, Round, stuck, crashed, consumer_main}
use live_stream_danmaku.Cmd.Consumer.Sessions.{consumer_main_one_session}
use live_stream_danmaku.Tests.Samples.{nanos}
use live_stream_danmaku.Tests.Consumers.{
  hello, as_row, danmaku_json, recovers, recovers-IsHonest, started,
}

-- A message is delivered, received, and flushed at a tick, by the second attempt.
abbrev one_message : List Event
one_message = delivers false danmaku_json ∷ marks 0 ∷ receives recovers ∷ ticks recovers ∷ []

abbrev one_saved : Session
one_saved = record started {
  table = as_row 1 hello ∷ [];
  batches = (some hello ∷ []) ∷ [];
  marked = danmaku_json ∷ [];
}

one_saved_lem : run_events nanos one_message started ≡ some one_saved
unfolding parse_message unmarshal_packet unmarshal_message unmarshal_struct same_name list_beq
    get_int get_text parse_uint parse_int consume setup new_danmaku_handler run_events run_event
    worker_receive worker_tick flush flush_buffer mark_message take_nth create_in_batches
one_saved_lem = refl

one_message_honest : All IsTruthful one_message
one_message_honest = (tt, (tt, (recovers-IsHonest, (recovers-IsHonest, tt))))

started-IsSaved : IsSaved [] started
unfolding setup new_danmaku_handler
started-IsSaved = record { saved = []; complete = refl; rows = []; made = refl; stored = refl }

run_events-IsSaved_example : IsSaved [] one_saved
run_events-IsSaved_example =
    run_events-IsSaved [] nanos one_message started one_message_honest started-IsSaved one_saved_lem

-- A first session, which ends with its context, and a second one, with a message.
abbrev two_sessions : List Round
two_sessions =
    (session (cancels ∷ []) (stops recovers ∷ []), false)
    ∷ (session (delivers false danmaku_json ∷ []) [], false)
    ∷ []

consumer_main_one_session_example :
    (consumer_main nanos two_sessions ≡ crashed)
    ⊎ ((t : Session) × (consumer_main nanos two_sessions ≡ stuck t))
consumer_main_one_session_example = consumer_main_one_session nanos two_sessions (omega arith)
