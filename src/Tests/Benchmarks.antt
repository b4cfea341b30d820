-- ===== src/Tests/Benchmarks.antt =====
-- The load generators.
use live_stream_danmaku.Base.{
  ℕ, ◌+◌, ◌%◌, ◌==◌, list_eq, nat_eq, if◌then◌else◌, arith, ◌≡◌, ◌≤◌, ◌⊎◌, ◌*◌, ◌/◌, refl, true,
  false, List, [], ◌∷◌, some, repeat, length, map, All,
}
use live_stream_danmaku.Text.{Text, codes}
use live_stream_danmaku.Text.Decimal.{u64}
use live_stream_danmaku.Model.{WsPacket, unmarshal_packet}
use live_stream_danmaku.Ws.Manager.{Manager}
use live_stream_danmaku.Ws.Router.{dispatch, action_registry}
use live_stream_danmaku.Ws.Router.Laws.{likes_in}
use live_stream_danmaku.Tests.Samples.{nanos, no_rooms}
use live_stream_danmaku.Cmd.Benchmark.Bots.Frames.{bench_like_frame-counts}
use live_stream_danmaku.Cmd.Benchmark.Ramp
use live_stream_danmaku.Cmd.Benchmark.Ramp.Gone.{is_gone, run_main-all_gone}
use live_stream_danmaku.Cmd.Benchmark.Ramp.{
  MainEvent, acts, waited, signals, Bench, stopped, begin, run_main, main_step,
}
use live_stream_danmaku.Json.{Bytes, malformed}
use live_stream_danmaku.Cmd.Benchmark.Kafka.{
  Load, start, work, work_all, count_round, send_danmaku, kafka_topic,
}
use live_stream_danmaku.Cmd.Benchmark.Kafka.Totals.{work_all-totals}
use live_stream_danmaku.Cmd.Benchmark.Bots
use live_stream_danmaku.Cmd.Benchmark.Bots.{
  bench_like_frame, dial_fails, Bot, unborn, online, gone, quiet, Event, dials, reads, read_fails,
  numbers, writes, counts, loads, adds, leaves, Counters, no_counts, act, step, run, count_frame,
  room_of, target_host,
}
use live_stream_danmaku.Cmd.Benchmark.Bots.Counts.{is_online, total, run-counts}
use live_stream_danmaku.Cmd.Benchmark.Monitor.{Snapshot, ticks, new_monitor, minus}
use live_stream_danmaku.Cmd.Benchmark.Monitor.Sums.{sum, ticks-sums}

-- The first worker sends once.
abbrev after_one : Load
after_one = record {
  left = 16665 ∷ repeat 299 16666;
  input = (kafka_topic, malformed) ∷ [];
  sent_count = 1;
}

after_one_lem : work_all malformed (0 ∷ []) start ≡ some after_one
unfolding work_all work count_round send_danmaku
after_one_lem = refl

work_all-totals_example :
    ((i : ℕ) × (l' : Load) × (work malformed i after_one ≡ some l'))
    ⊎ ((after_one.sent_count ≡ 4999800)
        × (length after_one.input ≡ 4999800)
        × All (λ x. x ≡ (kafka_topic, malformed)) after_one.input)
work_all-totals_example = work_all-totals malformed (0 ∷ []) after_one after_one_lem

-- Bot 1 of two sends a message, and bot 0 leaves.
abbrev talk : List (ℕ × Event)
talk =
    (0, dials false)
    ∷ (1, dials true)
    ∷ (1, numbers)
    ∷ (1, writes)
    ∷ (1, counts)
    ∷ (1, loads)
    ∷ (0, read_fails)
    ∷ (0, leaves)
    ∷ (1, adds)
    ∷ []

abbrev talked : Bots.Load
talked = record {
  bots = gone ∷ online true false quiet ∷ [];
  counters = record no_counts {
    connected_count = 1;
    msg_sent_count = 1;
    expected_recv_count = 2;
    global_msg_seq = 1;
    error_count = 1;
  };
}

talked_lem : run talk (Bots.start 2) ≡ some talked
unfolding run step act
talked_lem = refl

run-counts_example :
    (1 ≡ total is_online talked.bots)
    × (1 ≤ talked.counters.global_msg_seq)
    × (talked.counters.expected_recv_count ≤ 2 * talked.counters.msg_sent_count)
run-counts_example = run-counts 2 talk talked talked_lem

abbrev second : ℕ → Snapshot
second n = record { conns = 2; sent = n; recv = 2 * n; expected = 2 * n; errors = 0 }

abbrev seconds : List Snapshot
seconds = second 1 ∷ second 3 ∷ []

ticks-sums_example :
    let (m, stats, reports) = ticks seconds new_monitor in
    (sum (map (λ s. s.sent_rate) stats) ≡ minus 3 0)
    × (sum (map (λ s. s.recv_rate) stats) ≡ minus 6 0)
    × (length reports ≡ 2 / 10)
    × All (λ r. r.duration ≡ 10) reports
    × (sum (map (λ r. r.win_sent) reports) ≡ minus m.win_start_sent 0)
    × (sum (map (λ r. r.win_recv) reports) ≡ minus m.win_start_recv 0)
    × (sum (map (λ r. r.win_exp) reports) ≡ minus m.win_start_exp 0)
ticks-sums_example = ticks-sums seconds

-- One of two bots cannot dial, the other is closed and leaves; then the signal comes.
abbrev session : List MainEvent
session =
    Ramp.ticks
    ∷ acts 0 (dials false)
    ∷ Ramp.ticks
    ∷ acts 1 dial_fails
    ∷ acts 0 read_fails
    ∷ acts 0 leaves
    ∷ waited
    ∷ signals
    ∷ []

abbrev ended : Bench
ended = record {
  phase = stopped;
  launched = 2;
  wait_group = 0;
  load = record { bots = gone ∷ gone ∷ []; counters = record no_counts { error_count = 2 } };
}

ended_lem : run_main 2 session (begin 2) ≡ some ended
unfolding run_main main_step begin step act
ended_lem = refl

run_main-all_gone_example :
    (total is_gone ended.load.bots ≡ 2)
    × (length ended.load.bots ≡ 2)
    × (ended.load.counters.connected_count ≡ 0)
run_main-all_gone_example = run_main-all_gone 2 session ended ended_lem refl

bench_like_frame-counts_example :
    (payload : Bytes) × (bench_like_frame 4 (codes "room_0") ≡ some payload)
    × ((p : WsPacket) × (unmarshal_packet payload ≡ some p)
        × ((m' : Manager) × (dispatch (action_registry nanos 0) 0 no_rooms p.msg_type p.raw_data
              ≡ some m')
            × ((r : Text)
                → likes_in r m' ≡ (
                    if (no_rooms.clients 0).room_id == r
                    then (likes_in r no_rooms + 5) % u64
                    else likes_in r no_rooms))))
bench_like_frame-counts_example =
    bench_like_frame-counts nanos 0 0 4 (codes "room_0") no_rooms (omega arith)
