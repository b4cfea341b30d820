-- ===== src/Cmd/Benchmark/Monitor.antt =====
-- cmd/benchmark/main.go: the monitor, which reads the counters each second. The counters and their
-- differences stay far inside an int64. The rates in floating point are not modelled.
pub mod Sums
use live_stream_danmaku.Base.{
  ℕ, suc, ◌+◌, ◌-◌, Bool, List, [], ◌∷◌, Option, none, some, if◌then◌else◌, leb,
}
use live_stream_danmaku.Text.Decimal.{ℤ, pos, negsuc}

-- What one round of loads finds.
pub record Snapshot : Type 0 where
  pub conns : ℕ
  pub sent : ℕ
  pub recv : ℕ
  pub expected : ℕ
  pub errors : ℕ

-- The variables that `monitor` keeps.
pub record Monitor : Type 0 where
  pub last_sent : ℕ
  pub last_recv : ℕ
  pub win_start_sent : ℕ
  pub win_start_recv : ℕ
  pub win_start_exp : ℕ
  pub win_start_err : ℕ
  pub seconds_counter : ℕ

abbrev pub new_monitor : Monitor
new_monitor = record {
  last_sent = 0;
  last_recv = 0;
  win_start_sent = 0;
  win_start_recv = 0;
  win_start_exp = 0;
  win_start_err = 0;
  seconds_counter = 0;
}

-- The integers of the lines that it logs, each second and each period.
pub record Stats : Type 0 where
  pub conns : ℕ
  pub sent_rate : ℤ
  pub recv_rate : ℤ
  pub lag : ℤ
  pub errors : ℕ

pub record Report : Type 0 where
  pub win_sent : ℤ
  pub win_exp : ℤ
  pub win_recv : ℤ
  pub win_net_loss : ℤ
  pub win_err : ℤ
  pub duration : ℕ
  pub lag : ℤ

-- `ReportInterval.Seconds()`
abbrev pub report_interval : ℕ
report_interval = 10

abbrev pub minus : ℕ → ℕ → ℤ
minus a b = if leb b a then pos (a - b) else negsuc (b - a - 1)

abbrev pub int_neg : ℕ → ℤ
int_neg n = minus 0 n

abbrev pub int_add : ℤ → ℤ → ℤ
int_add (pos a) (pos b) = pos (a + b)
int_add (pos a) (negsuc b) = minus a (suc b)
int_add (negsuc a) (pos b) = minus b (suc a)
int_add (negsuc a) (negsuc b) = negsuc (a + b + 1)

abbrev pub int_sub : ℤ → ℤ → ℤ
int_sub a (pos n) = int_add a (int_neg n)
int_sub a (negsuc n) = int_add a (pos (suc n))

abbrev pub stats_of : Snapshot → Monitor → Stats
stats_of s m = record {
  conns = s.conns;
  sent_rate = minus s.sent m.last_sent;
  recv_rate = minus s.recv m.last_recv;
  lag = minus s.expected s.recv;
  errors = s.errors;
}

abbrev pub report_of : Snapshot → Monitor → Report
report_of s m =
    let exp = minus s.expected m.win_start_exp in
    let recv = minus s.recv m.win_start_recv in
    record {
      win_sent = minus s.sent m.win_start_sent;
      win_exp = exp;
      win_recv = recv;
      win_net_loss = int_sub exp recv;
      win_err = minus s.errors m.win_start_err;
      duration = m.seconds_counter;
      lag = minus s.expected s.recv;
    }

abbrev pub new_window : Snapshot → Monitor → Monitor
new_window s m = record m {
  win_start_sent = s.sent;
  win_start_recv = s.recv;
  win_start_exp = s.expected;
  win_start_err = s.errors;
  seconds_counter = 0;
}

abbrev pub count_second : Snapshot → Monitor → Monitor
count_second s m = record m {
  last_sent = s.sent;
  last_recv = s.recv;
  seconds_counter = m.seconds_counter + 1;
}

-- One round of the loop.
unfoldable pub tick : Snapshot → Monitor → Monitor × Stats × Option Report
tick s m =
    let counted = count_second s m in
    if leb report_interval counted.seconds_counter
    then (new_window s counted, stats_of s m, some (report_of s counted))
    else (counted, stats_of s m, none)

abbrev pub with_report : Option Report → List Report → List Report
with_report none rs = rs
with_report (some r) rs = r ∷ rs

unfoldable pub ticks : List Snapshot → Monitor → Monitor × List Stats × List Report
unfolding tick
ticks [] m = (m, [], [])
ticks (s ∷ ss) m =
    let (m', stats, report) = tick s m in
    let (m'', all, reports) = ticks ss m' in (m'', stats ∷ all, with_report report reports)
