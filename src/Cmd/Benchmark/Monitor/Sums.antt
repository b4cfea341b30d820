-- ===== src/Cmd/Benchmark/Monitor/Sums.antt =====
-- cmd/benchmark/main.go: what the lines of the monitor add up to.
use live_stream_danmaku.Base.{
  ℕ, ◌+◌, ◌/◌, ◌≡◌, ◌<◌, refl, List, [], ◌∷◌, arith, map, length, All, leb, Bool-cases, inl, inr,
}
use live_stream_danmaku.Text.Decimal.{ℤ, pos}
use live_stream_danmaku.Cmd.Benchmark.Monitor.{
  Snapshot, Monitor, Stats, Report, minus, int_add, tick, ticks, count_second, new_window,
  report_of, stats_of, new_monitor, report_interval,
}

abbrev pub sum : List ℤ → ℤ
sum [] = pos 0
sum (z ∷ zs) = int_add z (sum zs)

minus-minus : (a b c : ℕ) → int_add (minus b a) (minus c b) ≡ minus c a
minus-minus a b c = ground arith

minus-same : (a : ℕ) → pos 0 ≡ minus a a
minus-same a = ground arith

-- A number that the monitor keeps, the value that it is taken from, and the difference that each
-- report has of it.
module _ (start : Monitor → ℕ) (value : Snapshot → ℕ) (delta : Report → ℤ)
    (opens : (s : Snapshot) (m : Monitor) → start (new_window s (count_second s m)) ≡ value s)
    (keeps : (s : Snapshot) (m : Monitor) → start (count_second s m) ≡ start m)
    (reports : (s : Snapshot) (m : Monitor)
      → delta (report_of s (count_second s m)) ≡ minus (value s) (start m)) where
  sum-reports :
      (ss : List Snapshot) (m : Monitor)
      → sum (map delta (ticks ss m).2) ≡ minus (start (ticks ss m).0) (start m)
  unfolding ticks tick
  sum-reports [] m = minus-same (start m)
  sum-reports (s ∷ ss) m = elim (Bool-cases (leb report_interval (m.seconds_counter + 1))) [
    | inl e ↦ rw e (
        rw (reports s m, sum-reports ss (new_window s (count_second s m)), opens s m)
          (minus-minus (start m) (value s) (start (ticks ss (new_window s (count_second s m))).0)))
    | inr e ↦ rw e (rw (sum-reports ss (count_second s m), keeps s m) refl)
  ]

-- The value in the last snapshot.
abbrev pub latest : (Snapshot → ℕ) → ℕ → List Snapshot → ℕ
latest value n [] = n
latest value n (s ∷ ss) = latest value (value s) ss

-- The same for the lines of each second.
module _ (last : Monitor → ℕ) (value : Snapshot → ℕ) (delta : Stats → ℤ)
    (moves : (s : Snapshot) (m : Monitor) → last (count_second s m) ≡ value s)
    (stays : (s : Snapshot) (m : Monitor) → last (new_window s m) ≡ last m)
    (rates : (s : Snapshot) (m : Monitor) → delta (stats_of s m) ≡ minus (value s) (last m)) where
  sum-rates :
      (ss : List Snapshot) (m : Monitor)
      → sum (map delta (ticks ss m).1) ≡ minus (last (ticks ss m).0) (last m)
  unfolding ticks tick
  sum-rates [] m = minus-same (last m)
  sum-rates (s ∷ ss) m = elim (Bool-cases (leb report_interval (m.seconds_counter + 1))) [
    | inl e ↦ rw e (
        rw
          (
            rates s m,
            sum-rates ss (new_window s (count_second s m)),
            stays s (count_second s m),
            moves s m,
          )
          (minus-minus (last m) (value s) (last (ticks ss (new_window s (count_second s m))).0)))
    | inr e ↦ rw e (
        rw (rates s m, sum-rates ss (count_second s m), moves s m)
          (minus-minus (last m) (value s) (last (ticks ss (count_second s m)).0)))
  ]

  last-ticks : (ss : List Snapshot) (m : Monitor) → last (ticks ss m).0 ≡ latest value (last m) ss
  unfolding ticks tick
  last-ticks [] m = refl
  last-ticks (s ∷ ss) m = elim (Bool-cases (leb report_interval (m.seconds_counter + 1))) [
    | inl e ↦ rw e (
        rw (last-ticks ss (new_window s (count_second s m)), stays s (count_second s m), moves s m)
          refl)
    | inr e ↦ rw e (rw (last-ticks ss (count_second s m), moves s m) refl)
  ]

report_count :
    (ss : List Snapshot) (m : Monitor)
    → m.seconds_counter < report_interval
    → (length (ticks ss m).2 ≡ (m.seconds_counter + length ss) / report_interval)
      × All (λ r. r.duration ≡ report_interval) (ticks ss m).2
unfolding ticks tick
report_count [] m h = (omega arith, tt)
report_count (s ∷ ss) m h = elim (Bool-cases (leb report_interval (m.seconds_counter + 1))) [
  | inl e ↦
      let (len, full) = report_count ss (new_window s (count_second s m)) (omega arith) in
      rw e (ground arith, (ground arith, full))
  | inr e ↦
      let (len, full) = report_count ss (count_second s m) (ground arith) in
      rw e (omega arith, full)
]

-- Over any run of the monitor the rates of its lines add up to what has been sent and received by the
-- last second; there is a report for each ten seconds, and none for less; and what the reports give
-- as sent, received and expected adds up to the counters with which the open window started.
pub ticks-sums :
    (ss : List Snapshot)
    → let (m, stats, reports) = ticks ss new_monitor in
      (sum (map (λ s. s.sent_rate) stats) ≡ minus (latest (λ s. s.sent) 0 ss) 0)
      × (sum (map (λ s. s.recv_rate) stats) ≡ minus (latest (λ s. s.recv) 0 ss) 0)
      × (length reports ≡ length ss / 10)
      × All (λ r. r.duration ≡ 10) reports
      × (sum (map (λ r. r.win_sent) reports) ≡ minus m.win_start_sent 0)
      × (sum (map (λ r. r.win_recv) reports) ≡ minus m.win_start_recv 0)
      × (sum (map (λ r. r.win_exp) reports) ≡ minus m.win_start_exp 0)
ticks-sums ss =
    let (count, full) = report_count ss new_monitor (omega arith) in
    let sent =
      last-ticks (λ m. m.last_sent) (λ s. s.sent) (λ s. s.sent_rate) (λ s m. refl) (λ s m. refl)
        (λ s m. refl) ss new_monitor in
    let recv =
      last-ticks (λ m. m.last_recv) (λ s. s.recv) (λ s. s.recv_rate) (λ s m. refl) (λ s m. refl)
        (λ s m. refl) ss new_monitor in
    (
      rw (← sent) (
          sum-rates (λ m. m.last_sent) (λ s. s.sent) (λ s. s.sent_rate) (λ s m. refl) (λ s m. refl)
            (λ s m. refl) ss new_monitor),
      rw (← recv) (
          sum-rates (λ m. m.last_recv) (λ s. s.recv) (λ s. s.recv_rate) (λ s m. refl) (λ s m. refl)
            (λ s m. refl) ss new_monitor),
      rw count (omega arith),
      full,
      sum-reports (λ m. m.win_start_sent) (λ s. s.sent) (λ r. r.win_sent) (λ s m. refl)
          (λ s m. refl) (λ s m. refl) ss new_monitor,
      sum-reports (λ m. m.win_start_recv) (λ s. s.recv) (λ r. r.win_recv) (λ s m. refl)
          (λ s m. refl) (λ s m. refl) ss new_monitor,
      sum-reports (λ m. m.win_start_exp) (λ s. s.expected) (λ r. r.win_exp) (λ s m. refl)
          (λ s m. refl) (λ s m. refl) ss new_monitor,
    )
