-- ===== src/Cmd/Benchmark/Ramp.antt =====
-- cmd/benchmark/main.go: `main`. It starts the bots, one at each tick, waits until all have returned,
-- and only then for a signal.
pub mod Gone
use live_stream_danmaku.Base.{
  ℕ, suc, ◌+◌, ◌-◌, ◌≡◌, ◌≤◌, refl, List, [], ◌∷◌, Option, none, some, if◌then◌else◌, ltb, length,
  arith, nat_eq, ◌==◌, ◌&&◌, OnSome, OnSome_some, Option-cases, Bool-cases, inl, inr, some_inj,
}
use live_stream_danmaku.Json.{◌>>=◌, bind-some}
use live_stream_danmaku.Cmd.Benchmark.Bots.{
  Bot, unborn, online, gone, Counters, Event, dial_fails, leaves, act, Load, start, bot_at, step,
}
use live_stream_danmaku.Cmd.Benchmark.Bots.Counts.{
  is_online, total, total-put, IsCounted, step-IsCounted, start-IsCounted, unborn_bots,
}

-- `killed`: a signal that comes before `signal.Notify` ends the program at once.
pub data Phase : Type 0 where
  launching : Phase
  listening : Phase
  stopped : Phase
  killed : Phase

-- `launched` bots have their goroutine; `wait_group` counts those that have not returned.
pub record Bench : Type 0 where
  pub phase : Phase
  pub launched : ℕ
  pub wait_group : ℕ
  pub load : Load

-- `wg.Add(*clients)`
unfoldable pub begin : ℕ → Bench
begin clients = record {
  phase = launching;
  launched = 0;
  wait_group = clients;
  load = start clients;
}

pub data MainEvent : Type 0 where
  ticks : MainEvent
  acts : ℕ → Event → MainEvent
  waited : MainEvent
  signals : MainEvent

-- `defer wg.Done()`: `runBot` returns when its dial fails, or when it leaves.
abbrev pub returns : Event → ℕ
returns dial_fails = 1
returns leaves = 1
returns _ = 0

-- A tick of the ramp-up starts the next bot.
launch : ℕ → Bench → Option Bench
launch clients b =
    if ltb b.launched clients then some (record b { launched = suc b.launched }) else none

move : ℕ → Event → Bench → Option Bench
move i event b =
    if ltb i b.launched
    then (do
      l ← step i event b.load
      some (record b { load = l; wait_group = b.wait_group - returns event }))
    else none

-- `wg.Wait()`, behind the loop.
wait_bots : ℕ → Bench → Option Bench
wait_bots clients b =
    if b.launched == clients && b.wait_group == 0
    then some (record b { phase = listening })
    else none

in_phase : ℕ → MainEvent → Phase → Bench → Option Bench
unfolding launch move wait_bots
in_phase clients ticks launching b = launch clients b
in_phase clients waited launching b = wait_bots clients b
in_phase clients signals launching b = some (record b { phase = killed })
in_phase clients signals listening b = some (record b { phase = stopped })
in_phase clients (acts i event) launching b = move i event b
in_phase clients (acts i event) listening b = move i event b
in_phase clients _ _ b = none

-- One step of `main` or of a bot; `none` where it cannot be taken.
unfoldable pub main_step : ℕ → MainEvent → Bench → Option Bench
unfolding in_phase
main_step clients event b = in_phase clients event b.phase b

unfoldable pub run_main : ℕ → List MainEvent → Bench → Option Bench
run_main clients [] b = some b
run_main clients (event ∷ events) b = main_step clients event b >>= λ b'. run_main clients events b'
