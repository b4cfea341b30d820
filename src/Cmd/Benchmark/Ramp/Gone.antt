-- ===== src/Cmd/Benchmark/Ramp/Gone.antt =====
-- When `main` of cmd/benchmark/main.go is past its wait, no bot is left.
use live_stream_danmaku.Base.{
  ℕ, ◌+◌, ◌≡◌, ◌≤◌, refl, List, [], ◌∷◌, some, ltb, length, arith, nat_eq, ◌==◌, ◌&&◌, OnSome,
  OnSome_some, Option-cases, Bool-cases, inl, inr, some_inj,
}
use live_stream_danmaku.Json.{◌>>=◌, bind-some}
use live_stream_danmaku.Cmd.Benchmark.Bots.{
  Bot, unborn, online, gone, Counters, Event, act, Load, bot_at, step,
}
use live_stream_danmaku.Cmd.Benchmark.Bots.Counts.{
  is_online, total, total-put, IsCounted, step-IsCounted, start-IsCounted, unborn_bots,
}
use live_stream_danmaku.Cmd.Benchmark.Ramp.{
  Phase, launching, listening, stopped, killed, Bench, begin, MainEvent, ticks, acts, waited,
  signals, returns, launch, move, wait_bots, in_phase, main_step, run_main,
}

abbrev pub is_gone : Bot → ℕ
is_gone gone = 1
is_gone _ = 0

-- Past `wg.Wait()`, though not by a signal that kills.
abbrev pub past_wait : Phase → ℕ
past_wait listening = 1
past_wait stopped = 1
past_wait _ = 0

record IsRun (clients : ℕ) (b : Bench) : Type 0 where
  counted : IsCounted clients b.load
  waiting : b.wait_group + total is_gone b.load.bots ≡ clients
  done : past_wait b.phase ≡ 1 → b.wait_group ≡ 0

act-gone :
    (event : Event) (b : Bot) (c : Counters)
    → OnSome (λ r. is_gone r.0 ≡ is_gone b + returns event) (act event b c)
unfolding act
act-gone event b c = ground arith

step-gone :
    (i : ℕ) (event : Event) (l l' : Load)
    → step i event l ≡ some l'
    → total is_gone l'.bots ≡ total is_gone l.bots + returns event
unfolding step
step-gone i event l l' e =
    let (b, at, e') = bind-some (bot_at i l.bots) e in
    let (r, a, e'') = bind-some (act event b l.counters) e' in
    let g =
      OnSome_some (λ r. is_gone r.0 ≡ is_gone b + returns event) (act event b l.counters) a
        (act-gone event b l.counters) in
    let t = total-put is_gone i b r.0 l.bots at in rw (← some_inj e'') (omega arith)

total-parts : (bs : List Bot) → total is_online bs + total is_gone bs ≤ length bs
unfolding total
total-parts [] = omega arith
total-parts (unborn ∷ bs) = let h = total-parts bs in omega arith
total-parts (online t d at ∷ bs) = let h = total-parts bs in omega arith
total-parts (gone ∷ bs) = let h = total-parts bs in omega arith

move-IsRun :
    (clients i : ℕ) (event : Event) (b : Bench)
    → IsRun clients b
    → OnSome (IsRun clients) (move i event b)
unfolding move
move-IsRun clients i event b v = elim (Bool-cases (ltb i b.launched)) [
  | inl h ↦ elim (Option-cases (step i event b.load)) [
    | inl n ↦ rw h (rw (n, ◌>>=◌) tt)
    | inr (l, n) ↦ rw h (
        rw (n, ◌>>=◌)
          (let g = step-gone i event b.load l n in
            let c = step-IsCounted clients i event b.load l n v.counted in
            let parts = total-parts l.bots in
            let n' = c.bots in
            let w = v.waiting in
            record {
              counted = c;
              waiting = omega arith;
              done = λ p. let z = v.done p in omega arith;
            }))
  ]
  | inr h ↦ rw h tt
]

in_phase-IsRun :
    (clients : ℕ) (event : MainEvent) (phase : Phase) (b : Bench)
    → b.phase ≡ phase
    → IsRun clients b
    → OnSome (IsRun clients) (in_phase clients event phase b)
unfolding in_phase launch wait_bots
in_phase-IsRun clients ticks launching b e v = elim (Bool-cases (ltb b.launched clients)) [
  | inl h ↦ rw h (record { counted = v.counted; waiting = v.waiting; done = v.done })
  | inr h ↦ rw h tt
]
in_phase-IsRun clients (acts i event) launching b e v = move-IsRun clients i event b v
in_phase-IsRun clients waited launching b e v =
    elim (Bool-cases (b.launched == clients && b.wait_group == 0)) [
      | inl h ↦
          rw h (record { counted = v.counted; waiting = v.waiting; done = λ p. ground (arith, h) })
      | inr h ↦ rw h tt
    ]
in_phase-IsRun clients signals launching b e v = record {
  counted = v.counted;
  waiting = v.waiting;
  done = λ p. omega arith;
}
in_phase-IsRun clients ticks listening b e v = tt
in_phase-IsRun clients (acts i event) listening b e v = move-IsRun clients i event b v
in_phase-IsRun clients waited listening b e v = tt
in_phase-IsRun clients signals listening b e v = record {
  counted = v.counted;
  waiting = v.waiting;
  done = λ p. v.done (rw e refl);
}
in_phase-IsRun clients ticks stopped b e v = tt
in_phase-IsRun clients (acts i event) stopped b e v = tt
in_phase-IsRun clients waited stopped b e v = tt
in_phase-IsRun clients signals stopped b e v = tt
in_phase-IsRun clients ticks killed b e v = tt
in_phase-IsRun clients (acts i event) killed b e v = tt
in_phase-IsRun clients waited killed b e v = tt
in_phase-IsRun clients signals killed b e v = tt

run_main-IsRun :
    (clients : ℕ) (events : List MainEvent) (b b' : Bench)
    → run_main clients events b ≡ some b'
    → IsRun clients b
    → IsRun clients b'
unfolding run_main main_step
run_main-IsRun clients [] b b' e v = rw (← some_inj e) v
run_main-IsRun clients (event ∷ events) b b' e v =
    let (c, step, rest) = bind-some (main_step clients event b) e in
    run_main-IsRun clients events c b' rest (
      OnSome_some (IsRun clients) (main_step clients event b) step
        (in_phase-IsRun clients event b.phase b refl v))

begin-IsRun : (clients : ℕ) → IsRun clients (begin clients)
unfolding begin
begin-IsRun clients =
    let none_gone = (unborn_bots is_gone clients refl).0 in
    record { counted = start-IsCounted clients; waiting = omega arith; done = λ p. omega arith }

-- When `main`, started for some number of bots, waits for a signal or has stopped, by any steps of its
-- own and of the bots, every bot has returned and `connectedCount` is 0.
pub run_main-all_gone :
    (clients : ℕ) (events : List MainEvent) (b : Bench)
    → run_main clients events (begin clients) ≡ some b
    → past_wait b.phase ≡ 1
    → (total is_gone b.load.bots ≡ clients)
      × (length b.load.bots ≡ clients)
      × (b.load.counters.connected_count ≡ 0)
run_main-all_gone clients events b e p =
    let v = run_main-IsRun clients events (begin clients) b e (begin-IsRun clients) in
    let parts = total-parts b.load.bots in
    let z = v.done p in
    (
      omega (arith, v.waiting),
      v.counted.bots,
      omega (arith, v.waiting, v.counted.bots, v.counted.connected),
    )
