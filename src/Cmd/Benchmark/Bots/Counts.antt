-- ===== src/Cmd/Benchmark/Bots/Counts.antt =====
-- cmd/benchmark/main.go: what the counters say of the bots, however these are interleaved.
use live_stream_danmaku.Base.{
  ℕ, zero, repeat, suc, ◌+◌, ◌*◌, ◌≡◌, ◌≤◌, refl, sym, List, [], ◌∷◌, some, arith, OnSome,
  OnSome_some, length, Option-cases, inl, inr, some_inj,
}
use live_stream_danmaku.Json.{◌>>=◌}
use live_stream_danmaku.Cmd.Benchmark.Bots.{
  Counters, numbered, written, counted, loaded, Bot, unborn, online, gone, Event, act, Load, start,
  bot_at, put, step, run,
}

abbrev pub is_online : Bot → ℕ
is_online (online talker done at) = 1
is_online _ = 0

-- What a bot is yet to add to `expectedRecvCount`, with `n` bots at most.
abbrev due : ℕ → Bot → ℕ
due n (online talker done counted) = n
due n (online talker done (loaded k)) = k
due n _ = 0

-- A message with a number that is not yet counted as sent.
abbrev in_flight : Bot → ℕ
in_flight (online talker done numbered) = 1
in_flight (online talker done written) = 1
in_flight _ = 0

IsStep : ℕ → Bot → Counters → Bot × Counters → Type 0
IsStep n b c (b', c') =
    (is_online b ≤ c.connected_count
      → c'.connected_count + is_online b ≡ c.connected_count + is_online b')
    × (c.connected_count ≤ n
        → c'.expected_recv_count + due n b' + n * c.msg_sent_count
          ≤ c.expected_recv_count + due n b + n * c'.msg_sent_count)
    × (c'.msg_sent_count + in_flight b' + c.global_msg_seq
        ≤ c.msg_sent_count + in_flight b + c'.global_msg_seq)

act-IsStep :
    (n : ℕ) (event : Event) (b : Bot) (c : Counters) → OnSome (IsStep n b c) (act event b c)
unfolding act IsStep
act-IsStep n event b c = ground arith

-- The sum of a weight over the bots.
unfoldable pub total : (Bot → ℕ) → List Bot → ℕ
total f [] = 0
total f (b ∷ bs) = f b + total f bs

pub total-put :
    (f : Bot → ℕ) (i : ℕ) (b b' : Bot) (bs : List Bot)
    → bot_at i bs ≡ some b
    → total f (put i b' bs) + f b ≡ total f bs + f b'
unfolding total
total-put f i b b' [] e = cc
total-put f zero b b' (a ∷ bs) e = rw (some_inj e) (omega arith)
total-put f (suc i) b b' (a ∷ bs) e = let h = total-put f i b b' bs e in omega arith

total-at : (f : Bot → ℕ) (i : ℕ) (b : Bot) (bs : List Bot) → bot_at i bs ≡ some b → f b ≤ total f bs
unfolding total
total-at f i b [] e = cc
total-at f zero b (a ∷ bs) e = rw (some_inj e) (omega arith)
total-at f (suc i) b (a ∷ bs) e = let h = total-at f i b bs e in omega arith

length-put : (i : ℕ) (b : Bot) (bs : List Bot) → length (put i b bs) ≡ length bs
length-put i b [] = refl
length-put zero b (a ∷ bs) = refl
length-put (suc i) b (a ∷ bs) = rw (length-put i b bs) refl

total-is_online : (bs : List Bot) → total is_online bs ≤ length bs
unfolding total
total-is_online [] = omega arith
total-is_online (unborn ∷ bs) = let h = total-is_online bs in omega arith
total-is_online (online t d at ∷ bs) = let h = total-is_online bs in omega arith
total-is_online (gone ∷ bs) = let h = total-is_online bs in omega arith

-- The counter of connections is the number of bots online. What is expected, with what is due, is at
-- most one message for each bot and each message sent; and no more are sent than are numbered.
pub record IsCounted (n : ℕ) (l : Load) : Type 0 where
  pub bots : length l.bots ≡ n
  pub connected : l.counters.connected_count ≡ total is_online l.bots
  expected : l.counters.expected_recv_count + total (due n) l.bots ≤ n * l.counters.msg_sent_count
  sent : l.counters.msg_sent_count + total in_flight l.bots ≤ l.counters.global_msg_seq

moved :
    (n i : ℕ) (l : Load) (b b' : Bot) (c' : Counters)
    → bot_at i l.bots ≡ some b
    → IsStep n b l.counters (b', c')
    → IsCounted n l
    → IsCounted n (record { bots = put i b' l.bots; counters = c' })
unfolding IsStep
moved n i l b b' c' e (conn, exp, snt) h =
    let at = total-at is_online i b l.bots e in
    let few = total-is_online l.bots in
    let t = total-put is_online i b b' l.bots e in
    let d = total-put (due n) i b b' l.bots e in
    let f = total-put in_flight i b b' l.bots e in
    let conn' = conn (omega (arith, h.connected)) in
    let exp' = exp (omega (arith, h.connected, h.bots)) in
    record {
      bots = rw (length-put i b' l.bots) h.bots;
      connected = omega (arith, h.connected);
      expected = omega (arith, h.expected);
      sent = omega (arith, h.sent);
    }

pub step-IsCounted :
    (n i : ℕ) (event : Event) (l l' : Load)
    → step i event l ≡ some l'
    → IsCounted n l
    → IsCounted n l'
unfolding step
step-IsCounted n i event l l' e h = elim (Option-cases (bot_at i l.bots)) [
  | inl k ↦ let e' = rw (k, ◌>>=◌) at e in cc
  | inr (b, k) ↦
      let e' = rw (k, ◌>>=◌) at e in
      elim (Option-cases (act event b l.counters)) [
        | inl a ↦ let e'' = rw (a, ◌>>=◌) at e' in cc
        | inr (r, a) ↦ rw (← some_inj (rw (a, ◌>>=◌) at e')) (
            moved n i l b r.0 r.1 k
              (OnSome_some (IsStep n b l.counters) (act event b l.counters) a
                (act-IsStep n event b l.counters))
              h)
      ]
]

run-IsCounted :
    (n : ℕ) (events : List (ℕ × Event)) (l l' : Load)
    → run events l ≡ some l'
    → IsCounted n l
    → IsCounted n l'
unfolding run
run-IsCounted n [] l l' e h = rw (← some_inj e) h
run-IsCounted n ((i, event) ∷ rest) l l' e h = elim (Option-cases (step i event l)) [
  | inl k ↦ let e' = rw (k, ◌>>=◌) at e in cc
  | inr (m, k) ↦ run-IsCounted n rest m l' (rw (k, ◌>>=◌) at e) (step-IsCounted n i event l m k h)
]

pub unborn_bots :
    (f : Bot → ℕ) (n : ℕ)
    → f unborn ≡ 0
    → (total f (repeat n unborn) ≡ 0) × (length (repeat n unborn) ≡ n)
unfolding total
unborn_bots f zero z = (refl, refl)
unborn_bots f (suc n) z = let h = unborn_bots f n z in (omega arith, omega arith)

pub start-IsCounted : (n : ℕ) → IsCounted n (start n)
start-IsCounted n =
    let conn = unborn_bots is_online n refl in
    let exp = unborn_bots (due n) n refl in
    let snt = unborn_bots in_flight n refl in
    record { bots = conn.1; connected = sym conn.0; expected = omega arith; sent = omega arith }

-- Whatever the bots and their goroutines have done, in any order, the counter of connections is the
-- number of bots online, no more messages are counted as sent than have been numbered, and at most
-- one message is expected for each bot and each message sent.
pub run-counts :
    (n : ℕ) (events : List (ℕ × Event)) (l : Load)
    → run events (start n) ≡ some l
    → (l.counters.connected_count ≡ total is_online l.bots)
      × (l.counters.msg_sent_count ≤ l.counters.global_msg_seq)
      × (l.counters.expected_recv_count ≤ n * l.counters.msg_sent_count)
run-counts n events l e =
    let h = run-IsCounted n events (start n) l e (start-IsCounted n) in
    (h.connected, omega (arith, h.sent), omega (arith, h.expected))
