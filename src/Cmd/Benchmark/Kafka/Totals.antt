-- ===== src/Cmd/Benchmark/Kafka/Totals.antt =====
-- cmd/benchmark/kafka/kafka.go: how many messages the workers send, and what they are to the consumer.
use live_stream_danmaku.Base.{
  ℕ, zero, repeat, suc, ◌+◌, ◌*◌, ◌≡◌, ◌⊎◌, refl, List, [], ◌∷◌, some, arith, Option-cases, inl,
  inr, some_inj, length, length-append, All, All-append,
}
use live_stream_danmaku.Json.{Bytes, ◌>>=◌}
use live_stream_danmaku.Cmd.Benchmark.Kafka.{
  Load, start, count_round, send_danmaku, work, work_all, rounds_left, kafka_topic, goroutines,
  msgs_per_worker,
}

rounds_left-repeat : (n k : ℕ) → rounds_left (repeat n k) ≡ n * k
unfolding rounds_left
rounds_left-repeat zero k = omega arith
rounds_left-repeat (suc n) k = rw (rounds_left-repeat n k) (omega arith)

count_round-rounds_left :
    (i : ℕ) (left left' : List ℕ)
    → count_round i left ≡ some left'
    → rounds_left left ≡ rounds_left left' + 1
unfolding count_round rounds_left
count_round-rounds_left i [] left' e = cc
count_round-rounds_left zero (zero ∷ left) left' e = cc
count_round-rounds_left zero (suc n ∷ left) left' e = rw (← some_inj e) (omega arith)
count_round-rounds_left (suc i) (n ∷ left) left' e = elim (Option-cases (count_round i left)) [
  | inl k ↦ let e' = rw (k, ◌>>=◌) at e in cc
  | inr (rest, k) ↦
      let same = some_inj (rw (k, ◌>>=◌) at e) in
      rw (← same) (let h = count_round-rounds_left i left rest k in omega arith)
]

-- What has been sent and what is left make up the rounds of all workers, and the input of the
-- producer holds one message for each that was sent, always the same.
abbrev IsCounted : Bytes → Load → Type 0
IsCounted payload l =
    (l.sent_count + rounds_left l.left ≡ goroutines * msgs_per_worker)
    × (length l.input ≡ l.sent_count)
    × All (λ x. x ≡ (kafka_topic, payload)) l.input

start-IsCounted : (payload : Bytes) → IsCounted payload start
start-IsCounted payload =
    let h = rounds_left-repeat goroutines msgs_per_worker in (omega arith, refl, tt)

work-IsCounted :
    (payload : Bytes) (i : ℕ) (l l' : Load)
    → work payload i l ≡ some l'
    → IsCounted payload l
    → IsCounted payload l'
unfolding work send_danmaku
work-IsCounted payload i l l' e (total, sent, same) = elim (Option-cases (count_round i l.left)) [
  | inl k ↦ let e' = rw (k, ◌>>=◌) at e in cc
  | inr (left, k) ↦
      let one_less = count_round-rounds_left i l.left left k in
      let more = length-append l.input ((kafka_topic, payload) ∷ []) in
      rw (← some_inj (rw (k, ◌>>=◌) at e)) (
        omega arith,
        omega arith,
        All-append (λ x. x ≡ (kafka_topic, payload)) l.input ((kafka_topic, payload) ∷ []) same
            (refl, tt),
      )
]

work_all-IsCounted :
    (payload : Bytes) (is : List ℕ) (l l' : Load)
    → work_all payload is l ≡ some l'
    → IsCounted payload l
    → IsCounted payload l'
unfolding work_all
work_all-IsCounted payload [] l l' e h = rw (← some_inj e) h
work_all-IsCounted payload (i ∷ is) l l' e h = elim (Option-cases (work payload i l)) [
  | inl k ↦ let e' = rw (k, ◌>>=◌) at e in cc
  | inr (m, k) ↦
      work_all-IsCounted payload is m l' (rw (k, ◌>>=◌) at e) (work-IsCounted payload i l m k h)
]

-- A worker with a round left can do it.
some_round :
    (left : List ℕ)
    → (rounds_left left ≡ 0) ⊎ ((i : ℕ) × (left' : List ℕ) × (count_round i left ≡ some left'))
unfolding rounds_left count_round
some_round [] = inl refl
some_round (suc n ∷ left) = inr (0, n ∷ left, refl)
some_round (zero ∷ left) = elim (some_round left) [
  | inl none_left ↦ inl (omega arith)
  | inr (i, left', e) ↦ inr (suc i, 0 ∷ left', rw (e, ◌>>=◌) refl)
]

-- In whatever order the workers go, either one of them has a round left and can do it, or they have
-- sent 4999800 messages, not the 5000000 of `TotalMessages`, and each was the payload on the topic.
pub work_all-totals :
    (payload : Bytes) (is : List ℕ) (l : Load)
    → work_all payload is start ≡ some l
    → ((i : ℕ) × (l' : Load) × (work payload i l ≡ some l'))
      ⊎ ((l.sent_count ≡ 4999800)
          × (length l.input ≡ 4999800)
          × All (λ x. x ≡ (kafka_topic, payload)) l.input)
unfolding work
work_all-totals payload is l e =
    let (total, sent, same) = work_all-IsCounted payload is start l e (start-IsCounted payload) in
    elim (some_round l.left) [
      | inl none_left ↦ inr (omega arith, omega arith, same)
      | inr (i, left, k) ↦ inl (
        i,
        record {
          left = left;
          input = send_danmaku kafka_topic payload l.input;
          sent_count = l.sent_count + 1;
        },
        rw (k, ◌>>=◌) refl,
      )
    ]
