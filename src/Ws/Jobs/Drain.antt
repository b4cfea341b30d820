-- ===== src/Ws/Jobs/Drain.antt =====
-- The workers on their own: how long they run, and that they never wait for one another.
use live_stream_danmaku.Base.{
  ℕ, zero, suc, ◌+◌, ◌≡◌, ◌⊎◌, refl, sym, ap, ◌∙◌, List, [], ◌∷◌, Option, none, some, ltb, length,
  take_nth, push_rest, arith, OnSome, OnSome_some, Bool-cases, Option-cases, inl, inr,
}
use live_stream_danmaku.Json.{Bytes, ◌>>=◌}
use live_stream_danmaku.Ws.Jobs.{
  Jobs, Job, Work, worker_count, take_job, start_job, serve, serve_next, finish, finish_job,
}
use live_stream_danmaku.Ws.Jobs.Spec.{Sending, Fanout, begin, begin_first, send_one, end_one}
use live_stream_danmaku.Ws.Jobs.Refinement.{
  view, view_some, view_out, start_job-begin, serve_next-send_one, finish_job-end_one,
}

-- The rounds that a list of broadcasts takes: one for each client, and `extra` more for each.
abbrev pub rounds_of : ℕ → List Sending → ℕ
rounds_of extra [] = 0
rounds_of extra (s ∷ ss) = extra + length s.0 + rounds_of extra ss

-- A job that waits is still to be taken, served and finished, one with a worker to be served and finished.
abbrev pub rounds : Fanout → ℕ
rounds a = rounds_of 2 a.queue + rounds_of 1 a.active

push_rounds :
    (x : Sending) (n : ℕ) (o : Option (Sending × List Sending))
    → OnSome (λ yr. n ≡ 1 + length yr.0.0 + rounds_of 1 yr.1) o
    → OnSome (λ yr. 1 + length x.0 + n ≡ 1 + length yr.0.0 + rounds_of 1 yr.1) (push_rest x o)
push_rounds x n none h = tt
push_rounds x n (some (y, rest)) h = omega (arith, h)

take_nth-rounds :
    (i : ℕ) (ss : List Sending)
    → OnSome (λ yr. rounds_of 1 ss ≡ 1 + length yr.0.0 + rounds_of 1 yr.1) (take_nth i ss)
unfolding take_nth
take_nth-rounds i [] = tt
take_nth-rounds zero (s ∷ ss) = refl
take_nth-rounds (suc i) (s ∷ ss) =
    push_rounds s (rounds_of 1 ss) (take_nth i ss) (take_nth-rounds i ss)

-- Each step of a worker is one round.
begin-rounds :
    (q : List Sending) (a : Fanout)
    → a.queue ≡ q
    → OnSome (λ b. rounds a ≡ suc (rounds b)) (begin_first q a)
unfolding begin_first
begin-rounds [] a e = tt
begin-rounds (s ∷ rest) a e = elim (Bool-cases (ltb (length a.active) worker_count)) [
  | inl h ↦ rw (h, e) (omega arith)
  | inr h ↦ rw h tt
]

send_one-rounds : (i : ℕ) (a : Fanout) → OnSome (λ r. rounds a ≡ suc (rounds r.1)) (send_one i a)
unfolding send_one
send_one-rounds i a = elim (Option-cases (take_nth i a.active)) [
  | inl e ↦ rw (e, ◌>>=◌) tt
  | inr (((([]), payload), rest), e) ↦ rw (e, ◌>>=◌) tt
  | inr ((((c ∷ cs), payload), rest), e) ↦
      let h =
        OnSome_some (λ yr. rounds_of 1 a.active ≡ 1 + length yr.0.0 + rounds_of 1 yr.1)
          (take_nth i a.active) e (take_nth-rounds i a.active) in
      rw (e, ◌>>=◌) (omega arith)
]

end_one-rounds : (i : ℕ) (a : Fanout) → OnSome (λ b. rounds a ≡ suc (rounds b)) (end_one i a)
unfolding end_one
end_one-rounds i a = elim (Option-cases (take_nth i a.active)) [
  | inl e ↦ rw (e, ◌>>=◌) tt
  | inr (((([]), payload), rest), e) ↦
      let h =
        OnSome_some (λ yr. rounds_of 1 a.active ≡ 1 + length yr.0.0 + rounds_of 1 yr.1)
          (take_nth i a.active) e (take_nth-rounds i a.active) in
      rw (e, ◌>>=◌) (omega arith)
  | inr ((((c ∷ cs), payload), rest), e) ↦ rw (e, ◌>>=◌) tt
]

-- A step of a worker.
pub data WorkerStep : Jobs → Jobs → Type 0 where
  takes : {q q' : Jobs} → start_job q ≡ some q' → WorkerStep q q'
  serves :
      {q q' : Jobs} (i : ℕ) (out : ℕ × Bytes) → serve_next i q ≡ some (out, q') → WorkerStep q q'
  puts : {q q' : Jobs} (i : ℕ) → finish_job i q ≡ some q' → WorkerStep q q'

-- `n` steps of workers.
pub data Run (q : Jobs) : ℕ → Jobs → Type 0 where
  rests : Run q 0 q
  goes : {n : ℕ} {q' q'' : Jobs} → Run q n q' → WorkerStep q' q'' → Run q (suc n) q''

WorkerStep-rounds : {q q' : Jobs} → WorkerStep q q' → rounds (view q) ≡ suc (rounds (view q'))
unfolding begin
WorkerStep-rounds {q} (takes e) =
    OnSome_some (λ b. rounds (view q) ≡ suc (rounds b)) (begin (view q))
      (sym (start_job-begin q) ∙ ap view_some e) (begin-rounds (view q).queue (view q) refl)
WorkerStep-rounds {q} (serves i out e) =
    OnSome_some (λ r. rounds (view q) ≡ suc (rounds r.1)) (send_one i (view q))
      (sym (serve_next-send_one i q) ∙ ap view_out e) (send_one-rounds i (view q))
WorkerStep-rounds {q} (puts i e) =
    OnSome_some (λ b. rounds (view q) ≡ suc (rounds b)) (end_one i (view q))
      (sym (finish_job-end_one i q) ∙ ap view_some e) (end_one-rounds i (view q))

Run-rounds : {q q' : Jobs} {n : ℕ} → Run q n q' → rounds (view q) ≡ n + rounds (view q')
Run-rounds rests = omega arith
Run-rounds (goes r st) = let h = Run-rounds r in let k = WorkerStep-rounds st in omega arith

abbrev IsMoving : Jobs → Type 0
IsMoving q = (q' : Jobs) × WorkerStep q q'

takes_one :
    (job : Job) (rest : List Job) (q : Jobs) → q.job_chan ≡ job ∷ rest → q.busy ≡ [] → IsMoving q
unfolding start_job take_job
takes_one job rest q e f = elim (Option-cases (start_job q)) [
  | inl n ↦ let n' = rw (e, f) at n in cc
  | inr (q', n) ↦ (q', takes n)
]

moves_one : (w : Work) (rest : List Work) (q : Jobs) → q.busy ≡ w ∷ rest → IsMoving q
unfolding serve_next finish_job serve finish take_nth
moves_one w rest q e = elim (Bool-cases (ltb w.served w.job.clients.len)) [
  | inl h ↦ elim (Option-cases (serve_next 0 q)) [
    | inl n ↦ let n' = rw (e, ◌>>=◌) at n in let n'' = rw h at n' in cc
    | inr (r, n) ↦ (r.1, serves 0 r.0 n)
  ]
  | inr h ↦ elim (Option-cases (finish_job 0 q)) [
    | inl n ↦ let n' = rw (e, ◌>>=◌) at n in let n'' = rw h at n' in cc
    | inr (q', n) ↦ (q', puts 0 n)
  ]
]

at_work :
    (js : List Job) (ws : List Work) (q : Jobs)
    → q.job_chan ≡ js
    → q.busy ≡ ws
    → ((q.job_chan ≡ []) × (q.busy ≡ [])) ⊎ IsMoving q
at_work [] [] q j e = inl (j, e)
at_work (job ∷ rest) [] q j e = inr (takes_one job rest q j e)
at_work js (w ∷ rest) q j e = inr (moves_one w rest q e)

-- Nothing is left to do.
abbrev pub IsIdle : Jobs → Type 0
IsIdle q = (q.job_chan ≡ []) × (q.busy ≡ [])

runs_out :
    (k n : ℕ) (q q' : Jobs)
    → Run q n q'
    → rounds (view q') ≡ k
    → (q'' : Jobs) × Run q (n + k) q'' × IsIdle q''
runs_out zero n q q' r e = elim (at_work q'.job_chan q'.busy q' refl refl) [
  | inl h ↦ let c : n + 0 ≡ n = omega arith in (q', rw c r, h)
  | inr (q'', st) ↦ absurd (let h = WorkerStep-rounds st in omega arith)
]
runs_out (suc k) n q q' r e = elim (at_work q'.job_chan q'.busy q' refl refl) [
  | inl h ↦
      let none_left : rounds (view q') ≡ 0 = rw (h.0, h.1) (omega arith) in absurd (omega arith)
  | inr (q'', st) ↦
      let h = WorkerStep-rounds st in
      let c : suc n + k ≡ n + suc k = omega arith in
      rw (← c) (runs_out k (suc n) q q'' (goes r st) (omega arith))
]

-- However the workers have interleaved for some rounds, with no new broadcast, they have done so many of
-- the rounds that the waiting and the active broadcasts take, which are one for each client that is
-- still to be served, two more for a broadcast that waits and one more for an active one. They can
-- always go on until nothing waits and no worker is busy, which is after exactly all these rounds.
pub Run-IsIdle :
    {q q' : Jobs} {n : ℕ}
    → Run q n q'
    → (rounds (view q) ≡ n + rounds (view q'))
      × ((q'' : Jobs) × Run q (rounds (view q)) q'' × IsIdle q'')
Run-IsIdle {q} {q'} {n} r =
    let e = Run-rounds r in (e, rw e (runs_out (rounds (view q')) n q q' r refl))
