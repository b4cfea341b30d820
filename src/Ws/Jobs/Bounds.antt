-- ===== src/Ws/Jobs/Bounds.antt =====
-- The channel and the workers behind a broadcast: how much can be waiting.
use live_stream_danmaku.Base.{
  ℕ, suc, ◌≡◌, ◌≤◌, refl, List, [], ◌∷◌, some, ltb, length, length-append, take_nth,
  length-take_nth, arith, OnSome, OnSome_some, Bool-cases, Option-cases, inl, inr,
}
use live_stream_danmaku.Json.{Bytes, ◌>>=◌}
use live_stream_danmaku.Ws.Jobs.{
  broadcast_job_chan_size, worker_count, Job, Work, Jobs, pool_get, pool_put, enqueue,
  fill_and_enqueue, dispatch, take_job, start_job, serve, serve_next, finish, finish_job,
}

-- The job channel and the workers are within their numbers.
pub record IsWithin (q : Jobs) : Type 0 where
  pub queued : length q.job_chan ≤ broadcast_job_chan_size
  pub workers : length q.busy ≤ worker_count

enqueue-IsWithin : (job : Job) (q : Jobs) → IsWithin q → IsWithin (enqueue job q)
unfolding enqueue pool_put
enqueue-IsWithin job q v = ground (arith, length-append q.job_chan (job ∷ []))

pool_get-IsWithin : (pick : ℕ) (q : Jobs) → IsWithin q → IsWithin (pool_get pick q).1
unfolding pool_get
pool_get-IsWithin pick q v = elim (Option-cases (take_nth pick q.pool)) [
  | inl e ↦ rw (e, pool_get) (record { queued = v.queued; workers = v.workers })
  | inr (sr, e) ↦ rw (e, pool_get) (record { queued = v.queued; workers = v.workers })
]

pub dispatch-IsWithin :
    (extra : ℕ → ℕ) (pick : ℕ) (cs : List ℕ) (payload : Bytes) (q : Jobs)
    → IsWithin q
    → IsWithin (dispatch extra pick cs payload q)
unfolding dispatch fill_and_enqueue
dispatch-IsWithin extra pick cs payload q v =
    let w = pool_get-IsWithin pick q v in
    enqueue-IsWithin _ _ (record { queued = w.queued; workers = w.workers })

take_job-IsWithin :
    (js : List Job) (q : Jobs) → q.job_chan ≡ js → IsWithin q → OnSome IsWithin (take_job js q)
unfolding take_job
take_job-IsWithin [] q e v = tt
take_job-IsWithin (job ∷ rest) q e v =
    let fits = rw e at v.queued in
    elim (Bool-cases (ltb (length q.busy) worker_count)) [
      | inl t ↦ rw t (record { queued = omega arith; workers = ground arith })
      | inr t ↦ rw t tt
    ]

pub start_job-IsWithin : (q : Jobs) → IsWithin q → OnSome IsWithin (start_job q)
unfolding start_job
start_job-IsWithin q v = take_job-IsWithin q.job_chan q refl v

one_less :
    (k : ℕ) (q : Jobs) (w : Work) (rest : List Work)
    → take_nth k q.busy ≡ some (w, rest)
    → length q.busy ≡ suc (length rest)
one_less k q w rest e =
    OnSome_some (λ yr. length q.busy ≡ suc (length yr.1)) (take_nth k q.busy) e
      (length-take_nth k q.busy)

serve-IsWithin :
    (k : ℕ) (q : Jobs) (w : Work) (rest : List Work)
    → take_nth k q.busy ≡ some (w, rest)
    → IsWithin q
    → OnSome (λ r. IsWithin r.1) (serve q (w, rest))
unfolding serve
serve-IsWithin k q w rest e v = elim (Bool-cases (ltb w.served w.job.clients.len)) [
  | inl t ↦
      rw t (record { queued = v.queued; workers = omega (arith, v.workers, one_less k q w rest e) })
  | inr t ↦ rw t tt
]

pub serve_next-IsWithin :
    (k : ℕ) (q : Jobs) → IsWithin q → OnSome (λ r. IsWithin r.1) (serve_next k q)
unfolding serve_next
serve_next-IsWithin k q v = elim (Option-cases (take_nth k q.busy)) [
  | inl e ↦ rw (e, ◌>>=◌) tt
  | inr (wr, e) ↦ rw (e, ◌>>=◌) (serve-IsWithin k q wr.0 wr.1 e v)
]

finish-IsWithin :
    (k : ℕ) (q : Jobs) (w : Work) (rest : List Work)
    → take_nth k q.busy ≡ some (w, rest)
    → IsWithin q
    → OnSome IsWithin (finish q (w, rest))
unfolding finish pool_put
finish-IsWithin k q w rest e v = elim (Bool-cases (ltb w.served w.job.clients.len)) [
  | inl t ↦ rw t tt
  | inr t ↦
      rw t (record { queued = v.queued; workers = omega (arith, v.workers, one_less k q w rest e) })
]

pub finish_job-IsWithin : (k : ℕ) (q : Jobs) → IsWithin q → OnSome IsWithin (finish_job k q)
unfolding finish_job
finish_job-IsWithin k q v = elim (Option-cases (take_nth k q.busy)) [
  | inl e ↦ rw (e, ◌>>=◌) tt
  | inr (wr, e) ↦ rw (e, ◌>>=◌) (finish-IsWithin k q wr.0 wr.1 e v)
]
