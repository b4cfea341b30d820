-- ===== src/Ws/Jobs.antt =====
-- internal/ws/manager.go, the broadcast path behind the rooms: `broadcastToLocalClients` fills a
-- pooled slice and puts a job on `broadcastJobChan`; a `broadcastWorker` takes the job, sends to
-- one client after the other, and gives the slice back to the pool.
pub mod Spec
pub mod Ownership
pub mod Refinement
pub mod Bounds
pub mod Drain
use live_stream_danmaku.Base.{
  ℕ, zero, suc, ◌+◌, ◌≡◌, Bool, true, false, List, [], ◌∷◌, ◌++◌, Option, none, some, if◌then◌else◌,
  ltb, length, take_nth, map,
}
use live_stream_danmaku.Json.{Bytes, ◌>>=◌}
use live_stream_danmaku.Ws.Slices.{Slice, Memory, make_slice, append_all, init_client_pool_cap}

abbrev pub broadcast_job_chan_size : ℕ
broadcast_job_chan_size = 1000

abbrev pub worker_count : ℕ
worker_count = 100

-- `BroadcastJob`
pub record Job : Type 0 where
  pub clients : Slice
  pub payload : Bytes

-- A worker inside its inner loop: the job, and how many clients it has served.
pub record Work : Type 0 where
  pub job : Job
  pub served : ℕ

pub record Jobs : Type 0 where
  pub memory : Memory
  pub pool : List Slice
  pub job_chan : List Job
  pub busy : List Work

-- `clientPool.Get()`: any slice that was put back, or a new one (`pick` is past the end).
pub pool_get : ℕ → Jobs → Slice × Jobs
pool_get pick q = elim (take_nth pick q.pool) [
  | none ↦ let sm = make_slice init_client_pool_cap q.memory in (sm.0, record q { memory = sm.1 })
  | some (s, rest) ↦ (s, record q { pool = rest })
]

-- `clientPool.Put(s)`
pub pool_put : Slice → Jobs → Jobs
pool_put s q = record q { pool = s ∷ q.pool }

-- The `select` that hands the job over, or drops it and gives its slice back.
pub enqueue : Job → Jobs → Jobs
unfolding pool_put
enqueue job q =
    if ltb (length q.job_chan) broadcast_job_chan_size
    then record q { job_chan = q.job_chan ++ job ∷ [] }
    else pool_put job.clients q

-- `targetClients[:0]`, the `append`s, and the dispatch.
pub fill_and_enqueue : (ℕ → ℕ) → List ℕ → Bytes → Slice → Jobs → Jobs
unfolding enqueue
fill_and_enqueue extra targets payload s q =
    let sm = append_all extra (record s { len = 0 }, q.memory) targets in
    enqueue (record { clients = sm.0; payload = payload }) (record q { memory = sm.1 })

-- `broadcastToLocalClients`, from the point where it has found the room's clients.
unfoldable pub dispatch : (ℕ → ℕ) → ℕ → List ℕ → Bytes → Jobs → Jobs
unfolding pool_get fill_and_enqueue
dispatch extra pick targets payload q =
    let sq = pool_get pick q in fill_and_enqueue extra targets payload sq.0 sq.1

-- `job := <-m.broadcastJobChan` in a worker that is free.
pub take_job : List Job → Jobs → Option Jobs
take_job [] q = none
take_job (job ∷ rest) q =
    if ltb (length q.busy) worker_count
    then some (record q { job_chan = rest; busy = record { job = job; served = 0 } ∷ q.busy })
    else none

unfoldable pub start_job : Jobs → Option Jobs
unfolding take_job
start_job q = take_job q.job_chan q

-- One round of the inner loop of worker `k`: the client whose turn it is, and the payload for it.
pub serve : Jobs → Work × List Work → Option ((ℕ × Bytes) × Jobs)
serve q (w, rest) =
    if ltb w.served w.job.clients.len
    then some (
      (q.memory.cells w.job.clients.array w.served, w.job.payload),
      record q { busy = record w { served = suc w.served } ∷ rest },
    )
    else none

unfoldable pub serve_next : ℕ → Jobs → Option ((ℕ × Bytes) × Jobs)
unfolding serve
serve_next k q = take_nth k q.busy >>= λ w. serve q w

-- Worker `k` after its inner loop: the slice goes back to the pool.
pub finish : Jobs → Work × List Work → Option Jobs
unfolding pool_put
finish q (w, rest) =
    if ltb w.served w.job.clients.len
    then none
    else some (pool_put w.job.clients (record q { busy = rest }))

unfoldable pub finish_job : ℕ → Jobs → Option Jobs
unfolding finish
finish_job k q = take_nth k q.busy >>= λ w. finish q w

pub data Step (extra : ℕ → ℕ) : Jobs → Jobs → Type 0 where
  dispatched :
      (q : Jobs) (pick : ℕ) (targets : List ℕ) (payload : Bytes)
      → Step extra q (dispatch extra pick targets payload q)
  started : {q q' : Jobs} → start_job q ≡ some q' → Step extra q q'
  served :
      {q q' : Jobs} (k : ℕ) (out : ℕ × Bytes) → serve_next k q ≡ some (out, q') → Step extra q q'
  finished : {q q' : Jobs} (k : ℕ) → finish_job k q ≡ some q' → Step extra q q'
  dropped :
      {q : Jobs} (k : ℕ) (s : Slice) (rest : List Slice)
      → take_nth k q.pool ≡ some (s, rest)
      → Step extra q (record q { pool = rest })
