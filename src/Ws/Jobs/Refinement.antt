-- ===== src/Ws/Jobs/Refinement.antt =====
-- The broadcast path refines its specification: with one owner for each array, a job reads the
-- clients that it was dispatched to, whatever has been done with the pool since.
pub mod Dispatch
use live_stream_danmaku.Base.{
  ℕ, zero, suc, ◌+◌, ◌-◌, ◌≤◌, ◌<◌, ◌≡◌, ◌≢◌, refl, Bool, true, false, List, [], ◌∷◌, ◌++◌, Option,
  none, some, if◌then◌else◌, ltb, length, take_nth, take_nth-map, map_taken, map, map-append, arith,
  OnSome, OnSome_some, nat_eq, ◌==◌, Bool-cases, Option-cases, inl, inr, ap, ◌∙◌, sym, lt→ltb,
  ltb→lt,
}
use live_stream_danmaku.Dict.Sets.{count, count-append, count-take_nth}
use live_stream_danmaku.Json.{Bytes, ◌>>=◌}
use live_stream_danmaku.Ws.Slices.{
  Memory, Slice, make_slice, append_all, read_slice, read_from, init_client_pool_cap,
}
use live_stream_danmaku.Ws.Slices.Laws.{Extends, append_all-Extends, read_from-eq}
use live_stream_danmaku.Ws.Jobs.{
  broadcast_job_chan_size, worker_count, Job, Work, Jobs, pool_get, pool_put, enqueue,
  fill_and_enqueue, dispatch, take_job, start_job, serve, serve_next, finish, finish_job, Step,
  dispatched, started, served, finished, dropped,
}
use live_stream_danmaku.Ws.Jobs.Spec.{
  Sending, Fanout, send_all, begin, begin_first, send_one, send_first, end_one, end_empty, SpecStep,
  sends, begins, sent, ended, stays,
}
use live_stream_danmaku.Ws.Jobs.Ownership.{
  owners, job_array, work_array, slice_array, one_if, IsOwned, IsLent, pool_get-IsLent,
}
use live_stream_danmaku.Ws.Jobs.Ownership.Steps.{Step-IsOwned}

-- The clients that a job still has to be sent to, from index `i` on.
abbrev pub targets_from : Memory → Slice → ℕ → List ℕ
targets_from mem s i = read_from (mem.cells s.array) i (s.len - i)

abbrev pub job_view : Memory → Job → Sending
job_view mem j = (read_slice mem j.clients, j.payload)

abbrev pub work_view : Memory → Work → Sending
work_view mem w = (targets_from mem w.job.clients w.served, w.job.payload)

abbrev pub view : Jobs → Fanout
view q = record {
  queue = map (job_view q.memory) q.job_chan;
  active = map (work_view q.memory) q.busy;
}

pub length-map {ℓ κ} :
    {A : Type ℓ} {B : Type κ} (f : A → B) (xs : List A) → length (map f xs) ≡ length xs
length-map f [] = refl
length-map f (x ∷ xs) = ap suc (length-map f xs)

abbrev pub view_some : Option Jobs → Option Fanout
view_some none = none
view_some (some q) = some (view q)

abbrev pub view_out : Option ((ℕ × Bytes) × Jobs) → Option ((ℕ × Bytes) × Fanout)
view_out none = none
view_out (some (o, q)) = some (o, view q)

take_job-begin_first :
    (js : List Job) (q : Jobs)
    → view_some (take_job js q) ≡ begin_first (map (job_view q.memory) js) (view q)
unfolding take_job begin_first read_slice
take_job-begin_first [] q = refl
take_job-begin_first (job ∷ rest) q =
    let z : job.clients.len - 0 ≡ job.clients.len = omega arith in
    rw (length-map (work_view q.memory) q.busy)
      (elim (Bool-cases (ltb (length q.busy) worker_count)) [
        | inl e ↦ rw (e, take_job) (rw z)
        | inr e ↦ rw (e, take_job)
      ])

pub start_job-begin : (q : Jobs) → view_some (start_job q) ≡ begin (view q)
unfolding start_job begin
start_job-begin q = take_job-begin_first q.job_chan q

targets_left :
    (mem : Memory) (s : Slice) (i : ℕ)
    → i < s.len
    → targets_from mem s i ≡ mem.cells s.array i ∷ targets_from mem s (suc i)
unfolding read_from
targets_left mem s i h = let e : s.len - i ≡ suc (s.len - suc i) = omega arith in rw e

targets_done : (mem : Memory) (s : Slice) (i : ℕ) → s.len ≤ i → targets_from mem s i ≡ []
unfolding read_from
targets_done mem s i h = let e : s.len - i ≡ 0 = omega arith in rw e

serve-send_first :
    (q : Jobs) (w : Work) (rest : List Work)
    → view_out (serve q (w, rest))
      ≡ send_first (work_view q.memory w, map (work_view q.memory) rest) (view q)
unfolding serve
serve-send_first q w rest = elim (Bool-cases (ltb w.served w.job.clients.len)) [
  | inl e ↦ rw (e, targets_left q.memory w.job.clients w.served (ltb→lt _ _ e))
  | inr e ↦ rw (e, targets_done q.memory w.job.clients w.served (ground arith))
]

finish-end_empty :
    (q : Jobs) (w : Work) (rest : List Work)
    → view_some (finish q (w, rest))
      ≡ end_empty (work_view q.memory w, map (work_view q.memory) rest) (view q)
unfolding finish pool_put
finish-end_empty q w rest = elim (Bool-cases (ltb w.served w.job.clients.len)) [
  | inl e ↦ rw (e, targets_left q.memory w.job.clients w.served (ltb→lt _ _ e))
  | inr e ↦ rw (e, targets_done q.memory w.job.clients w.served (ground arith))
]

pub serve_next-send_one : (k : ℕ) (q : Jobs) → view_out (serve_next k q) ≡ send_one k (view q)
unfolding serve_next send_one
serve_next-send_one k q =
    rw (take_nth-map (work_view q.memory) k q.busy) (elim (Option-cases (take_nth k q.busy)) [
      | inl e ↦ rw (e, ◌>>=◌)
      | inr (wr, e) ↦ rw (e, ◌>>=◌) (serve-send_first q wr.0 wr.1)
    ])

pub finish_job-end_one : (k : ℕ) (q : Jobs) → view_some (finish_job k q) ≡ end_one k (view q)
unfolding finish_job end_one
finish_job-end_one k q =
    rw (take_nth-map (work_view q.memory) k q.busy) (elim (Option-cases (take_nth k q.busy)) [
      | inl e ↦ rw (e, ◌>>=◌)
      | inr (wr, e) ↦ rw (e, ◌>>=◌) (finish-end_empty q wr.0 wr.1)
    ])
