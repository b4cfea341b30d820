-- ===== src/Ws/Jobs/Refinement/Dispatch.antt =====
-- `dispatch` against its specification: what is written into a pooled slice leaves the other jobs
-- as they were.
use live_stream_danmaku.Base.{
  ℕ, ◌-◌, ◌<◌, ◌≡◌, refl, List, [], ◌∷◌, ltb, length, take_nth, map, map-append, arith, nat_eq,
  Bool-cases, Option-cases, inl, inr, ap, subst, ◌∙◌, sym,
}
use live_stream_danmaku.Dict.Sets.{count}
use live_stream_danmaku.Json.{Bytes}
use live_stream_danmaku.Ws.Slices.{Memory, Slice, make_slice, append_all, read_slice}
use live_stream_danmaku.Ws.Slices.Laws.{append_all-Extends, read_from-eq}
use live_stream_danmaku.Ws.Jobs.{
  broadcast_job_chan_size, Job, Work, Jobs, pool_get, pool_put, enqueue, fill_and_enqueue, dispatch,
  Step, dispatched, started, served, finished, dropped,
}
use live_stream_danmaku.Ws.Jobs.Spec.{
  send_all, Label, sends, begins, sends_to, ends, stays, SpecStep, broadcast, begun, sent, ended,
  same,
}
use live_stream_danmaku.Ws.Jobs.Refinement.{
  job_view, work_view, view, length-map, view_some, view_out, start_job-begin, serve_next-send_one,
  finish_job-end_one,
}
use live_stream_danmaku.Ws.Jobs.Ownership.{
  owners, job_array, work_array, IsOwned, IsLent, pool_get-IsLent,
}
use live_stream_danmaku.Ws.Jobs.Ownership.Steps.{Step-IsOwned}

-- Two memories read alike on the arrays that `f` counts.
abbrev Agree : Memory → Memory → (ℕ → ℕ) → Type 0
Agree mem mem' f = (b : ℕ) → 0 < f b → (j : ℕ) → mem'.cells b j ≡ mem.cells b j

job_views-eq :
    (mem mem' : Memory) (js : List Job)
    → Agree mem mem' (λ b. count b (map job_array js))
    → map (job_view mem') js ≡ map (job_view mem) js
unfolding read_slice
job_views-eq mem mem' [] h = refl
job_views-eq mem mem' (job ∷ js) h = rw (
  job_views-eq mem mem' js (λ b l. h b (unfold count in ground arith)),
  read_from-eq (mem'.cells job.clients.array) (mem.cells job.clients.array) 0 job.clients.len
      (λ j _. h job.clients.array (unfold count in ground arith) j),
)

work_views-eq :
    (mem mem' : Memory) (ws : List Work)
    → Agree mem mem' (λ b. count b (map work_array ws))
    → map (work_view mem') ws ≡ map (work_view mem) ws
work_views-eq mem mem' [] h = refl
work_views-eq mem mem' (w ∷ ws) h = rw (
  work_views-eq mem mem' ws (λ b l. h b (unfold count in ground arith)),
  read_from-eq (mem'.cells w.job.clients.array) (mem.cells w.job.clients.array) w.served
      (w.job.clients.len - w.served)
      (λ j _. h w.job.clients.array (unfold count in ground arith) j),
)

view-eq :
    (q : Jobs) (mem : Memory)
    → Agree q.memory mem (λ b. owners b q)
    → view (record q { memory = mem }) ≡ view q
view-eq q mem h = rw (
  job_views-eq q.memory mem q.job_chan (λ b l. h b (omega arith)),
  work_views-eq q.memory mem q.busy (λ b l. h b (omega arith)),
)

enqueue-send_all :
    (cs : List ℕ) (payload : Bytes) (s : Slice) (q : Jobs)
    → read_slice q.memory s ≡ cs
    → view (enqueue (record { clients = s; payload = payload }) q) ≡ send_all cs payload (view q)
unfolding enqueue send_all pool_put
enqueue-send_all cs payload s q e =
    rw (length-map (job_view q.memory) q.job_chan)
      (elim (Bool-cases (ltb (length q.job_chan) broadcast_job_chan_size)) [
        | inl t ↦ rw (t, map-append (job_view q.memory) q.job_chan, e)
        | inr t ↦ rw t
      ])

fill_and_enqueue-send_all :
    (extra : ℕ → ℕ) (cs : List ℕ) (payload : Bytes) (s : Slice) (q : Jobs)
    → IsLent s q
    → view (fill_and_enqueue extra cs payload s q) ≡ send_all cs payload (view q)
unfolding fill_and_enqueue
fill_and_enqueue-send_all extra cs payload s q v =
    let sm = append_all extra (record s { len = 0 }, q.memory) cs in
    let w = append_all-Extends extra (record s { len = 0 }) q.memory cs v.own in
    enqueue-send_all cs payload sm.0 (record q { memory = sm.1 }) (unfold read_slice in w.reads)
    ∙ ap (send_all cs payload) (
        view-eq q sm.1 (λ b l j.
          w.kept b (ground (arith, v.owned.in_use b))
            (λ e. omega (arith, ap (λ (x : ℕ). owners x q) e, v.alone)) j))

pool_get-view : (pick : ℕ) (q : Jobs) → view (pool_get pick q).1 ≡ view q
unfolding pool_get make_slice read_slice
pool_get-view pick q = elim (Option-cases (take_nth pick q.pool)) [
  | inl e ↦ rw (e, pool_get)
  | inr (sr, e) ↦ rw (e, pool_get)
]

-- From a state with one owner for each array, a broadcast puts exactly the given clients and
-- payload on the queue, or is dropped when the queue is full; every job and every worker keeps
-- the clients that it had.
pub dispatch-send_all :
    (extra : ℕ → ℕ) (pick : ℕ) (cs : List ℕ) (payload : Bytes) (q : Jobs)
    → IsOwned q
    → view (dispatch extra pick cs payload q) ≡ send_all cs payload (view q)
unfolding dispatch
dispatch-send_all extra pick cs payload q v =
    let sq = pool_get pick q in
    fill_and_enqueue-send_all extra cs payload sq.0 sq.1 (pool_get-IsLent pick q v)
    ∙ ap (send_all cs payload) (pool_get-view pick q)

-- What a step of the code shows: the clients and the payload that `dispatch` was called with, and the
-- client and the payload of a send of a worker.
abbrev pub label_of : {extra : ℕ → ℕ} {q q' : Jobs} → Step extra q q' → Label
label_of (dispatched q pick cs payload) = sends cs payload
label_of (started e) = begins
label_of (served k out e) = sends_to out
label_of (finished k e) = ends
label_of (dropped k s rest e) = stays

-- Every step of the broadcast path, from a state with one owner for each array, is on the views the
-- step of the specification that has its label: a broadcast is queued with exactly the clients and
-- the payload that it was called with (or dropped when the queue is full), and a worker sends the
-- job's payload to the first of the job's clients that is left. It keeps one owner for each array.
pub Step-SpecStep :
    {extra : ℕ → ℕ} {q q' : Jobs} (step : Step extra q q')
    → IsOwned q
    → SpecStep (label_of step) (view q) (view q') × IsOwned q'
Step-SpecStep {extra} (dispatched q pick cs payload) v = (
  subst (SpecStep (sends cs payload) (view q)) (sym (dispatch-send_all extra pick cs payload q v))
      (broadcast (view q) cs payload),
  Step-IsOwned {extra = extra} (dispatched q pick cs payload) v,
)
Step-SpecStep {extra} {q} (started e) v =
    (begun (sym (start_job-begin q) ∙ ap view_some e), Step-IsOwned {extra = extra} (started e) v)
Step-SpecStep {extra} {q} (served k out e) v = (
  sent k (sym (serve_next-send_one k q) ∙ ap view_out e),
  Step-IsOwned {extra = extra} (served k out e) v,
)
Step-SpecStep {extra} {q} (finished k e) v = (
  ended k (sym (finish_job-end_one k q) ∙ ap view_some e),
  Step-IsOwned {extra = extra} (finished k e) v,
)
Step-SpecStep {extra} (dropped k s rest e) v =
    (same, Step-IsOwned {extra = extra} (dropped k s rest e) v)
