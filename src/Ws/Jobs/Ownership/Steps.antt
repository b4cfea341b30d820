-- ===== src/Ws/Jobs/Ownership/Steps.antt =====
-- Every step of the broadcast path keeps one owner for each array.
use live_stream_danmaku.Base.{
  ℕ, ◌+◌, ◌≡◌, refl, List, [], ◌∷◌, some, ltb, length, take_nth, map, arith, OnSome, OnSome_some,
  nat_eq, Bool-cases, Option-cases, inl, inr, ap,
}
use live_stream_danmaku.Dict.Sets.{count, count-take_nth}
use live_stream_danmaku.Json.{◌>>=◌}
use live_stream_danmaku.Ws.Slices.{Memory}
use live_stream_danmaku.Ws.Jobs.Ownership.{
  work_array, owners, one_if, IsOwned, dispatch-IsOwned, taken-IsLent,
}
use live_stream_danmaku.Ws.Jobs.{
  worker_count, Job, Work, Jobs, pool_put, take_job, start_job, serve, serve_next, finish,
  finish_job, Step, dispatched, started, served, finished, dropped,
}

-- A state with the same owners and memory is as good.
same-IsOwned :
    (q : Jobs) {q' : Jobs}
    → q'.memory ≡ q.memory
    → ((a : ℕ) → owners a q' ≡ owners a q)
    → IsOwned q
    → IsOwned q'
same-IsOwned q m o v = record {
  unique = λ a. omega (arith, o a, v.unique a);
  in_use = λ a l. omega (arith, o a, v.in_use a (omega (arith, ap (λ (x : Memory). x.next) m)));
}

take_job-IsOwned :
    (js : List Job) (q : Jobs) → q.job_chan ≡ js → IsOwned q → OnSome IsOwned (take_job js q)
unfolding take_job
take_job-IsOwned [] q e v = tt
take_job-IsOwned (job ∷ rest) q e v = elim (Bool-cases (ltb (length q.busy) worker_count)) [
  | inl t ↦ rw t (same-IsOwned q refl (λ a. unfold count in rw e (ground arith)) v)
  | inr t ↦ rw t tt
]

pub start_job-IsOwned : (q : Jobs) → IsOwned q → OnSome IsOwned (start_job q)
unfolding start_job
start_job-IsOwned q v = take_job-IsOwned q.job_chan q refl v

-- Worker `k` is taken out of `busy`.
owners_worker :
    (k : ℕ) (q : Jobs) (w : Work) (rest : List Work)
    → take_nth k q.busy ≡ some (w, rest)
    → (a : ℕ) → owners a q ≡ one_if (work_array w) a + owners a (record q { busy = rest })
owners_worker k q w rest e a =
    let h =
      OnSome_some
        (λ yr.
          count a (map work_array q.busy)
          ≡ one_if (work_array yr.0) a + count a (map work_array yr.1))
        (take_nth k q.busy) e (count-take_nth work_array a k q.busy) in
    omega (arith, h)

serve-IsOwned :
    (k : ℕ) (q : Jobs) (w : Work) (rest : List Work)
    → take_nth k q.busy ≡ some (w, rest)
    → IsOwned q
    → OnSome (λ r. IsOwned r.1) (serve q (w, rest))
unfolding serve
serve-IsOwned k q w rest e v = elim (Bool-cases (ltb w.served w.job.clients.len)) [
  | inl t ↦
      rw t
        (same-IsOwned q refl (λ a. unfold count in ground (arith, owners_worker k q w rest e a)) v)
  | inr t ↦ rw t tt
]

pub serve_next-IsOwned : (k : ℕ) (q : Jobs) → IsOwned q → OnSome (λ r. IsOwned r.1) (serve_next k q)
unfolding serve_next
serve_next-IsOwned k q v = elim (Option-cases (take_nth k q.busy)) [
  | inl e ↦ rw (e, ◌>>=◌) tt
  | inr (wr, e) ↦ rw (e, ◌>>=◌) (serve-IsOwned k q wr.0 wr.1 e v)
]

finish-IsOwned :
    (k : ℕ) (q : Jobs) (w : Work) (rest : List Work)
    → take_nth k q.busy ≡ some (w, rest)
    → IsOwned q
    → OnSome IsOwned (finish q (w, rest))
unfolding finish pool_put
finish-IsOwned k q w rest e v = elim (Bool-cases (ltb w.served w.job.clients.len)) [
  | inl t ↦ rw t tt
  | inr t ↦
      rw t
        (same-IsOwned q refl (λ a. unfold count in ground (arith, owners_worker k q w rest e a)) v)
]

pub finish_job-IsOwned : (k : ℕ) (q : Jobs) → IsOwned q → OnSome IsOwned (finish_job k q)
unfolding finish_job
finish_job-IsOwned k q v = elim (Option-cases (take_nth k q.busy)) [
  | inl e ↦ rw (e, ◌>>=◌) tt
  | inr (wr, e) ↦ rw (e, ◌>>=◌) (finish-IsOwned k q wr.0 wr.1 e v)
]

-- Ownership is kept by every step.
pub Step-IsOwned : {extra : ℕ → ℕ} {q q' : Jobs} → Step extra q q' → IsOwned q → IsOwned q'
Step-IsOwned {extra} (dispatched q pick cs payload) v = dispatch-IsOwned extra pick cs payload q v
Step-IsOwned {q = q} (started e) v = OnSome_some IsOwned (start_job q) e (start_job-IsOwned q v)
Step-IsOwned {q = q} (served k out e) v =
    OnSome_some (λ r. IsOwned r.1) (serve_next k q) e (serve_next-IsOwned k q v)
Step-IsOwned {q = q} (finished k e) v =
    OnSome_some IsOwned (finish_job k q) e (finish_job-IsOwned k q v)
Step-IsOwned {q = q} (dropped k s rest e) v = (taken-IsLent k q s rest e v).owned
