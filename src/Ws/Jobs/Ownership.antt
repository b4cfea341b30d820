-- ===== src/Ws/Jobs/Ownership.antt =====
-- Who owns which array: each array of the pool, the queued jobs and the busy workers has one owner.
pub mod Steps
use live_stream_danmaku.Base.{
  ℕ, zero, suc, ◌+◌, ◌≤◌, ◌<◌, ◌≡◌, ◌≢◌, refl, Bool, true, false, List, [], ◌∷◌, ◌++◌, Option, none,
  some, if◌then◌else◌, ltb, length, take_nth, map, arith, OnSome, OnSome_some, nat_eq, ◌==◌,
  Bool-cases, Option-cases, inl, inr, ap, map-append, ℕ_discrete, dec_lt,
}
use live_stream_danmaku.Dict.Sets.{count, count-append, count-take_nth}
use live_stream_danmaku.Json.{Bytes, ◌>>=◌}
use live_stream_danmaku.Ws.Slices.{Memory, Slice, make_slice, append_all, init_client_pool_cap}
use live_stream_danmaku.Ws.Slices.Laws.{Extends, append_all-Extends}
use live_stream_danmaku.Ws.Jobs.{
  broadcast_job_chan_size, worker_count, Job, Work, Jobs, pool_get, pool_put, enqueue,
  fill_and_enqueue, dispatch, take_job, start_job, serve, serve_next, finish, finish_job, Step,
  dispatched, started, served, finished, dropped,
}

abbrev pub slice_array : Slice → ℕ
slice_array s = s.array

abbrev pub job_array : Job → ℕ
job_array j = j.clients.array

abbrev pub work_array : Work → ℕ
work_array w = w.job.clients.array

-- How many of the slices of the state stand on array `a`.
abbrev pub owners : ℕ → Jobs → ℕ
owners a q =
    count a (map slice_array q.pool)
    + count a (map job_array q.job_chan)
    + count a (map work_array q.busy)

pub record IsOwned (q : Jobs) : Type 0 where
  pub unique : (a : ℕ) → owners a q ≤ 1
  pub in_use : (a : ℕ) → q.memory.next ≤ a → owners a q ≡ 0

-- Slice `s` has been taken out of the pool, and stands on an array of its own.
pub record IsLent (s : Slice) (q : Jobs) : Type 0 where
  pub owned : IsOwned q
  pub own : s.array < q.memory.next
  pub alone : owners s.array q ≡ 0

abbrev pub one_if : ℕ → ℕ → ℕ
one_if a b = if a == b then 1 else 0

new_slice-IsLent :
    (n : ℕ) (q : Jobs)
    → IsOwned q
    → IsLent (make_slice n q.memory).0 (record q { memory = (make_slice n q.memory).1 })
unfolding make_slice
new_slice-IsLent n q v = record {
  owned = record { unique = v.unique; in_use = λ a l. v.in_use a (omega arith) };
  own = omega arith;
  alone = v.in_use q.memory.next (omega arith);
}

-- Taking a slice out of the pool takes one owner from its array, and none from another.
owners_taken :
    (pick : ℕ) (q : Jobs) (s : Slice) (rest : List Slice)
    → take_nth pick q.pool ≡ some (s, rest)
    → (a : ℕ) → owners a q ≡ one_if s.array a + owners a (record q { pool = rest })
owners_taken pick q s rest e a =
    let h =
      OnSome_some
        (λ yr.
          count a (map slice_array q.pool) ≡ one_if yr.0.array a + count a (map slice_array yr.1))
        (take_nth pick q.pool) e (count-take_nth slice_array a pick q.pool) in
    omega (arith, h)

pub taken-IsLent :
    (pick : ℕ) (q : Jobs) (s : Slice) (rest : List Slice)
    → take_nth pick q.pool ≡ some (s, rest)
    → IsOwned q
    → IsLent s (record q { pool = rest })
taken-IsLent pick q s rest e v = record {
  owned = record {
    unique = λ a. omega (arith, owners_taken pick q s rest e a, v.unique a);
    in_use = λ a l. omega (arith, owners_taken pick q s rest e a, v.in_use a l);
  };
  own = ground (arith, owners_taken pick q s rest e s.array, v.in_use s.array);
  alone = ground (arith, owners_taken pick q s rest e s.array, v.unique s.array);
}

pub pool_get-IsLent :
    (pick : ℕ) (q : Jobs) → IsOwned q → IsLent (pool_get pick q).0 (pool_get pick q).1
unfolding pool_get
pool_get-IsLent pick q v = elim (Option-cases (take_nth pick q.pool)) [
  | inl e ↦ rw (e, pool_get) (new_slice-IsLent init_client_pool_cap q v)
  | inr (sr, e) ↦ rw (e, pool_get) (taken-IsLent pick q sr.0 sr.1 e v)
]

-- The array that `append` ends on has no other owner: it is the slice's own or a new one.
filled-IsLent :
    (extra : ℕ → ℕ) (cs : List ℕ) (s : Slice) (q : Jobs)
    → IsLent s q
    → let sm = append_all extra (record s { len = 0 }, q.memory) cs in
      IsLent sm.0 (record q { memory = sm.1 })
filled-IsLent extra cs s q v =
    let sm = append_all extra (record s { len = 0 }, q.memory) cs in
    let w = append_all-Extends extra (record s { len = 0 }) q.memory cs v.own in
    record {
      owned = record {
        unique = v.owned.unique;
        in_use = λ a l. v.owned.in_use a (omega (arith, w.grows));
      };
      own = w.live;
      alone = elim (ℕ_discrete sm.0.array s.array) [
        | yes e ↦ rw e v.alone
        | no n ↦ elim (dec_lt sm.0.array q.memory.next) [
          | yes l ↦ absurd (w.apart sm.0.array l n refl)
          | no l ↦ v.owned.in_use sm.0.array (omega arith)
        ]
      ];
    }

put-IsOwned : (s : Slice) (q : Jobs) → IsLent s q → IsOwned (pool_put s q)
unfolding pool_put count
put-IsOwned s q v = record {
  unique = λ a. ground (arith, v.owned.unique a, v.alone);
  in_use = λ a l. ground (arith, v.owned.in_use a, v.own);
}

owners_queued :
    (job : Job) (q : Jobs) (a : ℕ)
    → owners a (record q { job_chan = q.job_chan ++ job ∷ [] })
      ≡ one_if job.clients.array a + owners a q
unfolding count
owners_queued job q a =
    rw (map-append job_array q.job_chan (job ∷ []))
      (ground (arith, count-append a (map job_array q.job_chan) (job.clients.array ∷ [])))

queued-IsOwned :
    (job : Job) (q : Jobs)
    → IsLent job.clients q
    → IsOwned (record q { job_chan = q.job_chan ++ job ∷ [] })
queued-IsOwned job q v = record {
  unique = λ a. ground (arith, owners_queued job q a, v.owned.unique a, v.alone);
  in_use = λ a l. ground (arith, owners_queued job q a, v.owned.in_use a, v.own);
}

pub enqueue-IsOwned : (job : Job) (q : Jobs) → IsLent job.clients q → IsOwned (enqueue job q)
unfolding enqueue
enqueue-IsOwned job q v = elim (Bool-cases (ltb (length q.job_chan) broadcast_job_chan_size)) [
  | inl e ↦ rw e (queued-IsOwned job q v)
  | inr e ↦ rw e (put-IsOwned job.clients q v)
]

pub dispatch-IsOwned :
    (extra : ℕ → ℕ) (pick : ℕ) (cs : List ℕ) (payload : Bytes) (q : Jobs)
    → IsOwned q
    → IsOwned (dispatch extra pick cs payload q)
unfolding dispatch fill_and_enqueue
dispatch-IsOwned extra pick cs payload q v =
    enqueue-IsOwned _ _
      (filled-IsLent extra cs (pool_get pick q).0 (pool_get pick q).1 (pool_get-IsLent pick q v))
