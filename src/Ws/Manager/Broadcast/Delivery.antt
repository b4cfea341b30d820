-- ===== src/Ws/Manager/Broadcast/Delivery.antt =====
-- A worker's loop over its job, and a whole broadcast from the room to the clients' buffers.
use live_stream_danmaku.Base.{
  ℕ, zero, suc, ◌≤◌, ◌<◌, ◌≡◌, ◌≢◌, refl, List, [], ◌∷◌, Option, none, some, if◌then◌else◌, nat_eq,
  list_eq, arith, inl, inr, some_inj, ◌∙◌, ap, length, lt→ltb, take_nth,
}
use live_stream_danmaku.Text.{Text}
use live_stream_danmaku.Json.{Bytes, ◌>>=◌}
use live_stream_danmaku.Dict.{lookup}
use live_stream_danmaku.Dict.Sets.{member, count, count_nonmember, member-count}
use live_stream_danmaku.Ws.Client.{Client, safe_send}
use live_stream_danmaku.Ws.Jobs.{Jobs, serve_next, start_job, worker_count}
use live_stream_danmaku.Ws.Jobs.Spec.{Sending, Fanout, send_all, send_one, begin, begin_first}
use live_stream_danmaku.Ws.Jobs.Ownership.{IsOwned}
use live_stream_danmaku.Ws.Jobs.Refinement.{
  view, view_out, view_some, serve_next-send_one, start_job-begin, length-map, work_view,
}
use live_stream_danmaku.Ws.Manager.{Manager, update}
use live_stream_danmaku.Ws.Manager.Registry.{IsWf}
use live_stream_danmaku.Ws.Manager.Registry.Members.{in_room}
use live_stream_danmaku.Ws.Manager.Broadcast.{Choices, broadcast_to_local_clients, work, deliver}
use live_stream_danmaku.Ws.Manager.Broadcast.Laws.{AreClients, broadcast_reaches_room}

-- `n` rounds of the inner loop of one worker, with nothing in between.
unfoldable pub run_worker : ℕ → Manager → Option Manager
run_worker zero m = some m
run_worker (suc n) m = work 0 m >>= λ m'. run_worker n m'

unfoldable pub deliver_all : List ℕ → Bytes → (ℕ → Client) → ℕ → Client
deliver_all [] b f = f
deliver_all (c ∷ cs) b f = deliver_all cs b (update f c (safe_send (f c) b))

view_out-eq_some :
    (x : Option ((ℕ × Bytes) × Jobs)) (o : ℕ × Bytes) (a : Fanout)
    → view_out x ≡ some (o, a)
    → (q : Jobs) × (x ≡ some (o, q)) × (view q ≡ a)
view_out-eq_some none o a e = cc
view_out-eq_some (some (o', q)) o a e = (q, ground arith, ground arith)

send_one_first :
    (c : ℕ) (cs : List ℕ) (b : Bytes) (rest : List Sending) (a : Fanout)
    → a.active ≡ (c ∷ cs, b) ∷ rest
    → send_one 0 a ≡ some ((c, b), record a { active = (cs, b) ∷ rest })
unfolding send_one take_nth
send_one_first c cs b rest a e = rw e

-- The worker at the front of the busy ones takes a step.
work_first :
    (c : ℕ) (cs : List ℕ) (b : Bytes) (rest : List Sending) (m : Manager)
    → (view m.jobs).active ≡ (c ∷ cs, b) ∷ rest
    → (q : Jobs) × (work 0 m
        ≡ some (record m { jobs = q; clients = update m.clients c (safe_send (m.clients c) b) }))
      × (view q ≡ record (view m.jobs) { active = (cs, b) ∷ rest })
unfolding work deliver
work_first c cs b rest m e =
    let (q, s, w) =
      view_out-eq_some (serve_next 0 m.jobs) (c, b)
        (record (view m.jobs) { active = (cs, b) ∷ rest })
        (serve_next-send_one 0 m.jobs ∙ send_one_first c cs b rest (view m.jobs) e) in
    (q, rw (s, ◌>>=◌), w)

-- As many rounds as the job has clients left send the payload to each of them in turn, and change
-- nothing else.
pub run_worker-deliver_all :
    (ts : List ℕ) (b : Bytes) (rest : List Sending) (m : Manager)
    → (view m.jobs).active ≡ (ts, b) ∷ rest
    → (q : Jobs) × (run_worker (length ts) m
        ≡ some (record m { jobs = q; clients = deliver_all ts b m.clients }))
      × (view q ≡ record (view m.jobs) { active = ([], b) ∷ rest })
unfolding run_worker deliver_all
run_worker-deliver_all [] b rest m e =
    (m.jobs, refl, ap (λ (x : List Sending). record (view m.jobs) { active = x }) e)
run_worker-deliver_all (c ∷ cs) b rest m e =
    let (q, s, w) = work_first c cs b rest m e in
    let m' : Manager = record m {
      jobs = q;
      clients = update m.clients c (safe_send (m.clients c) b);
    } in
    let (q', s', w') = run_worker-deliver_all cs b rest m' (ap (λ (a : Fanout). a.active) w) in
    (q', rw (s, ◌>>=◌) s', w' ∙ ap (λ (a : Fanout). record a { active = ([], b) ∷ rest }) w)

-- A job that names nobody twice gives each of its clients the payload once, and others nothing.
pub deliver_all_once :
    (ts : List ℕ) (b : Bytes) (f : ℕ → Client) (j : ℕ)
    → ((k : ℕ) → count k ts ≤ 1)
    → deliver_all ts b f j ≡ (if member j ts then safe_send (f j) b else f j)
unfolding deliver_all member count
deliver_all_once [] b f j h = refl
deliver_all_once (c ∷ cs) b f j h = ground (
  arith,
  deliver_all_once cs b (update f c (safe_send (f c) b)) j (λ k. ground (arith, h k)),
  h c,
  member-count c cs,
)

-- The room's clients get the payload once, nobody else gets it.
delivered :
    (m : Manager) (room : Text) (ts : List ℕ) (b : Bytes)
    → AreClients m room ts
    → (j : ℕ)
    → deliver_all ts b m.clients j
      ≡ (if in_room room j m then safe_send (m.clients j) b else m.clients j)
delivered m room ts b a j =
    deliver_all_once ts b m.clients j (λ k. ground (arith, a k))
    ∙ ground (arith, a j, count_nonmember j ts, member-count j ts)

begin_only :
    (ts : List ℕ) (b : Bytes) (a : Fanout)
    → a.queue ≡ []
    → length a.active < worker_count
    → begin (send_all ts b a) ≡ some (record { queue = []; active = (ts, b) ∷ a.active })
unfolding begin begin_first send_all
begin_only ts b a e h = rw (e, lt→ltb (length a.active) worker_count h)

view_some-eq_some :
    (x : Option Jobs) (a : Fanout) → view_some x ≡ some a → (q : Jobs) × (x ≡ some q) × (view q ≡ a)
view_some-eq_some none a e = cc
view_some-eq_some (some q) a e = (q, refl, some_inj e)

module _ (ch : Choices) (m : Manager) (room : Text) (payload : Bytes) where
  abbrev pub sent : Manager
  sent = broadcast_to_local_clients ch room payload m

  -- The run of one broadcast: a worker takes the job, and serves its clients.
  pub record Fanned (m' : Manager) : Type 0 where
    pub rounds : ℕ
    pub taken : Jobs
    pub starts : start_job sent.jobs ≡ some taken
    pub runs : run_worker rounds (record sent { jobs = taken }) ≡ some m'
    pub gets :
        (j : ℕ)
        → m'.clients j ≡ (if in_room room j m then safe_send (m.clients j) payload else m.clients j)

  fan_out :
      (ts : List ℕ)
      → m.jobs.job_chan ≡ []
      → length m.jobs.busy < worker_count
      → AreClients m room ts
      → view sent.jobs ≡ send_all ts payload (view m.jobs)
      → sent.clients ≡ m.clients
      → (m' : Manager) × Fanned m'
  fan_out ts idle free a w c =
      let (q, s, v) =
        view_some-eq_some (start_job sent.jobs)
          (record { queue = []; active = (ts, payload) ∷ (view m.jobs).active })
          (start_job-begin sent.jobs
            ∙ (ap begin w
                ∙ begin_only ts payload (view m.jobs) (rw idle)
                    (rw (length-map (work_view m.jobs.memory) m.jobs.busy) free))) in
      let (q', r, v') =
        run_worker-deliver_all ts payload (view m.jobs).active (record sent { jobs = q })
          (ap (λ (x : Fanout). x.active) v) in
      (
        record sent { jobs = q'; clients = deliver_all ts payload sent.clients },
        record {
          rounds = length ts;
          taken = q;
          starts = s;
          runs = r;
          gets = λ j. rw c (delivered m room ts payload a j);
        },
      )

  -- In a well-formed state with one owner for each array, with no broadcast waiting and a worker
  -- free, a broadcast to a room that exists can run to its end: a worker takes the job, and after
  -- some rounds the payload has been offered once to the buffer of each client of the room, by
  -- `safeSend`, and to no other client.
  pub fanout_delivers :
      IsWf m
      → IsOwned m.jobs
      → m.jobs.job_chan ≡ []
      → length m.jobs.busy < worker_count
      → lookup room m.rooms ≢ none
      → (m' : Manager) × Fanned m'
  fanout_delivers v o idle free here = elim (broadcast_reaches_room ch m room payload v o) [
    | inl (e, _) ↦ absurd (here e)
    | inr (ts, a, w, c, _) ↦ fan_out ts idle free a w c
  ]
