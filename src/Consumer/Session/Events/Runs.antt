-- ===== src/Consumer/Session/Events/Runs.antt =====
-- internal/consumer/handler.go: what has been stored after any sequence of events.
use live_stream_danmaku.Base.{
  ℕ, ◌≡◌, refl, subst, Bool, ◌&&◌, List, [], ◌∷◌, ◌++◌, Option, none, some, Bool-cases,
  Option-cases, inl, inr, length, leb, ltb, OnSome, OnSome_some, some_inj, All, take_nth,
}
use live_stream_danmaku.Json.{Bytes, ◌>>=◌}
use live_stream_danmaku.Model.{TimeFormat}
use live_stream_danmaku.Repo.{Message, Row, Attempt}
use live_stream_danmaku.Consumer.Flush.{background}
use live_stream_danmaku.Consumer.Flush.Laws.{IsHonest}
use live_stream_danmaku.Consumer.Session.{
  Session, channel_buffer_size, parse_message, offer, consume, mark_message, flush, take_message,
  worker_receive, worker_tick, worker_done,
}
use live_stream_danmaku.Consumer.Session.Events.{
  Event, delivers, marks, receives, ticks, stops, cancels, after_consume, if_ready, run_event,
  run_events,
}
use live_stream_danmaku.Consumer.Session.Events.Saved.{
  IsTruthful, IsSaved, flush-IsSaved, same-IsSaved,
}

take_message-IsSaved :
    (old : List Row) (env : ℕ → Attempt) (q : List Message) (s : Session)
    → IsHonest env
    → IsSaved old s
    → OnSome (IsSaved old) (take_message env q s)
unfolding take_message
take_message-IsSaved old env [] s h v = elim (Bool-cases s.chan_closed) [
  | inl c ↦ rw c (same-IsSaved old (flush env s) _ refl refl (flush-IsSaved old env s h v))
  | inr c ↦ rw c tt
]
take_message-IsSaved old env (m ∷ rest) s h v =
    let s' : Session = record s { msg_chan = rest; buffer = s.buffer ++ m ∷ [] } in
    let w = same-IsSaved old s s' refl refl v in
    elim (Bool-cases (leb s.batch_size (length s'.buffer))) [
      | inl c ↦ rw c (flush-IsSaved old env s' h w)
      | inr c ↦ rw c w
    ]

worker_receive-IsSaved :
    (old : List Row) (env : ℕ → Attempt) (s : Session)
    → IsHonest env
    → IsSaved old s
    → OnSome (IsSaved old) (worker_receive env s)
unfolding worker_receive
worker_receive-IsSaved old env s h v = elim (Bool-cases s.working) [
  | inl w ↦ simp w (take_message-IsSaved old env s.msg_chan s h v)
  | inr w ↦ simp w tt
]

worker_tick-IsSaved :
    (old : List Row) (env : ℕ → Attempt) (s : Session)
    → IsHonest env
    → IsSaved old s
    → OnSome (IsSaved old) (worker_tick env s)
unfolding worker_tick
worker_tick-IsSaved old env s h v = elim (Bool-cases s.working) [
  | inl w ↦ simp w (same-IsSaved old (flush env s) _ refl refl (flush-IsSaved old env s h v))
  | inr w ↦ simp w tt
]

worker_done-IsSaved :
    (old : List Row) (env : ℕ → Attempt) (s : Session)
    → IsHonest env
    → IsSaved old s
    → OnSome (IsSaved old) (worker_done env s)
unfolding worker_done
worker_done-IsSaved old env s h v = elim (Bool-cases (s.working && s.ctx_done)) [
  | inl w ↦ simp w (
      same-IsSaved old (flush (background env) s) _ refl refl (
        flush-IsSaved old (background env) s
          (record { truth = λ i. h.truth i; rows = λ i. h.rows i }) v))
  | inr w ↦ simp w tt
]

offer-IsSaved :
    (old : List Row) (leaves : Bool) (msg : Bytes) (d : Message) (s : Session)
    → IsSaved old s
    → OnSome (IsSaved old) (after_consume s (offer leaves msg d s))
unfolding offer after_consume
offer-IsSaved old leaves msg d s v = elim (Bool-cases (s.ctx_done && leaves)) [
  | inl a ↦ simp a v
  | inr a ↦ elim (Bool-cases s.chan_closed) [
    | inl c ↦ simp (a, c) tt
    | inr c ↦ elim (Bool-cases (ltb (length s.msg_chan) channel_buffer_size)) [
      | inl f ↦ simp (a, c, f) (same-IsSaved old s _ refl refl v)
      | inr f ↦ simp (a, c, f) v
    ]
  ]
]

consume-IsSaved :
    (old : List Row) (format : TimeFormat) (leaves : Bool) (msg : Bytes) (s : Session)
    → IsSaved old s
    → OnSome (IsSaved old) (after_consume s (consume format leaves msg s))
unfolding consume
consume-IsSaved old format leaves msg s v = elim (Option-cases (parse_message format msg)) [
  | inl e ↦ rw (e, consume) (unfold after_consume in same-IsSaved old s _ refl refl v)
  | inr (d, e) ↦ rw (e, consume) (offer-IsSaved old leaves msg d s v)
]

mark_message-IsSaved :
    (old : List Row) (i : ℕ) (s : Session) → IsSaved old s → OnSome (IsSaved old) (mark_message i s)
unfolding mark_message
mark_message-IsSaved old i s v = elim (Option-cases (take_nth i s.unmarked)) [
  | inl e ↦ rw (e, ◌>>=◌) tt
  | inr (msg, e) ↦ rw (e, ◌>>=◌) (same-IsSaved old s _ refl refl v)
]

if_ready-IsSaved :
    (old : List Row) (s : Session) (o : Option Session)
    → IsSaved old s
    → OnSome (IsSaved old) o
    → IsSaved old (if_ready s o)
unfolding if_ready
if_ready-IsSaved old s none v h = v
if_ready-IsSaved old s (some s') v h = h

run_event-IsSaved :
    (old : List Row) (format : TimeFormat) (e : Event) (s : Session)
    → IsTruthful e
    → IsSaved old s
    → OnSome (IsSaved old) (run_event format e s)
unfolding run_event
run_event-IsSaved old format (delivers leaves msg) s h v = consume-IsSaved old format leaves msg s v
run_event-IsSaved old format (marks i) s h v =
    if_ready-IsSaved old s (mark_message i s) v (mark_message-IsSaved old i s v)
run_event-IsSaved old format (receives env) s h v =
    if_ready-IsSaved old s (worker_receive env s) v (worker_receive-IsSaved old env s h v)
run_event-IsSaved old format (ticks env) s h v =
    if_ready-IsSaved old s (worker_tick env s) v (worker_tick-IsSaved old env s h v)
run_event-IsSaved old format (stops env) s h v =
    if_ready-IsSaved old s (worker_done env s) v (worker_done-IsSaved old env s h v)
run_event-IsSaved old format cancels s h v = same-IsSaved old s _ refl refl v

-- With a database that tells the truth in every event, the table holds what it held at first, and
-- after it the rows of the batches that were stored, as the database makes them: each of the flushed batches is in it once and whole, or not
-- at all, in the order in which they were flushed.
pub run_events-IsSaved :
    (old : List Row) (format : TimeFormat) (es : List Event) (s : Session) {t : Session}
    → All IsTruthful es
    → IsSaved old s
    → run_events format es s ≡ some t
    → IsSaved old t
unfolding run_events
run_events-IsSaved old format [] s h v r = subst (IsSaved old) (some_inj r) v
run_events-IsSaved old format (e ∷ es) s h v r = elim (Option-cases (run_event format e s)) [
  | inl n ↦ let r' = rw n at r in cc
  | inr (u, k) ↦
      let w =
        OnSome_some (IsSaved old) (run_event format e s) k
          (run_event-IsSaved old format e s h.0 v) in
      run_events-IsSaved old format es u h.1 w (rw k at r)
]
