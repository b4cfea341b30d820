-- ===== src/Consumer/Session/Events/Closed.antt =====
-- internal/consumer/handler.go: nothing opens a closed channel again.
use live_stream_danmaku.Base.{
  ℕ, ◌≡◌, refl, Bool, true, ◌&&◌, List, [], ◌∷◌, ◌++◌, Option, none, some, Bool-cases, Option-cases,
  inl, inr, length, leb, ltb, OnSome, OnSome_some, ◌∙◌, take_nth,
}
use live_stream_danmaku.Json.{Bytes, ◌>>=◌}
use live_stream_danmaku.Model.{TimeFormat}
use live_stream_danmaku.Repo.{Message, Attempt}
use live_stream_danmaku.Consumer.Session.{
  Session, channel_buffer_size, parse_message, offer, consume, mark_message, flush, take_message,
  worker_receive, worker_tick, worker_done,
}
use live_stream_danmaku.Consumer.Session.Events.{
  Event, delivers, marks, receives, ticks, stops, cancels, after_consume, if_ready, run_event,
  run_events,
}

-- The channel is as open as it was.
abbrev pub KeepsChan : Session → Session → Type 0
KeepsChan s t = t.chan_closed ≡ s.chan_closed

take_message-KeepsChan :
    (env : ℕ → Attempt) (q : List Message) (s : Session)
    → OnSome (KeepsChan s) (take_message env q s)
unfolding take_message flush
take_message-KeepsChan env [] s = elim (Bool-cases s.chan_closed) [
  | inl c ↦ simp c refl
  | inr c ↦ simp c tt
]
take_message-KeepsChan env (m ∷ rest) s =
    elim (Bool-cases (leb s.batch_size (length (s.buffer ++ m ∷ [])))) [
      | inl c ↦ rw c refl
      | inr c ↦ rw c refl
    ]

worker_receive-KeepsChan :
    (env : ℕ → Attempt) (s : Session) → OnSome (KeepsChan s) (worker_receive env s)
unfolding worker_receive
worker_receive-KeepsChan env s = elim (Bool-cases s.working) [
  | inl w ↦ simp w (take_message-KeepsChan env s.msg_chan s)
  | inr w ↦ simp w tt
]

worker_tick-KeepsChan : (env : ℕ → Attempt) (s : Session) → OnSome (KeepsChan s) (worker_tick env s)
unfolding worker_tick flush
worker_tick-KeepsChan env s = elim (Bool-cases s.working) [
  | inl w ↦ simp w refl
  | inr w ↦ simp w tt
]

worker_done-KeepsChan : (env : ℕ → Attempt) (s : Session) → OnSome (KeepsChan s) (worker_done env s)
unfolding worker_done flush
worker_done-KeepsChan env s = elim (Bool-cases (s.working && s.ctx_done)) [
  | inl w ↦ simp w refl
  | inr w ↦ simp w tt
]

consume-KeepsChan :
    (format : TimeFormat) (leaves : Bool) (msg : Bytes) (s : Session)
    → OnSome (KeepsChan s) (after_consume s (consume format leaves msg s))
unfolding consume offer after_consume
consume-KeepsChan format leaves msg s = elim (Option-cases (parse_message format msg)) [
  | inl e ↦ rw (e, consume) refl
  | inr (d, e) ↦
      rw (e, consume)
        (elim (Bool-cases (s.ctx_done && leaves)) [
          | inl a ↦ simp a refl
          | inr a ↦ elim (Bool-cases s.chan_closed) [
            | inl c ↦ simp (a, c) tt
            | inr c ↦ elim (Bool-cases (ltb (length s.msg_chan) channel_buffer_size)) [
              | inl f ↦ simp (a, c, f) refl
              | inr f ↦ simp (a, c, f) refl
            ]
          ]
        ])
]

mark_message-KeepsChan : (i : ℕ) (s : Session) → OnSome (KeepsChan s) (mark_message i s)
unfolding mark_message
mark_message-KeepsChan i s = elim (Option-cases (take_nth i s.unmarked)) [
  | inl e ↦ rw (e, ◌>>=◌) tt
  | inr (msg, e) ↦ rw (e, ◌>>=◌) refl
]

if_ready-KeepsChan :
    (s : Session) (o : Option Session) → OnSome (KeepsChan s) o → KeepsChan s (if_ready s o)
unfolding if_ready
if_ready-KeepsChan s none h = refl
if_ready-KeepsChan s (some t) h = h

run_event-KeepsChan :
    (format : TimeFormat) (e : Event) (s : Session) → OnSome (KeepsChan s) (run_event format e s)
unfolding run_event
run_event-KeepsChan format (delivers leaves msg) s = consume-KeepsChan format leaves msg s
run_event-KeepsChan format (marks i) s =
    if_ready-KeepsChan s (mark_message i s) (mark_message-KeepsChan i s)
run_event-KeepsChan format (receives env) s =
    if_ready-KeepsChan s (worker_receive env s) (worker_receive-KeepsChan env s)
run_event-KeepsChan format (ticks env) s =
    if_ready-KeepsChan s (worker_tick env s) (worker_tick-KeepsChan env s)
run_event-KeepsChan format (stops env) s =
    if_ready-KeepsChan s (worker_done env s) (worker_done-KeepsChan env s)
run_event-KeepsChan format cancels s = refl

pub run_events-closed :
    (format : TimeFormat) (es : List Event) (s : Session)
    → s.chan_closed ≡ true
    → OnSome (λ t. t.chan_closed ≡ true) (run_events format es s)
unfolding run_events
run_events-closed format [] s c = c
run_events-closed format (e ∷ es) s c = elim (Option-cases (run_event format e s)) [
  | inl n ↦ rw n tt
  | inr (u, k) ↦ rw k (
      run_events-closed format es u
        (OnSome_some (KeepsChan s) (run_event format e s) k (run_event-KeepsChan format e s) ∙ c))
]
