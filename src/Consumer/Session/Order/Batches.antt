-- ===== src/Consumer/Session/Order/Batches.antt =====
-- internal/consumer/handler.go: the sizes of the channel, of the worker's buffer and of the batches.
use live_stream_danmaku.Base.{
  ℕ, suc, ◌≤◌, ◌<◌, ◌≡◌, refl, subst, Bool, ◌&&◌, List, [], ◌∷◌, ◌++◌, arith, length, length-append,
  All, All-append, Bool-cases, inl, inr, leb, OnSome, OnSome_some, Option-cases, ltb, leb-false→gt,
  ltb→lt, take_nth,
}
use live_stream_danmaku.Json.{Bytes, ◌>>=◌}
use live_stream_danmaku.Model.{TimeFormat}
use live_stream_danmaku.Repo.{Message, Attempt}
use live_stream_danmaku.Consumer.Flush.{background}
use live_stream_danmaku.Consumer.Session.{
  Session, channel_buffer_size, parse_message, consume, offer, mark_message, flush, log_batch,
  take_message, worker_receive, worker_tick, worker_done, close_msg_chan,
}
use live_stream_danmaku.Consumer.Session.Order.{OnNext, OnNext_next}
use live_stream_danmaku.Consumer.Session.Order.Complete.{
  Step, consumes, marks, receives, ticks, stops, cancels, closes, Reach, here, later,
}

-- The batch size stays `n`; the buffer is below it, every batch flushed is at most as long, and the
-- channel never holds more than its capacity.
pub record IsBounded (n : ℕ) (s : Session) : Type 0 where
  pub size : s.batch_size ≡ n
  pub room : length s.buffer < n
  pub flushed : All (λ b. length b ≤ n) s.batches
  pub capacity : length s.msg_chan ≤ channel_buffer_size

log_batch-All :
    (n : ℕ) (b : List Message) (batches : List (List Message))
    → length b ≤ n
    → All (λ x. length x ≤ n) batches
    → All (λ x. length x ≤ n) (log_batch b batches)
unfolding log_batch
log_batch-All n [] batches l h = h
log_batch-All n (m ∷ ms) batches l h =
    All-append (λ x. length x ≤ n) batches ((m ∷ ms) ∷ []) h (l, tt)

flush-IsBounded :
    (n : ℕ) (env : ℕ → Attempt) (s : Session)
    → 0 < n
    → s.batch_size ≡ n
    → length s.buffer ≤ n
    → All (λ b. length b ≤ n) s.batches
    → length s.msg_chan ≤ channel_buffer_size
    → IsBounded n (flush env s)
unfolding flush
flush-IsBounded n env s pos e l h c = record {
  size = e;
  room = pos;
  flushed = log_batch-All n s.buffer s.batches l h;
  capacity = c;
}

take_message-IsBounded :
    (n : ℕ) (env : ℕ → Attempt) (q : List Message) (s : Session)
    → 0 < n
    → s.msg_chan ≡ q
    → IsBounded n s
    → OnSome (IsBounded n) (take_message env q s)
unfolding take_message
take_message-IsBounded n env [] s pos e v = elim (Bool-cases s.chan_closed) [
  | inl c ↦
      let f = flush-IsBounded n env s pos v.size (omega (arith, v.room)) v.flushed v.capacity in
      simp c (record { size = f.size; room = f.room; flushed = f.flushed; capacity = f.capacity })
  | inr c ↦ simp c tt
]
take_message-IsBounded n env (m ∷ rest) s pos e v =
    let s' : Session = record s { msg_chan = rest; buffer = s.buffer ++ m ∷ [] } in
    let grown : length s'.buffer ≡ suc (length s.buffer) =
      omega (arith, length-append s.buffer (m ∷ [])) in
    let full : suc (length rest) ≤ channel_buffer_size =
      subst (λ x. length x ≤ channel_buffer_size) e v.capacity in
    let cap : length rest ≤ channel_buffer_size = omega (arith, full) in
    elim (Bool-cases (leb s.batch_size (length s'.buffer))) [
      | inl c ↦
          rw c (flush-IsBounded n env s' pos v.size (omega (arith, v.room, grown)) v.flushed cap)
      | inr c ↦
          let r : length s'.buffer < n =
            omega (arith, v.size, leb-false→gt s.batch_size (length s'.buffer) c) in
          rw c (record { size = v.size; room = r; flushed = v.flushed; capacity = cap })
    ]

worker_receive-IsBounded :
    (n : ℕ) (env : ℕ → Attempt) (s : Session)
    → 0 < n
    → IsBounded n s
    → OnSome (IsBounded n) (worker_receive env s)
unfolding worker_receive
worker_receive-IsBounded n env s pos v = elim (Bool-cases s.working) [
  | inl w ↦ simp w (take_message-IsBounded n env s.msg_chan s pos refl v)
  | inr w ↦ simp w tt
]

worker_tick-IsBounded :
    (n : ℕ) (env : ℕ → Attempt) (s : Session)
    → 0 < n
    → IsBounded n s
    → OnSome (IsBounded n) (worker_tick env s)
unfolding worker_tick
worker_tick-IsBounded n env s pos v = elim (Bool-cases s.working) [
  | inl w ↦
      let f = flush-IsBounded n env s pos v.size (omega (arith, v.room)) v.flushed v.capacity in
      simp w (record { size = f.size; room = f.room; flushed = f.flushed; capacity = f.capacity })
  | inr w ↦ simp w tt
]

worker_done-IsBounded :
    (n : ℕ) (env : ℕ → Attempt) (s : Session)
    → 0 < n
    → IsBounded n s
    → OnSome (IsBounded n) (worker_done env s)
unfolding worker_done
worker_done-IsBounded n env s pos v = elim (Bool-cases (s.working && s.ctx_done)) [
  | inl w ↦
      let f =
        flush-IsBounded n (background env) s pos v.size (omega (arith, v.room)) v.flushed
          v.capacity in
      simp w (record { size = f.size; room = f.room; flushed = f.flushed; capacity = f.capacity })
  | inr w ↦ simp w tt
]

close_msg_chan-IsBounded :
    (n : ℕ) (s : Session) → IsBounded n s → OnSome (IsBounded n) (close_msg_chan s)
unfolding close_msg_chan
close_msg_chan-IsBounded n s v = elim (Bool-cases s.chan_closed) [
  | inl c ↦ simp c tt
  | inr c ↦
      simp c (record { size = v.size; room = v.room; flushed = v.flushed; capacity = v.capacity })
]

offer-IsBounded :
    (n : ℕ) (leaves : Bool) (msg : Bytes) (d : Message) (s : Session)
    → IsBounded n s
    → OnNext (IsBounded n) (offer leaves msg d s)
unfolding offer OnNext
offer-IsBounded n leaves msg d s v = elim (Bool-cases (s.ctx_done && leaves)) [
  | inl a ↦ simp a tt
  | inr a ↦ elim (Bool-cases s.chan_closed) [
    | inl c ↦ simp (a, c) tt
    | inr c ↦ elim (Bool-cases (ltb (length s.msg_chan) channel_buffer_size)) [
      | inl f ↦
          let cap : length (s.msg_chan ++ d ∷ []) ≤ channel_buffer_size = omega (
            arith,
            length-append s.msg_chan (d ∷ []),
            ltb→lt (length s.msg_chan) channel_buffer_size f,
          ) in
          simp (a, c, f)
            (record { size = v.size; room = v.room; flushed = v.flushed; capacity = cap })
      | inr f ↦ simp (a, c, f) tt
    ]
  ]
]

consume-IsBounded :
    (n : ℕ) (format : TimeFormat) (leaves : Bool) (msg : Bytes) (s : Session)
    → IsBounded n s
    → OnNext (IsBounded n) (consume format leaves msg s)
unfolding consume
consume-IsBounded n format leaves msg s v = elim (Option-cases (parse_message format msg)) [
  | inl e ↦
      let r : IsBounded n (record s { marked = s.marked ++ msg ∷ [] }) = record {
        size = v.size;
        room = v.room;
        flushed = v.flushed;
        capacity = v.capacity;
      } in
      rw (e, consume) (unfold OnNext in r)
  | inr (d, e) ↦ rw (e, consume) (offer-IsBounded n leaves msg d s v)
]

mark_message-IsBounded :
    (n i : ℕ) (s : Session) → IsBounded n s → OnSome (IsBounded n) (mark_message i s)
unfolding mark_message
mark_message-IsBounded n i s v = elim (Option-cases (take_nth i s.unmarked)) [
  | inl e ↦ rw (e, ◌>>=◌) tt
  | inr (msg, e) ↦
      let w : IsBounded n (record s { marked = s.marked ++ msg.0 ∷ []; unmarked = msg.1 }) =
        record { size = v.size; room = v.room; flushed = v.flushed; capacity = v.capacity } in
      rw (e, ◌>>=◌) w
]

Step-IsBounded :
    (n : ℕ) (format : TimeFormat) {s s' : Session}
    → 0 < n
    → Step format s s'
    → IsBounded n s
    → IsBounded n s'
Step-IsBounded n format pos (consumes {s} leaves msg e) v =
    OnNext_next (IsBounded n) (consume format leaves msg s) e
      (consume-IsBounded n format leaves msg s v)
Step-IsBounded n format pos (marks {s} i e) v =
    OnSome_some (IsBounded n) (mark_message i s) e (mark_message-IsBounded n i s v)
Step-IsBounded n format pos (receives {s} env e) v =
    OnSome_some (IsBounded n) (worker_receive env s) e (worker_receive-IsBounded n env s pos v)
Step-IsBounded n format pos (ticks {s} env e) v =
    OnSome_some (IsBounded n) (worker_tick env s) e (worker_tick-IsBounded n env s pos v)
Step-IsBounded n format pos (stops {s} env e) v =
    OnSome_some (IsBounded n) (worker_done env s) e (worker_done-IsBounded n env s pos v)
Step-IsBounded n format pos (cancels) v = record {
  size = v.size;
  room = v.room;
  flushed = v.flushed;
  capacity = v.capacity;
}
Step-IsBounded n format pos (closes {s} e) v =
    OnSome_some (IsBounded n) (close_msg_chan s) e (close_msg_chan-IsBounded n s v)

-- From a session whose buffer is below the positive batch size `n`, every state reached has a buffer
-- shorter than `n`, has flushed only batches of at most `n` messages, and holds at most 2000 messages
-- in its channel.
pub Reach-IsBounded :
    (n : ℕ) (format : TimeFormat) {s s' : Session}
    → 0 < n
    → IsBounded n s
    → Reach format s s'
    → IsBounded n s'
Reach-IsBounded n format pos v here = v
Reach-IsBounded n format pos v (later {t} r step) =
    Step-IsBounded n format pos step (Reach-IsBounded n format pos v r)
