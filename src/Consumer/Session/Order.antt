-- ===== src/Consumer/Session/Order.antt =====
-- internal/consumer/handler.go: what happens to a message between the channel and the database.
pub mod Complete
pub mod Batches
pub mod Drain
use mathlib.Core.List.{Perm, perm_append_comm}
use mathlib.Core.List.Perm
use live_stream_danmaku.Base.{
  ℕ, zero, suc, ◌+◌, ◌≤◌, ◌<◌, ◌≡◌, ◌≢◌, refl, Bool, true, false, not, ◌&&◌, List, [], ◌∷◌, ◌++◌,
  Option, none, some, if◌then◌else◌, arith, append-nil, append_assoc, sym, ◌∙◌, ap, length,
  length-append, All, All-append, Bool-cases, inl, inr, leb, some_inj, OnSome, OnSome_some,
  Option-cases, ltb, take_nth, push_rest, subst,
}
use live_stream_danmaku.Json.{Bytes, ◌>>=◌}
use live_stream_danmaku.Model.{TimeFormat}
use live_stream_danmaku.Repo.{Message, Attempt}
use live_stream_danmaku.Consumer.Flush.{flush_buffer, background}
use live_stream_danmaku.Consumer.Session.Marks.{send-Perm, mark-Perm, take_nth-Perm}
use live_stream_danmaku.Consumer.Session.{
  Session, Consumed, next, blocked, returned, panicked, channel_buffer_size, parse_message, consume,
  offer, mark_message, flush, log_batch, take_message, worker_receive, worker_tick, worker_done,
  close_msg_chan, wait_for_worker,
}

-- All messages of a list of batches, in order.
abbrev pub flatten {ℓ} : {A : Type ℓ} → List (List A) → List A
flatten [] = []
flatten (x ∷ xs) = x ++ flatten xs

-- The messages that have entered the channel: flushed, in the worker's buffer, or still in the
-- channel, oldest first.
abbrev pub accepted : Session → List Message
accepted s = flatten s.batches ++ (s.buffer ++ s.msg_chan)

flatten-append {ℓ} :
    {A : Type ℓ} (xs : List (List A)) (y : List A) → flatten (xs ++ y ∷ []) ≡ flatten xs ++ y
flatten-append [] y = append-nil y
flatten-append (x ∷ xs) y = rw (flatten-append xs y) (sym (append_assoc x (flatten xs) y))

flatten-log_batch :
    (b : List Message) (batches : List (List Message))
    → flatten (log_batch b batches) ≡ flatten batches ++ b
unfolding log_batch
flatten-log_batch [] batches = sym (append-nil (flatten batches))
flatten-log_batch (m ∷ ms) batches = flatten-append batches (m ∷ ms)

-- A flush moves the buffer behind the batches.
pub flush-accepted : (env : ℕ → Attempt) (s : Session) → accepted (flush env s) ≡ accepted s
unfolding flush
flush-accepted env s =
    rw (flatten-log_batch s.buffer s.batches, append_assoc (flatten s.batches) s.buffer s.msg_chan)

-- `s'` has accepted what `s` has, and the same messages are marked and not yet marked.
abbrev pub IsMoved : Session → Session → Type 0
IsMoved s s' = (accepted s' ≡ accepted s) × (s'.marked ≡ s.marked) × (s'.unmarked ≡ s.unmarked)

flush-IsMoved : (env : ℕ → Attempt) (s : Session) → IsMoved s (flush env s)
unfolding flush
flush-IsMoved env s = (flush-accepted env s, refl, refl)

take_message-IsMoved :
    (env : ℕ → Attempt) (q : List Message) (s : Session)
    → s.msg_chan ≡ q
    → OnSome (IsMoved s) (take_message env q s)
unfolding take_message
take_message-IsMoved env [] s e = elim (Bool-cases s.chan_closed) [
  | inl c ↦ simp c (flush-IsMoved env s)
  | inr c ↦ simp c tt
]
take_message-IsMoved env (m ∷ rest) s e =
    let s' : Session = record s { msg_chan = rest; buffer = s.buffer ++ m ∷ [] } in
    let moved : accepted s' ≡ accepted s = rw (e, append_assoc s.buffer (m ∷ []) rest) in
    elim (Bool-cases (leb s.batch_size (length s'.buffer))) [
      | inl c ↦
          rw c
            ((flush-IsMoved env s').0 ∙ moved, (flush-IsMoved env s').1, (flush-IsMoved env s').2)
      | inr c ↦ rw c (moved, refl, refl)
    ]

pub worker_receive-IsMoved :
    (env : ℕ → Attempt) (s : Session) → OnSome (IsMoved s) (worker_receive env s)
unfolding worker_receive
worker_receive-IsMoved env s = elim (Bool-cases s.working) [
  | inl w ↦ simp w (take_message-IsMoved env s.msg_chan s refl)
  | inr w ↦ simp w tt
]

pub worker_tick-IsMoved : (env : ℕ → Attempt) (s : Session) → OnSome (IsMoved s) (worker_tick env s)
unfolding worker_tick
worker_tick-IsMoved env s = elim (Bool-cases s.working) [
  | inl w ↦ simp w (flush-IsMoved env s)
  | inr w ↦ simp w tt
]

pub worker_done-IsMoved : (env : ℕ → Attempt) (s : Session) → OnSome (IsMoved s) (worker_done env s)
unfolding worker_done
worker_done-IsMoved env s = elim (Bool-cases (s.working && s.ctx_done)) [
  | inl w ↦ simp w (flush-IsMoved (background env) s)
  | inr w ↦ simp w tt
]

-- What a Kafka message puts on the channel: nothing if it cannot be parsed.
abbrev pub parsed : Option Message → List Message
parsed none = []
parsed (some d) = d ∷ []

unfoldable pub OnNext : (Session → Type 0) → Consumed → Type 0
OnNext P (next s) = P s
OnNext P blocked = Unit
OnNext P (returned s) = Unit
OnNext P panicked = Unit

-- The messages of a list of Kafka messages.
abbrev pub parse_all : TimeFormat → List Bytes → List Message
parse_all format [] = []
parse_all format (b ∷ bs) = parsed (parse_message format b) ++ parse_all format bs

parse_all-append :
    (format : TimeFormat) (bs : List Bytes) (b : Bytes)
    → parse_all format (bs ++ b ∷ []) ≡ parse_all format bs ++ parsed (parse_message format b)
parse_all-append format [] b = append-nil (parsed (parse_message format b))
parse_all-append format (c ∷ bs) b = rw (parse_all-append format bs b) (
    sym (
      append_assoc (parsed (parse_message format c)) (parse_all format bs)
        (parsed (parse_message format b))))

-- The claims have consumed `taken`, in this order: the messages that were accepted are those of `taken`,
-- in the same order, and the messages of `taken` are, each once, marked or to be marked.
abbrev pub IsComplete : TimeFormat → List Bytes → Session → Type 0
IsComplete format taken s =
    (accepted s ≡ parse_all format taken) × Perm taken (s.marked ++ s.unmarked)

pub mark_message-IsComplete :
    (format : TimeFormat) (taken : List Bytes) (i : ℕ) (s : Session)
    → IsComplete format taken s
    → OnSome (IsComplete format taken) (mark_message i s)
unfolding mark_message
mark_message-IsComplete format taken i s (e, p) = elim (Option-cases (take_nth i s.unmarked)) [
  | inl k ↦ rw (k, ◌>>=◌) tt
  | inr ((msg, rest), k) ↦
      let h =
        OnSome_some (λ yr. Perm s.unmarked (yr.0 ∷ yr.1)) (take_nth i s.unmarked) k
          (take_nth-Perm i s.unmarked) in
      let moved =
        subst (Perm (s.marked ++ s.unmarked)) (sym (append_assoc s.marked (msg ∷ []) rest))
          (Perm.append_left s.marked h) in
      rw (k, ◌>>=◌) (e, Perm.trans p moved)
]

push_message :
    (format : TimeFormat) (taken : List Bytes) (msg : Bytes) (d : Message) (s : Session)
    → parse_message format msg ≡ some d
    → accepted s ≡ parse_all format taken
    → flatten s.batches ++ (s.buffer ++ (s.msg_chan ++ d ∷ []))
      ≡ parse_all format (taken ++ msg ∷ [])
push_message format taken msg d s p v =
    rw (parse_all-append format taken msg, p, ← v)
      (sym (
        append_assoc (flatten s.batches) (s.buffer ++ s.msg_chan) (d ∷ [])
        ∙ ap (λ x. flatten s.batches ++ x) (append_assoc s.buffer s.msg_chan (d ∷ []))))

offer-IsComplete :
    (format : TimeFormat) (taken : List Bytes) (leaves : Bool) (msg : Bytes) (d : Message)
    (s : Session)
    → parse_message format msg ≡ some d
    → IsComplete format taken s
    → OnNext (IsComplete format (taken ++ msg ∷ [])) (offer leaves msg d s)
unfolding offer OnNext
offer-IsComplete format taken leaves msg d s p v = elim (Bool-cases (s.ctx_done && leaves)) [
  | inl a ↦ simp a tt
  | inr a ↦ elim (Bool-cases s.chan_closed) [
    | inl c ↦ simp (a, c) tt
    | inr c ↦ elim (Bool-cases (ltb (length s.msg_chan) channel_buffer_size)) [
      | inl f ↦ rw a (
          rw c (
            rw f (
              push_message format taken msg d s p v.0,
              send-Perm taken s.marked s.unmarked msg v.1,
            )))
      | inr f ↦ simp (a, c, f) tt
    ]
  ]
]

pub consume-IsComplete :
    (format : TimeFormat) (taken : List Bytes) (leaves : Bool) (msg : Bytes) (s : Session)
    → IsComplete format taken s
    → OnNext (IsComplete format (taken ++ msg ∷ [])) (consume format leaves msg s)
unfolding consume
consume-IsComplete format taken leaves msg s v = elim (Option-cases (parse_message format msg)) [
  | inl e ↦
      let none_more : accepted s ≡ parse_all format (taken ++ msg ∷ []) =
        rw (parse_all-append format taken msg, e, append-nil (parse_all format taken)) v.0 in
      rw (e, consume) (unfold OnNext in (none_more, mark-Perm taken s.marked s.unmarked msg v.1))
  | inr (d, e) ↦ rw (e, consume) (offer-IsComplete format taken leaves msg d s e v)
]

pub OnNext_next :
    (P : Session → Type 0) (c : Consumed) {s : Session} → c ≡ next s → OnNext P c → P s
unfolding OnNext
OnNext_next P c e h = rw e at h
