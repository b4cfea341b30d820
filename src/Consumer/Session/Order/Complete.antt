-- ===== src/Consumer/Session/Order/Complete.antt =====
-- internal/consumer/handler.go: no message that a claim has consumed leaves its place in the order of
-- the channel, whatever the claims and the worker do.
use mathlib.Core.List.{Perm}
use live_stream_danmaku.Base.{
  ℕ, ◌≡◌, refl, Bool, true, ◌++◌, Option, some, Bool-cases, inl, inr, OnSome, OnSome_some, List, [],
  ◌∷◌, append-nil, append_assoc,
}
use live_stream_danmaku.Json.{Bytes}
use live_stream_danmaku.Model.{TimeFormat}
use live_stream_danmaku.Repo.{Attempt}
use live_stream_danmaku.Consumer.Session.{
  Session, next, consume, mark_message, worker_receive, worker_tick, worker_done, close_msg_chan,
}
use live_stream_danmaku.Consumer.Session.Order.{
  flatten, IsComplete, IsMoved, OnNext_next, parse_all, consume-IsComplete, mark_message-IsComplete,
  worker_receive-IsMoved, worker_tick-IsMoved, worker_done-IsMoved,
}

-- The steps of a running session: a claim consumes a message, or marks one that it has sent; the worker receives, flushes on a
-- tick, or stops; the session's context is cancelled; `Cleanup` closes the channel.
pub data Step (format : TimeFormat) : Session → Session → Type 0 where
  consumes :
      {s s' : Session} (leaves : Bool) (msg : Bytes)
      → consume format leaves msg s ≡ next s'
      → Step format s s'
  marks : {s s' : Session} (i : ℕ) → mark_message i s ≡ some s' → Step format s s'
  receives :
      {s s' : Session} (env : ℕ → Attempt) → worker_receive env s ≡ some s' → Step format s s'
  ticks : {s s' : Session} (env : ℕ → Attempt) → worker_tick env s ≡ some s' → Step format s s'
  stops : {s s' : Session} (env : ℕ → Attempt) → worker_done env s ≡ some s' → Step format s s'
  cancels : {s : Session} → Step format s (record s { ctx_done = true })
  closes : {s s' : Session} → close_msg_chan s ≡ some s' → Step format s s'

pub data Reach (format : TimeFormat) (s : Session) : Session → Type 0 where
  here : Reach format s s
  later : {t u : Session} → Reach format s t → Step format t u → Reach format s u

module _ {format : TimeFormat} where
  -- The Kafka messages that the claims have consumed, in the order of the sends on the channel.

  abbrev pub consumed_by : {s s' : Session} → Step format s s' → List Bytes
  consumed_by (consumes leaves msg e) = msg ∷ []
  consumed_by _ = []

  abbrev pub consumed_in : {s s' : Session} → Reach format s s' → List Bytes
  consumed_in here = []
  consumed_in (later r step) = consumed_in r ++ consumed_by step

moved-IsComplete :
    (format : TimeFormat) (taken : List Bytes) (s : Session) (o : Option Session) {s' : Session}
    → o ≡ some s'
    → OnSome (IsMoved s) o
    → IsComplete format taken s
    → IsComplete format (taken ++ []) s'
moved-IsComplete format taken s o {s'} e h v =
    let (accepts, marked, unmarked) = OnSome_some (IsMoved s) o e h in
    rw (append-nil taken, accepts, marked, unmarked) v

close_msg_chan-IsMoved : (s : Session) → OnSome (IsMoved s) (close_msg_chan s)
unfolding close_msg_chan
close_msg_chan-IsMoved s = elim (Bool-cases s.chan_closed) [
  | inl c ↦ simp c tt
  | inr c ↦ simp c (refl, refl, refl)
]

Step-IsComplete :
    (format : TimeFormat) (taken : List Bytes) {s s' : Session} (step : Step format s s')
    → IsComplete format taken s
    → IsComplete format (taken ++ consumed_by step) s'
Step-IsComplete format taken (consumes {s} {s'} leaves msg e) v =
    OnNext_next (IsComplete format (taken ++ msg ∷ [])) (consume format leaves msg s) e
      (consume-IsComplete format taken leaves msg s v)
Step-IsComplete format taken (marks {s} {s'} i e) v = rw (append-nil taken) (
    OnSome_some (IsComplete format taken) (mark_message i s) e
      (mark_message-IsComplete format taken i s v))
Step-IsComplete format taken (receives {s} env e) v =
    moved-IsComplete format taken s (worker_receive env s) e (worker_receive-IsMoved env s) v
Step-IsComplete format taken (ticks {s} env e) v =
    moved-IsComplete format taken s (worker_tick env s) e (worker_tick-IsMoved env s) v
Step-IsComplete format taken (stops {s} env e) v =
    moved-IsComplete format taken s (worker_done env s) e (worker_done-IsMoved env s) v
Step-IsComplete format taken (cancels) v = rw (append-nil taken) v
Step-IsComplete format taken (closes {s} e) v =
    moved-IsComplete format taken s (close_msg_chan s) e (close_msg_chan-IsMoved s) v

-- From a session in which nothing was consumed, or what was consumed before is in step with it, in every
-- state that is reached the batches that were flushed, then the buffer of the worker, then the
-- channel, hold exactly the parsed messages of the Kafka messages that the claims have consumed, in
-- the order of consumption; and the messages consumed are, each once and in some order, those marked
-- and those sent on the channel that a claim has still to mark.
pub Reach-IsComplete :
    (format : TimeFormat) (taken : List Bytes) {s s' : Session}
    → IsComplete format taken s
    → (r : Reach format s s')
    → (flatten s'.batches ++ (s'.buffer ++ s'.msg_chan) ≡ parse_all format (taken ++ consumed_in r))
      × Perm (taken ++ consumed_in r) (s'.marked ++ s'.unmarked)
Reach-IsComplete format taken v here = rw (append-nil taken) v
Reach-IsComplete format taken v (later r step) =
    rw (← append_assoc taken (consumed_in r) (consumed_by step))
      (Step-IsComplete format (taken ++ consumed_in r) step (Reach-IsComplete format taken v r))
