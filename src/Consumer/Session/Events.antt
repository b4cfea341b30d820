-- ===== src/Consumer/Session/Events.antt =====
-- internal/consumer/handler.go: a session as a sequence of events, in the order in which the goroutines
-- take their turns. An event that is not ready does not happen.
pub mod Saved
pub mod Runs
pub mod Closed
use live_stream_danmaku.Base.{ℕ, Bool, true, false, List, [], ◌∷◌, Option, none, some}
use live_stream_danmaku.Json.{Bytes, ◌>>=◌}
use live_stream_danmaku.Model.{TimeFormat}
use live_stream_danmaku.Repo.{Attempt}
use live_stream_danmaku.Consumer.Session.{
  Session, Consumed, next, blocked, returned, panicked, consume, mark_message, worker_receive,
  worker_tick, worker_done,
}

-- A claim takes a message from Kafka (`leaves` as in `consume`), or marks one that it has sent, the one
-- at place `i` of those; the worker receives, gets a tick, or
-- sees that the context is done; the context is cancelled. `env` is how the database behaves.
pub data Event : Type 0 where
  delivers : (leaves : Bool) → Bytes → Event
  marks : (i : ℕ) → Event
  receives : (env : ℕ → Attempt) → Event
  ticks : (env : ℕ → Attempt) → Event
  stops : (env : ℕ → Attempt) → Event
  cancels : Event

-- `none` is a panic.
after_consume : Session → Consumed → Option Session
after_consume s (next s') = some s'
after_consume s blocked = some s
after_consume s (returned s') = some s'
after_consume s panicked = none

if_ready : Session → Option Session → Session
if_ready s none = s
if_ready s (some s') = s'

unfoldable pub run_event : TimeFormat → Event → Session → Option Session
unfolding after_consume if_ready
run_event format (delivers leaves msg) s = after_consume s (consume format leaves msg s)
run_event format (marks i) s = some (if_ready s (mark_message i s))
run_event format (receives env) s = some (if_ready s (worker_receive env s))
run_event format (ticks env) s = some (if_ready s (worker_tick env s))
run_event format (stops env) s = some (if_ready s (worker_done env s))
run_event format cancels s = some (record s { ctx_done = true })

unfoldable pub run_events : TimeFormat → List Event → Session → Option Session
run_events format [] s = some s
run_events format (e ∷ es) s = run_event format e s >>= run_events format es
