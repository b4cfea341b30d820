-- ===== src/Ws/Jobs/Spec.antt =====
-- What the broadcast path promises: jobs are values, a list of clients and a payload. Nothing is
-- said of slices, arrays and the pool.
use live_stream_danmaku.Base.{
  ℕ, ◌≡◌, List, [], ◌∷◌, ◌++◌, Option, none, some, if◌then◌else◌, ltb, length, take_nth,
}
use live_stream_danmaku.Json.{Bytes, ◌>>=◌}
use live_stream_danmaku.Ws.Jobs.{broadcast_job_chan_size, worker_count}

abbrev pub Sending : Type 0
Sending = List ℕ × Bytes

pub record Fanout : Type 0 where
  pub queue : List Sending
  pub active : List Sending

-- A broadcast to `targets` joins the queue, or is dropped if the queue is full.
unfoldable pub send_all : List ℕ → Bytes → Fanout → Fanout
send_all targets payload a =
    if ltb (length a.queue) broadcast_job_chan_size
    then record a { queue = a.queue ++ (targets, payload) ∷ [] }
    else a

unfoldable pub begin_first : List Sending → Fanout → Option Fanout
begin_first [] a = none
begin_first (s ∷ rest) a =
    if ltb (length a.active) worker_count
    then some (record { queue = rest; active = s ∷ a.active })
    else none

-- The oldest broadcast becomes active if a worker is free.
unfoldable pub begin : Fanout → Option Fanout
unfolding begin_first
begin a = begin_first a.queue a

-- An active broadcast sends to the first client that is left.
abbrev pub send_first : Sending × List Sending → Fanout → Option ((ℕ × Bytes) × Fanout)
send_first (([], payload), rest) a = none
send_first ((c ∷ cs, payload), rest) a =
    some ((c, payload), record a { active = (cs, payload) ∷ rest })

unfoldable pub send_one : ℕ → Fanout → Option ((ℕ × Bytes) × Fanout)
send_one k a = take_nth k a.active >>= λ s. send_first s a

-- It is over when nobody is left.
abbrev pub end_empty : Sending × List Sending → Fanout → Option Fanout
end_empty (([], payload), rest) a = some (record a { active = rest })
end_empty ((c ∷ cs, payload), rest) a = none

unfoldable pub end_one : ℕ → Fanout → Option Fanout
end_one k a = take_nth k a.active >>= λ s. end_empty s a

-- What a step does: a broadcast to these clients, the start of one, a send of a payload to a client,
-- the end of a broadcast, or nothing that the clients see.
pub data Label : Type 0 where
  sends : List ℕ → Bytes → Label
  begins : Label
  sends_to : ℕ × Bytes → Label
  ends : Label
  stays : Label

-- The label determines the clients and the payload of a broadcast, and the client and the payload of
-- a send.
pub data SpecStep : Label → Fanout → Fanout → Type 0 where
  broadcast :
      (a : Fanout) (targets : List ℕ) (payload : Bytes)
      → SpecStep (sends targets payload) a (send_all targets payload a)
  begun : {a b : Fanout} → begin a ≡ some b → SpecStep begins a b
  sent :
      {a b : Fanout} {out : ℕ × Bytes} (k : ℕ)
      → send_one k a ≡ some (out, b)
      → SpecStep (sends_to out) a b
  ended : {a b : Fanout} (k : ℕ) → end_one k a ≡ some b → SpecStep ends a b
  same : {a : Fanout} → SpecStep stays a a
