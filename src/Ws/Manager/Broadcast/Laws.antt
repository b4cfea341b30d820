-- ===== src/Ws/Manager/Broadcast/Laws.antt =====
-- A broadcast in a room: who is on the job, and what a worker does with it.
use live_stream_danmaku.Base.{
  ℕ, ◌≡◌, ◌⊎◌, List, none, some, if◌then◌else◌, nat_eq, list_eq, arith, inl, inr, Option-cases, ◌∙◌,
}
use live_stream_danmaku.Text.{Text}
use live_stream_danmaku.Json.{Bytes}
use live_stream_danmaku.Dict.{lookup}
use live_stream_danmaku.Dict.Sets.{count, count_nonmember, member-count}
use live_stream_danmaku.Ws.Jobs.Spec.{send_all}
use live_stream_danmaku.Ws.Jobs.Ownership.{IsOwned}
use live_stream_danmaku.Ws.Jobs.Refinement.{view}
use live_stream_danmaku.Ws.Jobs.Refinement.Dispatch.{dispatch-send_all}
use live_stream_danmaku.Ws.Manager.{Manager}
use live_stream_danmaku.Ws.Manager.Registry.{IsWf}
use live_stream_danmaku.Ws.Manager.Registry.Members.{in_room}
use live_stream_danmaku.Ws.Manager.Broadcast.{Choices, broadcast_to_local_clients}

-- The clients of a room, each once, in some order.
abbrev pub AreClients : Manager → Text → List ℕ → Type 0
AreClients m room targets = (k : ℕ) → count k targets ≡ (if in_room room k m then 1 else 0)

pub ordered-AreClients :
    (ch : Choices) (m : Manager) (room : Text) (cs : List ℕ)
    → IsWf m
    → lookup room m.rooms ≡ some cs
    → AreClients m room (ch.order cs)
ordered-AreClients ch m room cs v e k =
    ch.same_clients cs k
    ∙ ground (arith, e, v.single room k, count_nonmember k cs, member-count k cs)

-- In a well-formed state with one owner for each array, a broadcast to a room that exists queues
-- one job, for exactly the room's clients, each once, or is dropped if the queue is full; the
-- other jobs, the rooms and the clients stay as they are. A broadcast to a room that does not
-- exist changes nothing.
pub broadcast_reaches_room :
    (ch : Choices) (m : Manager) (room : Text) (payload : Bytes)
    → IsWf m
    → IsOwned m.jobs
    → let m' = broadcast_to_local_clients ch room payload m in
      ((lookup room m.rooms ≡ none) × (m' ≡ m))
      ⊎ ((targets : List ℕ) × AreClients m room targets
          × (view m'.jobs ≡ send_all targets payload (view m.jobs))
          × (m'.clients ≡ m.clients)
          × (m'.rooms ≡ m.rooms))
unfolding broadcast_to_local_clients
broadcast_reaches_room ch m room payload v o = elim (Option-cases (lookup room m.rooms)) [
  | inl e ↦ inl (e, rw (e, broadcast_to_local_clients))
  | inr (cs, e) ↦ inr (
    ch.order cs,
    ordered-AreClients ch m room cs v e,
    rw (e, broadcast_to_local_clients)
        (dispatch-send_all ch.extra ch.pick (ch.order cs) payload m.jobs o),
    rw (e, broadcast_to_local_clients),
    rw (e, broadcast_to_local_clients),
  )
]
