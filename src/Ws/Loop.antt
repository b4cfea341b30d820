-- ===== src/Ws/Loop.antt =====
-- internal/ws: the server as it runs. The loop of `Start`, the ReadPump and the WritePump of each client,
-- the subscribers, the ticks and the workers take their turns in any order.
pub mod Good
pub mod Handlers
pub mod Turns
pub mod Reached
pub mod Isolation
pub mod Likes
use live_stream_danmaku.Base.{
  ℕ, ◌+◌, ◌≡◌, Bool, true, false, List, [], ◌∷◌, Option, none, some, if◌then◌else◌, take_nth,
}
use live_stream_danmaku.Text.{Text}
use live_stream_danmaku.Json.{Bytes}
use live_stream_danmaku.Model.{WsPacket, TimeFormat, unmarshal_packet}
use live_stream_danmaku.Ws.Client.{Client, Ready, Pump, start_pump, pump_step}
use live_stream_danmaku.Ws.Slices.{Slice}
use live_stream_danmaku.Ws.Jobs.{Jobs, start_job, finish_job}
use live_stream_danmaku.Ws.Manager.{
  Manager, Subscription, handle_register, handle_unregister, update,
}
use live_stream_danmaku.Ws.Manager.Broadcast.{
  Choices, receive_broadcast, broadcast_to_local_clients, on_message, work,
}
use live_stream_danmaku.Ws.Router.{dispatch, action_registry}

-- One round of WritePump of client `k`, on the client that the manager shares with it.
unfoldable pub write_round : ℕ → Ready → Manager → Manager
write_round k r m = record m {
  clients = update m.clients k (pump_step (start_pump (m.clients k)) r).client;
}

-- The socket of client `k` is closed, at the end of ReadPump.
unfoldable pub shut_socket : ℕ → Manager → Manager
shut_socket k m = record m {
  clients = update m.clients k (record (m.clients k) { socket_open = false });
}

-- A tick runs in a goroutine of its own, beside the loop: it takes the counted likes, and then sends
-- the statistics of one room after the other, `informs`.
pub data Step (format : TimeFormat) : Manager → Manager → Type 0 where
  registers :
      {m : Manager} (k : ℕ) → (m.clients k).done ≡ false → Step format m (handle_register k m)
  unregisters : {m m' : Manager} (k : ℕ) → handle_unregister k m ≡ some m' → Step format m m'
  receives :
      {m m' : Manager} (ch : Choices) (reached : Bool)
      → receive_broadcast ch reached m ≡ some m'
      → Step format m m'
  takes_likes : {m : Manager} → Step format m (record m { local_likes = [] })
  informs :
      {m : Manager} (ch : Choices) (room : Text) (payload : Bytes)
      → Step format m (broadcast_to_local_clients ch room payload m)
  hears :
      {m : Manager} (ch : Choices) (leaves : Bool) (s : Subscription) (payload : Bytes)
      → Step format m (on_message ch leaves s payload m)
  reads :
      {m m' : Manager} (now k : ℕ) (packet : WsPacket)
      → dispatch (action_registry format now) k m packet.msg_type packet.raw_data ≡ some m'
      → Step format m m'
  writes : {m : Manager} (k : ℕ) (r : Ready) → Step format m (write_round k r m)
  shuts : {m : Manager} (k : ℕ) → Step format m (shut_socket k m)
  starts :
      {m : Manager} {q : Jobs} → start_job m.jobs ≡ some q → Step format m (record m { jobs = q })
  works : {m m' : Manager} (i : ℕ) → work i m ≡ some m' → Step format m m'
  finishes :
      {m : Manager} {q : Jobs} (i : ℕ)
      → finish_job i m.jobs ≡ some q
      → Step format m (record m { jobs = q })
  collects :
      {m : Manager} (i : ℕ) (s : Slice) (rest : List Slice)
      → take_nth i m.jobs.pool ≡ some (s, rest)
      → Step format m (record m { jobs = record m.jobs { pool = rest } })

pub data Reach (format : TimeFormat) (s : Manager) : Manager → Type 0 where
  here : Reach format s s
  later : {m m' : Manager} → Reach format s m → Step format m m' → Reach format s m'
