-- ===== src/Ws/Client.antt =====
-- internal/ws/client.go: one connected client. Clients are shared by pointer, so the manager keeps
-- them on a heap; here is what one of them holds and what `Close` and `WritePump` do to it.
pub mod Laws
use live_stream_danmaku.Base.{
  ℕ, ◌≡◌, Bool, true, false, List, [], ◌∷◌, ◌++◌, Option, none, some, if◌then◌else◌, length, ltb,
}
use live_stream_danmaku.Text.{Text}
use live_stream_danmaku.Json.{Bytes}

abbrev pub send_chan_size : ℕ
send_chan_size = 4096

-- `send` is the buffered channel, oldest first. `done` says that the channel of that name is closed,
-- `once` that the sync.Once has run, `socket_open` that the connection has not been closed.
pub record Client : Type 0 where
  pub user_id : ℕ
  pub username : Text
  pub room_id : Text
  pub send : List Bytes
  pub done : Bool
  pub once : Bool
  pub socket_open : Bool

unfoldable pub new_client : ℕ → Text → Text → Client
new_client uid name room = record {
  user_id = uid;
  username = name;
  room_id = room;
  send = [];
  done = false;
  once = false;
  socket_open = true;
}

-- The function that `once` guards. `close` of a closed channel panics: `none`.
close_body : Client → Option Client
close_body c = if c.done then none else some (record c { done = true; socket_open = false })

unfoldable pub close : Client → Option Client
unfolding close_body
close c = if c.once then some c else close_body (record c { once = true })

-- `safeSend`: a full buffer drops the message, and the sender never waits.
unfoldable pub safe_send : Client → Bytes → Client
safe_send c payload =
    if ltb (length c.send) send_chan_size then record c { send = c.send ++ payload ∷ [] } else c

-- What the `select` of `WritePump` takes in one round; `wrote` says whether the write succeeded.
pub data Ready : Type 0 where
  message : (wrote : Bool) → Ready
  stopped : Ready

-- `written` is what has gone out on the socket, `lost` what a failed write has swallowed.
pub record Pump : Type 0 where
  pub client : Client
  pub written : List Bytes
  pub lost : List Bytes
  pub running : Bool

-- The deferred `c.Socket.Close()` runs when the loop is left.
leave : Pump → Pump
leave p = record p { client = record p.client { socket_open = false }; running = false }

pump_message : Pump → Bool → List Bytes → Pump
unfolding leave
pump_message p wrote [] = p
pump_message p true (b ∷ rest) = record p {
  client = record p.client { send = rest };
  written = p.written ++ b ∷ [];
}
pump_message p false (b ∷ rest) =
    leave (record p { client = record p.client { send = rest }; lost = p.lost ++ b ∷ [] })

-- One round. A case that is not ready is not taken: the loop waits, and nothing changes.
-- Nobody closes `send`, so the branch for a closed channel is never ready.
unfoldable pub pump_step : Pump → Ready → Pump
unfolding pump_message leave
pump_step p (message wrote) = if p.running then pump_message p wrote p.client.send else p
pump_step p stopped = if p.running then (if p.client.done then leave p else p) else p

unfoldable pub write_pump : Pump → List Ready → Pump
unfolding pump_step
write_pump p [] = p
write_pump p (r ∷ rs) = write_pump (pump_step p r) rs

abbrev pub start_pump : Client → Pump
start_pump c = record { client = c; written = []; lost = []; running = true }
