-- ===== src/Ws/Manager.antt =====
-- internal/ws/manager.go: the state of the manager, and its handlers.
pub mod Registry
pub mod Broadcast
pub mod Stats
use live_stream_danmaku.Base.{
  ℕ, zero, suc, ◌+◌, ◌≡◌, Bool, true, false, List, [], ◌∷◌, ◌++◌, Option, none, some, if◌then◌else◌,
  ltb, length, nat_eq, list_eq, ◌==◌, ◌&&◌, map, ◌%◌,
}
use live_stream_danmaku.Text.{Text, codes}
use live_stream_danmaku.Text.Decimal.{int_eq, u64}
use live_stream_danmaku.Dict.{lookup, insert, delete, has}
use live_stream_danmaku.Dict.Sets.{member, add, remove, count}
use live_stream_danmaku.Json.{Bytes, ◌>>=◌}
use live_stream_danmaku.Model.{WsPacket, marshal_packet, type_danmaku, type_stats, action_like}
use live_stream_danmaku.Ws.Client.{Client, close}
use live_stream_danmaku.Ws.Jobs.{Jobs, dispatch}

-- A goroutine that runs `subscribeToRoom(ctx, room)`; `cancelled` says that its context is done.
pub record Subscription : Type 0 where
  pub ctx : ℕ
  pub room : Text
  pub cancelled : Bool

-- A client is known by its pointer, a number; `clients` is the heap. A cancel function is known by
-- the number of its context. The last three fields are what has been given to the outside: the
-- messages put on Kafka's input and those published to Redis, newest last, each with its topic or
-- room, and the packets waiting on the `Broadcast` channel.
pub record Manager : Type 0 where
  pub server_id : Text
  pub rooms : List (Text × List ℕ)
  pub cancel_sub : List (Text × ℕ)
  pub local_likes : List (Text × ℕ)
  pub clients : ℕ → Client
  pub next_ctx : ℕ
  pub subscriptions : List Subscription
  pub jobs : Jobs
  pub broadcast : List WsPacket
  pub kafka_input : List (Text × Bytes)
  pub published : List (Text × Bytes)

-- The pool is empty, and no job waits.
abbrev pub new_jobs : Jobs
new_jobs = record {
  memory = record { cells = λ a i. 0; next = 0 };
  pool = [];
  job_chan = [];
  busy = [];
}

-- `NewManager`, with `clients` for the clients that will be there.
unfoldable pub new_manager : Text → (ℕ → Client) → Manager
new_manager server_id clients = record {
  server_id = server_id;
  rooms = [];
  cancel_sub = [];
  local_likes = [];
  clients = clients;
  next_ctx = 0;
  subscriptions = [];
  jobs = new_jobs;
  broadcast = [];
  kafka_input = [];
  published = [];
}

-- `m.Rooms[room]` as a value: a missing room is the nil map.
abbrev pub or_nil : Option (List ℕ) → List ℕ
or_nil none = []
or_nil (some cs) = cs

-- The first client of a room: its map entry, its cancel function and its subscriber.
pub open_room : Text → Manager → Manager
open_room room m = record m {
  rooms = insert room [] m.rooms;
  cancel_sub = insert room m.next_ctx m.cancel_sub;
  next_ctx = suc m.next_ctx;
  subscriptions = record { ctx = m.next_ctx; room = room; cancelled = false } ∷ m.subscriptions;
}

pub enter_room : Text → ℕ → Manager → Manager
enter_room room k m = record m {
  rooms = insert room (add k (or_nil (lookup room m.rooms))) m.rooms;
}

-- `handleRegister`
unfoldable pub handle_register : ℕ → Manager → Manager
unfolding open_room enter_room
handle_register k m =
    let room = (m.clients k).room_id in
    enter_room room k (if has room m.rooms then m else open_room room m)

abbrev pub cancel_one : ℕ → Subscription → Subscription
cancel_one c s = if c == s.ctx then record s { cancelled = true } else s

unfoldable pub cancel : ℕ → List Subscription → List Subscription
cancel c = map (cancel_one c)

-- The last client has left: the room goes, and its subscription is cancelled.
pub stop_subscription : Text → Option ℕ → Manager → Manager
unfolding cancel
stop_subscription room none m = m
stop_subscription room (some c) m = record m {
  subscriptions = cancel c m.subscriptions;
  cancel_sub = delete room m.cancel_sub;
}

pub close_room : Text → Manager → Manager
unfolding stop_subscription
close_room room m =
    stop_subscription room (lookup room m.cancel_sub) (record m { rooms = delete room m.rooms })

abbrev pub is_empty {ℓ} : {A : Type ℓ} → List A → Bool
is_empty [] = true
is_empty (x ∷ xs) = false

abbrev pub update : (ℕ → Client) → ℕ → Client → ℕ → Client
update f k c j = if k == j then c else f j

-- `delete(clients, client)`, `client.Close()` and the end of an empty room.
pub leave_room : Text → ℕ → List ℕ → Manager → Client → Manager
unfolding close_room
leave_room room k clients m closed =
    let rest = remove k clients in
    let m' = record m { rooms = insert room rest m.rooms; clients = update m.clients k closed } in
    if is_empty rest then close_room room m' else m'

-- `handleUnregister`; `none` is a panic in `Close`.
unfoldable pub handle_unregister : ℕ → Manager → Option Manager
unfolding leave_room
handle_unregister k m =
    let room = (m.clients k).room_id in
    elim (lookup room m.rooms) [
      | none ↦ some m
      | some clients ↦
          (if member k clients
            then (close (m.clients k) >>= λ closed. some (leave_room room k clients m closed))
            else some m)
    ]
