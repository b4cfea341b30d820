-- ===== src/Infra/Redis.antt =====
-- internal/infra/redis.go: the keys, the commands that are sent, and what is made of the replies. The
-- replies of the server are an argument; a failed call is `none`.
pub mod Laws
pub mod Heartbeats
use live_stream_danmaku.Base.{
  ℕ, ◌+◌, ◌-◌, ◌%◌, ◌^◌, Bool, true, false, List, [], ◌∷◌, ◌++◌, Option, none, some, if◌then◌else◌,
  ltb, map,
}
use live_stream_danmaku.Text.{Text, codes}
use live_stream_danmaku.Text.Decimal.{
  ℤ, pos, negsuc, u64, NumResult, parsed, syntax, range, parse_uint, result_value,
}

-- `KeyRoomLikes`, `KeyRoomServerOnline` and `KeyServerOfRoom`
unfoldable pub key_room_likes : Text → Text
key_room_likes room = codes "room:" ++ (room ++ codes ":likes")

unfoldable pub key_room_server_online : Text → Text → Text
key_room_server_online room server = codes "room:" ++ (room ++ (codes ":online:" ++ server))

unfoldable pub key_server_of_room : Text → Text
key_server_of_room room = codes "room:" ++ (room ++ codes ":servers")

-- SET with a time to live in seconds, SADD, SREM and INCRBY.
pub data Command : Type 0 where
  set : Text → ℕ → ℕ → Command
  s_add : Text → Text → Command
  s_rem : Text → Text → Command
  incr_by : Text → ℤ → Command

-- `int64(count)` of a uint64.
unfoldable pub int64 : ℕ → ℤ
int64 n = if ltb n (2 ^ 63) then pos n else negsuc (u64 - 1 - n)

-- `UpdateServerOnline`
unfoldable pub update_server_online : Text → Text → ℕ → ℕ → List Command
update_server_online room server n ttl =
    set (key_room_server_online room server) n ttl ∷ s_add (key_server_of_room room) server ∷ []

-- `IncrRoomLikes`
unfoldable pub incr_room_likes : Text → ℕ → List Command
unfolding int64
incr_room_likes room n = incr_by (key_room_likes room) (int64 n) ∷ []

-- SMEMBERS, MGET and GET. In a reply to MGET an expired key is `none`.
pub record Replies : Type 0 where
  pub s_members : Text → Option (List Text)
  pub m_get : List Text → Option (List (Option Text))
  pub get : Text → Option Text

-- One value of the sum: a key that has expired, or that holds no number, counts for nothing.
add_online : ℕ → Option Text → ℕ
add_online total none = total
add_online total (some s) = elim (parse_uint s) [ parsed n ↦ (total + n) % u64 | _ ↦ total ]

unfoldable pub sum_online : ℕ → List (Option Text) → ℕ
unfolding add_online
sum_online total [] = total
sum_online total (value ∷ values) = sum_online (add_online total value) values

sum_reply : Option (List (Option Text)) → ℕ
unfolding sum_online
sum_reply none = 0
sum_reply (some values) = sum_online 0 values

total_of : Replies → Text → Option (List Text) → ℕ
unfolding sum_reply
total_of replies room none = 0
total_of replies room (some []) = 0
total_of replies room (some (server ∷ servers)) =
    sum_reply (replies.m_get (map (key_room_server_online room) (server ∷ servers)))

-- `GetTotalOnline`: what it returns, and the removals that it starts, each in a goroutine of its own.
unfoldable pub get_total_online : Replies → Text → ℕ
unfolding total_of
get_total_online replies room = total_of replies room (replies.s_members (key_server_of_room room))

-- The servers whose value is nil. MGET gives one value for each key.
unfoldable pub expired : List Text → List (Option Text) → List Text
expired [] values = []
expired (server ∷ servers) [] = []
expired (server ∷ servers) (none ∷ values) = server ∷ expired servers values
expired (server ∷ servers) (some s ∷ values) = expired servers values

expired_reply : List Text → Option (List (Option Text)) → List Text
unfolding expired
expired_reply servers none = []
expired_reply servers (some values) = expired servers values

pub expired_of : Replies → Text → Option (List Text) → List Text
unfolding expired_reply
expired_of replies room none = []
expired_of replies room (some []) = []
expired_of replies room (some (server ∷ servers)) =
    expired_reply (server ∷ servers)
      (replies.m_get (map (key_room_server_online room) (server ∷ servers)))

unfoldable pub remove_expired : Replies → Text → List Command
unfolding expired_of
remove_expired replies room =
    map (s_rem (key_server_of_room room))
      (expired_of replies room (replies.s_members (key_server_of_room room)))

-- `GetRoomLikes`. The error of ParseUint is ignored.
unfoldable pub get_room_likes : Replies → Text → ℕ
get_room_likes replies room = elim (replies.get (key_room_likes room)) [
  | none ↦ 0
  | some value ↦ result_value (parse_uint value)
]
