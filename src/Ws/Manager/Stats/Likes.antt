-- ===== src/Ws/Manager/Stats/Likes.antt =====
-- Which likes reach Redis.
use live_stream_danmaku.Base.{
  ℕ, ◌≤◌, ◌≡◌, refl, sym, ap, ◌∙◌, List, [], ◌∷◌, ◌++◌, Option, none, some, if◌then◌else◌, ltb,
  nat_eq, list_eq, ◌==◌, ==_iff, arith, Bool-cases, Option-cases, inl, inr, append-nil,
  append_assoc, map,
}
use live_stream_danmaku.Text.{Text}
use live_stream_danmaku.Text.Decimal.{ℤ}
use live_stream_danmaku.Dict.{lookup, has}
use live_stream_danmaku.Dict.Entries.{entries}
use live_stream_danmaku.Json.{Bytes}
use live_stream_danmaku.Model.{marshal_packet}
use live_stream_danmaku.Infra.Redis.{
  Command, set, s_add, s_rem, incr_by, key_server_of_room, remove_expired, expired_of, Replies,
  int64, key_room_likes, update_server_online, incr_room_likes,
}
use live_stream_danmaku.Infra.Redis.Laws.{key_room_likes-inj}
use live_stream_danmaku.Ws.Manager.{Manager}
use live_stream_danmaku.Ws.Manager.Broadcast.{Choices, broadcast_to_local_clients}
use live_stream_danmaku.Ws.Manager.Stats.{
  Ticked, room_commands, tick_room, tick_rooms, broadcast_stats, local_stats, report_likes,
  send_stats, stats_packet,
}

-- The increments that the commands make at a key.
abbrev pub increment : Text → Command → List ℤ
increment key (set k n ttl) = []
increment key (s_add k s) = []
increment key (s_rem k s) = []
increment key (incr_by k z) = if k == key then z ∷ [] else []

abbrev pub increments : Text → List Command → List ℤ
increments key [] = []
increments key (c ∷ cs) = increment key c ++ increments key cs

pub increments-append :
    (key : Text) (cs ds : List Command)
    → increments key (cs ++ ds) ≡ increments key cs ++ increments key ds
increments-append key [] ds = refl
increments-append key (c ∷ cs) ds =
    rw (increments-append key cs ds)
      (sym (append_assoc (increment key c) (increments key cs) (increments key ds)))

-- What a counted number of likes sends.
abbrev pub pending : Option ℕ → List ℤ
pending none = []
pending (some n) = if ltb 0 n then int64 n ∷ [] else []

key_ap : (r s : Text) → r ≡ s → key_room_likes r ≡ key_room_likes s
key_ap r s e = ap key_room_likes e

same_key : (r s : Text) → (key_room_likes r == key_room_likes s) ≡ (r == s)
same_key r s = ground (
  arith,
  ==_iff (key_room_likes r) (key_room_likes s),
  ==_iff r s,
  key_room_likes-inj r s,
  key_ap r s,
)

increments-report_likes :
    (r s : Text) (o : Option ℕ)
    → increments (key_room_likes r) (report_likes s o) ≡ (if s == r then pending o else [])
unfolding report_likes incr_room_likes
increments-report_likes r s none = ground arith
increments-report_likes r s (some n) = ground (arith, same_key s r)

removals :
    (key registry : Text) (servers : List Text) → increments key (map (s_rem registry) servers) ≡ []
removals key registry [] = refl
removals key registry (server ∷ servers) = removals key registry servers

increments-remove_expired :
    (key : Text) (replies : Replies) (room : Text)
    → increments key (remove_expired replies room) ≡ []
unfolding remove_expired
increments-remove_expired key replies room =
    removals key (key_server_of_room room)
      (expired_of replies room (replies.s_members (key_server_of_room room)))

-- The increments of one round, at the counter of room `r`.
pub increments-room_commands :
    (replies : Replies) (server : Text) (likes : List (Text × ℕ)) (r s : Text) (n : ℕ)
    → increments (key_room_likes r) (room_commands replies server likes (s, n))
      ≡ (if s == r then pending (lookup s likes) else [])
unfolding room_commands update_server_online
increments-room_commands replies server likes r s n =
    let key = key_room_likes r in
    let likes' = report_likes s (lookup s likes) in
    rw
      (
        increments-append key likes' (remove_expired replies s),
        increments-remove_expired key replies s,
        increments-report_likes r s (lookup s likes),
        append-nil (if s == r then pending (lookup s likes) else []),
      )
      refl

tick_room-increments :
    (ch : Choices) (replies : Replies) (likes : List (Text × ℕ)) (r s : Text) (n : ℕ) (t : Ticked)
    → increments (key_room_likes r) (tick_room ch replies likes (s, n) t).commands
      ≡ increments (key_room_likes r) t.commands
        ++ (if s == r then pending (lookup s likes) else [])
unfolding tick_room
tick_room-increments ch replies likes r s n t =
    let server = t.manager.server_id in
    rw
      (
        increments-append (key_room_likes r) t.commands (room_commands replies server likes (s, n)),
        increments-room_commands replies server likes r s n,
      )
      refl

abbrev sent : Text → List (Text × ℕ) → List (Text × ℕ) → List ℤ
sent r likes [] = []
sent r likes ((s, n) ∷ rooms) =
    (if s == r then pending (lookup s likes) else []) ++ sent r likes rooms

tick_rooms-increments :
    (ch : Choices) (replies : Replies) (likes : List (Text × ℕ)) (r : Text)
    (rooms : List (Text × ℕ)) (t : Ticked)
    → increments (key_room_likes r) (tick_rooms ch replies likes rooms t).commands
      ≡ increments (key_room_likes r) t.commands ++ sent r likes rooms
unfolding tick_rooms
tick_rooms-increments ch replies likes r [] t =
    sym (append-nil (increments (key_room_likes r) t.commands))
tick_rooms-increments ch replies likes r ((s, n) ∷ rooms) t =
    rw
      (
        tick_rooms-increments ch replies likes r rooms (tick_room ch replies likes (s, n) t),
        tick_room-increments ch replies likes r s n t,
      )
      (append_assoc (increments (key_room_likes r) t.commands)
        (if s == r then pending (lookup s likes) else []) (sent r likes rooms))

sent-none :
    (r : Text) (likes : List (Text × ℕ)) (rooms : List (Text × List ℕ))
    → entries r rooms ≡ 0
    → sent r likes (local_stats rooms) ≡ []
sent-none r likes [] h = refl
sent-none r likes ((s, cs) ∷ rooms) h = ground (arith, sent-none r likes rooms)

sent_once :
    (r : Text) (likes : List (Text × ℕ)) (rooms : List (Text × List ℕ))
    → entries r rooms ≤ 1
    → sent r likes (local_stats rooms) ≡ (if has r rooms then pending (lookup r likes) else [])
unfolding has
sent_once r likes [] h = refl
sent_once r likes ((s, cs) ∷ rooms) h = elim (Bool-cases (s == r)) [
  | inl e ↦
      let same : s ≡ r = (==_iff s r).0 e in
      let no_more : entries r rooms ≡ 0 = ground arith in
      rw e (rw (sent-none r likes rooms no_more, same) (append-nil (pending (lookup r likes))))
  | inr e ↦ rw e (sent_once r likes rooms (rw e at h))
]

broadcast-local_likes :
    (ch : Choices) (r : Text) (o : Option Bytes) (m : Manager)
    → (send_stats ch r o m).local_likes ≡ m.local_likes
unfolding send_stats broadcast_to_local_clients
broadcast-local_likes ch r none m = refl
broadcast-local_likes ch r (some b) m = elim (Option-cases (lookup r m.rooms)) [
  | inl e ↦ rw (e, broadcast_to_local_clients) refl
  | inr (cs, e) ↦ rw (e, broadcast_to_local_clients) refl
]

tick_rooms-local_likes :
    (ch : Choices) (replies : Replies) (likes : List (Text × ℕ)) (rooms : List (Text × ℕ))
    (t : Ticked)
    → (tick_rooms ch replies likes rooms t).manager.local_likes ≡ t.manager.local_likes
unfolding tick_rooms tick_room
tick_rooms-local_likes ch replies likes [] t = refl
tick_rooms-local_likes ch replies likes ((s, n) ∷ rooms) t =
    tick_rooms-local_likes ch replies likes rooms (tick_room ch replies likes (s, n) t)
    ∙ broadcast-local_likes ch s (marshal_packet (stats_packet replies s)) t.manager

broadcast-rooms :
    (ch : Choices) (r : Text) (o : Option Bytes) (m : Manager)
    → (send_stats ch r o m).rooms ≡ m.rooms
unfolding send_stats broadcast_to_local_clients
broadcast-rooms ch r none m = refl
broadcast-rooms ch r (some b) m = elim (Option-cases (lookup r m.rooms)) [
  | inl e ↦ rw (e, broadcast_to_local_clients) refl
  | inr (cs, e) ↦ rw (e, broadcast_to_local_clients) refl
]

tick_rooms-rooms :
    (ch : Choices) (replies : Replies) (likes : List (Text × ℕ)) (rooms : List (Text × ℕ))
    (t : Ticked)
    → (tick_rooms ch replies likes rooms t).manager.rooms ≡ t.manager.rooms
unfolding tick_rooms tick_room
tick_rooms-rooms ch replies likes [] t = refl
tick_rooms-rooms ch replies likes ((s, n) ∷ rooms) t =
    tick_rooms-rooms ch replies likes rooms (tick_room ch replies likes (s, n) t)
    ∙ broadcast-rooms ch s (marshal_packet (stats_packet replies s)) t.manager

pub broadcast_stats-rooms :
    (ch : Choices) (replies : Replies) (m : Manager)
    → (broadcast_stats ch replies m).manager.rooms ≡ m.rooms
unfolding broadcast_stats
broadcast_stats-rooms ch replies m =
    tick_rooms-rooms ch replies m.local_likes (local_stats m.rooms)
      (record { manager = record m { local_likes = [] }; commands = [] })

-- A tick forgets all likes that were counted. Of a room that stands once in the map of rooms it sends
-- the number, as an int64, to the room's counter, once, if it is not 0; the likes of a room that does
-- not stand in the map are sent nowhere.
pub broadcast_stats_likes :
    (ch : Choices) (replies : Replies) (m : Manager) (r : Text)
    → entries r m.rooms ≤ 1
    → let t = broadcast_stats ch replies m in
      (t.manager.local_likes ≡ [])
      × (increments (key_room_likes r) t.commands
          ≡ (if has r m.rooms then pending (lookup r m.local_likes) else []))
unfolding broadcast_stats
broadcast_stats_likes ch replies m r h =
    let start : Ticked = record { manager = record m { local_likes = [] }; commands = [] } in
    (
      tick_rooms-local_likes ch replies m.local_likes (local_stats m.rooms) start,
      tick_rooms-increments ch replies m.local_likes r (local_stats m.rooms) start
          ∙ sent_once r m.local_likes m.rooms h,
    )
