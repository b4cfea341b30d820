-- ===== src/Ws/Loop/Likes.antt =====
-- internal/ws/manager.go: the likes of the clients, and what the ticks make of them, while the server
-- takes its turns. Each tick of `Start` runs `broadcastStats` in a goroutine of its own: it takes the
-- likes under one mutex, takes the rooms under another, and then goes from room to room, while other
-- turns, and other ticks, come in between.
pub mod Steady
pub mod Turns
pub mod Conserved
use live_stream_danmaku.Base.{
  ℕ, ◌+◌, ◌≡◌, List, [], ◌∷◌, ◌++◌, some, take_nth, if◌then◌else◌, ◌==◌, ◌&&◌, nat_eq, list_eq,
}
use live_stream_danmaku.Text.{Text}
use live_stream_danmaku.Text.Decimal.{int_eq}
use live_stream_danmaku.Dict.{has, lookup}
use live_stream_danmaku.Model.{TimeFormat, WsPacket, unmarshal_like, action_like}
use live_stream_danmaku.Infra.Redis.{Command, Replies}
use live_stream_danmaku.Ws.Manager.{Manager}
use live_stream_danmaku.Ws.Router.{or_zero}
use live_stream_danmaku.Ws.Manager.Stats.{local_stats, room_commands}
use live_stream_danmaku.Ws.Router.Laws.{liked}
use live_stream_danmaku.Ws.Loop.{Step, reads, takes_likes}

module _ {format : TimeFormat} where
  -- A step that is no part of a tick.
  abbrev pub IsTurn : {m m' : Manager} → Step format m m' → Type 0
  IsTurn takes_likes = ⊥
  IsTurn _ = Unit

  -- The likes for room `r` that a step reads from its sender.
  abbrev pub liked_by : Text → {m m' : Manager} → Step format m m' → ℕ
  liked_by r (reads {m} now k p e) =
      if p.msg_type == action_like && (m.clients k).room_id == r
      then liked (unmarshal_like p.raw_data)
      else 0
  liked_by r _ = 0

-- A tick that runs: it has taken the likes, or the rooms as well, of which `todo` are still to report.
pub data Tick : Type 0 where
  taken : (likes : List (Text × ℕ)) → Tick
  reporting : (likes todo : List (Text × ℕ)) → Tick

-- The manager, and the ticks that run. A tick reports its rooms in any order (`range` over a map); the
-- broadcast that ends the round of a room is the turn `informs`.
pub data History (format : TimeFormat) (s : Manager) : Manager → List Tick → Type 0 where
  began : History format s s []
  turned :
      {m m' : Manager} {ticks : List Tick}
      → History format s m ticks
      → (st : Step format m m') → IsTurn st
      → History format s m' ticks
  swaps :
      {m : Manager} {ticks : List Tick}
      → History format s m ticks
      → History format s (record m { local_likes = [] }) (taken m.local_likes ∷ ticks)
  snaps :
      {m : Manager} {ticks rest : List Tick} {likes : List (Text × ℕ)}
      → History format s m ticks
      → (i : ℕ) → take_nth i ticks ≡ some (taken likes, rest)
      → History format s m (reporting likes (local_stats m.rooms) ∷ rest)
  reports :
      {m : Manager} {ticks rest : List Tick} {likes todo todo' : List (Text × ℕ)}
      → History format s m ticks
      → (i j : ℕ) (replies : Replies) (room : Text × ℕ)
      → take_nth i ticks ≡ some (reporting likes todo, rest)
      → take_nth j todo ≡ some (room, todo')
      → History format s m (reporting likes todo' ∷ rest)

abbrev pub total {ℓ} : {A : Type ℓ} → (A → ℕ) → List A → ℕ
total f [] = 0
total f (x ∷ xs) = f x + total f xs

-- The likes for room `r` that a tick has taken and will still report.

abbrev pub due : Text → List (Text × ℕ) → Text × ℕ → ℕ
due r likes room = if room.0 == r then or_zero (lookup r likes) else 0

abbrev pub held : Text → Tick → ℕ
held r (taken likes) = or_zero (lookup r likes)
held r (reporting likes todo) = total (due r likes) todo

module _ {format : TimeFormat} {s : Manager} where
  -- The likes for room `r` that have been read.
  abbrev pub liked_in : Text → {m : Manager} {ticks : List Tick} → History format s m ticks → ℕ
  liked_in r began = 0
  liked_in r (turned h st t) = liked_in r h + liked_by r st
  liked_in r (swaps h) = liked_in r h
  liked_in r (snaps h i e) = liked_in r h
  liked_in r (reports h i j replies room e f) = liked_in r h

  -- The commands that the ticks have handed to Redis.
  abbrev pub sent_in : {m : Manager} {ticks : List Tick} → History format s m ticks → List Command
  sent_in began = []
  sent_in (turned h st t) = sent_in h
  sent_in (swaps h) = sent_in h
  sent_in (snaps h i e) = sent_in h
  sent_in (reports {m} {likes = likes} h i j replies room e f) =
      sent_in h ++ room_commands replies m.server_id likes room

  -- The likes for room `r` that a tick had taken, when it found no such room on the server.
  abbrev pub lost_in : Text → {m : Manager} {ticks : List Tick} → History format s m ticks → ℕ
  lost_in r began = 0
  lost_in r (turned h st t) = lost_in r h
  lost_in r (swaps h) = lost_in r h
  lost_in r (snaps {m} {likes = likes} h i e) =
      lost_in r h + (if has r m.rooms then 0 else or_zero (lookup r likes))
  lost_in r (reports h i j replies room e f) = lost_in r h
