-- ===== src/Repo.antt =====
-- internal/repo/message_repo.go and internal/service/chat_service.go. GORM and MySQL are not part of
-- the program: what a call of them does is the argument `Attempt`, and a query is the value that the
-- program builds.
use live_stream_danmaku.Base.{
  ℕ, ◌≡◌, ◌<◌, ◌+◌, ◌^◌, refl, Bool, true, List, [], ◌∷◌, ◌++◌, Option, none, some, if◌then◌else◌,
  nat_eq, ◌==◌, append_assoc,
}
use live_stream_danmaku.Text.{Text, codes}
use live_stream_danmaku.Model.{DanmakuMessage}

-- A `*model.DanmakuMessage`; `none` is the nil pointer.
abbrev pub Message : Type 0
Message = Option DanmakuMessage

-- A row of the table of the danmaku, with the columns of the model.
abbrev pub Row : Type 0
Row = DanmakuMessage

-- A row that MySQL makes of a message: the id is AUTO_INCREMENT's, and a `datetime(3)` keeps
-- milliseconds, so that the time, here in nanoseconds, may be less than one millisecond off.
pub record IsRow (d : DanmakuMessage) (r : Row) : Type 0 where
  pub same_room : r.room_id ≡ d.room_id
  pub same_user : r.user_id ≡ d.user_id
  pub same_content : r.content ≡ d.content
  pub not_before : d.send_time < r.send_time + 10 ^ 6
  pub not_after : r.send_time < d.send_time + 10 ^ 6

-- One row for each message, in order; nothing is said of what a nil message adds.
abbrev pub AreRows : List Message → List Row → Type 0
AreRows [] rows = rows ≡ []
AreRows (none ∷ ms) rows =
    (xs : List Row) × (rest : List Row) × (rows ≡ xs ++ rest) × AreRows ms rest
AreRows (some d ∷ ms) rows =
    (r : Row) × (rest : List Row) × (rows ≡ r ∷ rest) × IsRow d r × AreRows ms rest

pub AreRows-append :
    (ms ns : List Message) (xs ys : List Row)
    → AreRows ms xs
    → AreRows ns ys
    → AreRows (ms ++ ns) (xs ++ ys)
AreRows-append [] ns xs ys e k = rw e k
AreRows-append (none ∷ ms) ns xs ys (zs, rest, e, h) k =
    (zs, rest ++ ys, rw e (append_assoc zs rest ys), AreRows-append ms ns rest ys h k)
AreRows-append (some d ∷ ms) ns xs ys (r, rest, e, row, h) k =
    (r, rest ++ ys, rw e refl, row, AreRows-append ms ns rest ys h k)

-- One `INSERT`: whether the rows are stored, whether GORM reports success, whether the context is
-- cancelled in the wait after a failure, and the rows that MySQL makes of a batch.
pub record Attempt : Type 0 where
  pub stored : Bool
  pub reported : Bool
  pub cancelled : Bool
  pub rows_of : List Message → List Row

-- `CreateInBatches(msgs, len(msgs))`: the table after the call, and `err == nil`.
unfoldable pub create_in_batches : Attempt → List Message → List Row → List Row × Bool
create_in_batches a [] table = (table, true)
create_in_batches a (m ∷ ms) table =
    (if a.stored then table ++ a.rows_of (m ∷ ms) else table, a.reported)

-- The query of `GetPlayBackDanmaku`: its conditions, its order and its limit.
pub data Condition : Type 0 where
  room_id_is : Text → Condition
  send_time_from : ℕ → Condition

pub record Query : Type 0 where
  pub conditions : List Condition
  pub order_by : Text
  pub limit : ℕ

-- `queryTime.IsZero()` leaves the time out.
unfoldable pub playback_query : Text → ℕ → ℕ → Query
playback_query room query_time limit = record {
  conditions = room_id_is room ∷ (if query_time == 0 then [] else send_time_from query_time ∷ []);
  order_by = codes "send_time ASC";
  limit = limit;
}

abbrev pub default_limit : ℕ
default_limit = 100

-- `ChatService.GetPlaybackDanmaku`
unfoldable pub get_playback_danmaku : Text → ℕ → Query
unfolding playback_query
get_playback_danmaku room start_time = playback_query room start_time default_limit
