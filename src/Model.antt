-- ===== src/Model.antt =====
-- internal/model/message.go, room.go and user.go: the message types, the envelope and the payloads,
-- with the JSON that their struct tags describe.
pub mod RoundTrip
use live_stream_danmaku.Base.{
  ℕ, ◌≡◌, refl, Bool, true, false, List, [], ◌∷◌, Option, none, some, ◌==◌, list_eq, nat_eq,
  if◌then◌else◌,
}
use live_stream_danmaku.Text.{Text, codes}
use live_stream_danmaku.Text.Decimal.{ℤ, pos}
use live_stream_danmaku.Json.{
  Json, null, obj, str, Fields, end, field, Bytes, empty, malformed, doc, ◌>>=◌, same_name,
  set_fields, unmarshal_struct, get_uint, get_int, get_text, put_uint, put_int, put_text, put_raw,
}

abbrev pub type_danmaku : ℤ
type_danmaku = pos 101

abbrev pub type_stats : ℤ
type_stats = pos 102

abbrev pub action_like : ℤ
action_like = pos 103

-- The fields `Type`, `RoomID` and `Data`.
pub record WsPacket : Type 0 where
  pub msg_type : ℤ
  pub room_id : Text
  pub raw_data : Bytes

-- `send_time` is an instant, in nanoseconds from the zero `time.Time`.
pub record DanmakuMessage : Type 0 where
  pub id : ℕ
  pub room_id : Text
  pub user_id : ℕ
  pub content : Text
  pub send_time : ℕ

pub record StatsData : Type 0 where
  pub online : ℕ
  pub likes : ℕ

pub record Like : Type 0 where
  pub count : ℕ

pub record Room : Type 0 where
  pub id : ℕ
  pub room_number : Text

pub record User : Type 0 where
  pub id : ℕ
  pub username : Text

unfoldable pub table_name : DanmakuMessage → Text
table_name m = codes "danmaku_messages"

-- The JSON form of a `time.Time`: its layout is a parameter. `write` fails for a year past 9999,
-- and what it writes is read back as the same instant.
pub record TimeFormat : Type 0 where
  pub write : ℕ → Option Text
  pub read : Text → Option ℕ
  pub read-write : (t : ℕ) (s : Text) → write t ≡ some s → read s ≡ some t

abbrev pub zero_packet : WsPacket
zero_packet = record { msg_type = pos 0; room_id = []; raw_data = empty }

abbrev pub zero_message : DanmakuMessage
zero_message = record { id = 0; room_id = []; user_id = 0; content = []; send_time = 0 }

-- A json.RawMessage field keeps the document as it is, `null` too.
set_packet_field : WsPacket → Text → Json → Option WsPacket
set_packet_field p k v =
    if same_name k (codes "type")
    then (get_int p.msg_type v >>= λ z. some (record p { msg_type = z }))
    else if same_name k (codes "room_id")
    then (get_text p.room_id v >>= λ s. some (record p { room_id = s }))
    else if same_name k (codes "data")
    then some (record p { raw_data = doc v })
    else some p

unfoldable pub unmarshal_packet : Bytes → Option WsPacket
unfolding set_packet_field
unmarshal_packet = unmarshal_struct set_packet_field zero_packet

-- `omitempty` leaves an empty room out.
room_field : Text → Fields → Fields
room_field [] rest = rest
room_field (c ∷ s) rest = field (codes "room_id") (put_text (c ∷ s)) rest

unfoldable pub marshal_packet : WsPacket → Option Bytes
unfolding room_field
marshal_packet p = put_raw p.raw_data >>= λ d. some (
    doc (
      obj (
        field (codes "type") (put_int p.msg_type)
          (room_field p.room_id (field (codes "data") d end)))))

module _ (format : TimeFormat) where
  get_time : ℕ → Json → Option ℕ
  get_time old null = some old
  get_time old (str s) = format.read s
  get_time old _ = none

  set_message_field : DanmakuMessage → Text → Json → Option DanmakuMessage
  set_message_field m k v =
      if same_name k (codes "id")
      then (get_uint m.id v >>= λ n. some (record m { id = n }))
      else if same_name k (codes "room_id")
      then (get_text m.room_id v >>= λ s. some (record m { room_id = s }))
      else if same_name k (codes "user_id")
      then (get_uint m.user_id v >>= λ n. some (record m { user_id = n }))
      else if same_name k (codes "content")
      then (get_text m.content v >>= λ s. some (record m { content = s }))
      else if same_name k (codes "send_time")
      then (get_time m.send_time v >>= λ t. some (record m { send_time = t }))
      else some m

  unfoldable pub unmarshal_message : Bytes → Option DanmakuMessage
  unfolding set_message_field get_time
  unmarshal_message = unmarshal_struct set_message_field zero_message

  unfoldable pub marshal_message : DanmakuMessage → Option Bytes
  marshal_message m = format.write m.send_time >>= λ t. some (
      doc (
        obj (
          field (codes "id") (put_uint m.id) (
            field (codes "room_id") (put_text m.room_id) (
              field (codes "user_id") (put_uint m.user_id) (
                field (codes "content") (put_text m.content)
                  (field (codes "send_time") (str t) end)))))))

set_like_field : Like → Text → Json → Option Like
set_like_field l k v =
    if same_name k (codes "count")
    then (get_uint l.count v >>= λ n. some (record { count = n }))
    else some l

unfoldable pub unmarshal_like : Bytes → Option Like
unfolding set_like_field
unmarshal_like = unmarshal_struct set_like_field (record { count = 0 })

unfoldable pub marshal_like : Like → Bytes
marshal_like l = doc (obj (field (codes "count") (put_uint l.count) end))

set_stats_field : StatsData → Text → Json → Option StatsData
set_stats_field s k v =
    if same_name k (codes "online")
    then (get_uint s.online v >>= λ n. some (record s { online = n }))
    else if same_name k (codes "likes")
    then (get_uint s.likes v >>= λ n. some (record s { likes = n }))
    else some s

unfoldable pub unmarshal_stats : Bytes → Option StatsData
unfolding set_stats_field
unmarshal_stats = unmarshal_struct set_stats_field (record { online = 0; likes = 0 })

unfoldable pub marshal_stats : StatsData → Bytes
marshal_stats s = doc (
    obj (field (codes "online") (put_uint s.online) (field (codes "likes") (put_uint s.likes) end)))
