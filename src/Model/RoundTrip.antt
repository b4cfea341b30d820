-- ===== src/Model/RoundTrip.antt =====
-- Marshal and unmarshal of the envelope and the payloads.
use live_stream_danmaku.Base.{◌≡◌, ◌∙◌, refl, ◌<◌, [], ◌∷◌, some, list_beq, Option-cases, inl, inr}
use live_stream_danmaku.Text.{Text, codes, to_valid_utf8}
use live_stream_danmaku.Text.Decimal.{ℤ, IsInt64, u64}
use live_stream_danmaku.Json.{
  Json, obj, field, str, end, put_uint, Bytes, empty, malformed, doc, same_name, unmarshal_struct,
  put_raw, put_text, ◌>>=◌, get_text, null,
}
use live_stream_danmaku.Json.Laws.{get_uint-put_uint, get_int-put_int, get_text-put_text}
use live_stream_danmaku.Model.{
  WsPacket, unmarshal_packet, marshal_packet, TimeFormat, DanmakuMessage, marshal_message,
  unmarshal_message, Like, StatsData, marshal_like, unmarshal_like, marshal_stats, unmarshal_stats,
}

packet_of_doc :
    (z : ℤ) (room : Text) (j : Json)
    → IsInt64 z
    → (marshal_packet (record { msg_type = z; room_id = room; raw_data = doc j })
        >>= unmarshal_packet)
      ≡ some (record { msg_type = z; room_id = to_valid_utf8 room; raw_data = doc j })
unfolding unmarshal_packet marshal_packet put_raw same_name unmarshal_struct to_valid_utf8 list_beq
packet_of_doc z [] j h = rw (get_int-put_int (ℤ.pos 0) z h, ◌>>=◌)
packet_of_doc z (c ∷ s) j h =
    rw (get_int-put_int (ℤ.pos 0) z h, ◌>>=◌) (rw (get_text-put_text [] (c ∷ s), ◌>>=◌))

by_data :
    (z : ℤ) (room : Text) (b : Bytes)
    → IsInt64 z
    → (marshal_packet (record { msg_type = z; room_id = room; raw_data = b }) >>= unmarshal_packet)
      ≡ (put_raw b >>= λ j.
          some (record { msg_type = z; room_id = to_valid_utf8 room; raw_data = doc j }))
unfolding marshal_packet put_raw
by_data z room empty h = packet_of_doc z room null h
by_data z room malformed h = refl
by_data z room (doc j) h = packet_of_doc z room j h

-- An envelope whose type is an int64 comes back from JSON with its type, its data and its room,
-- in which invalid UTF-8 has become U+FFFD; nil data comes back as `null`, and invalid data is
-- not written at all.
pub marshal_packet-unmarshal_packet :
    (p : WsPacket)
    → IsInt64 p.msg_type
    → (marshal_packet p >>= unmarshal_packet) ≡ (
        put_raw p.raw_data >>= λ j.
        some (record p { room_id = to_valid_utf8 p.room_id; raw_data = doc j }))
marshal_packet-unmarshal_packet p h = by_data p.msg_type p.room_id p.raw_data h

-- With a document for its data it can be written.
pub marshal_packet_doc :
    (p : WsPacket) (j : Json)
    → IsInt64 p.msg_type
    → p.raw_data ≡ doc j
    → (payload : Bytes) × (marshal_packet p ≡ some payload)
      × (unmarshal_packet payload
          ≡ some (record p { room_id = to_valid_utf8 p.room_id; raw_data = doc j }))
unfolding put_raw
marshal_packet_doc p j small d =
    let r : (marshal_packet p >>= unmarshal_packet)
        ≡ some (record p { room_id = to_valid_utf8 p.room_id; raw_data = doc j }) =
      marshal_packet-unmarshal_packet p small ∙ simp d refl in
    elim (Option-cases (marshal_packet p)) [
      | inl e ↦ let r' = rw e at r in cc
      | inr (b, e) ↦ (b, e, (rw e at r))
    ]

-- The document of a message, whose time is written as `t`.
abbrev pub message_doc : DanmakuMessage → Text → Json
message_doc m t = obj (
    field (codes "id") (put_uint m.id) (
      field (codes "room_id") (put_text m.room_id) (
        field (codes "user_id") (put_uint m.user_id)
          (field (codes "content") (put_text m.content) (field (codes "send_time") (str t) end)))))

pub marshal_message_doc :
    (format : TimeFormat) (m : DanmakuMessage) (t : Text)
    → format.write m.send_time ≡ some t
    → marshal_message format m ≡ some (doc (message_doc m t))
unfolding marshal_message
marshal_message_doc format m t w = rw (w, ◌>>=◌) refl

written :
    (format : TimeFormat) (m : DanmakuMessage) (t : Text)
    → m.id < u64
    → m.user_id < u64
    → format.write m.send_time ≡ some t
    → (marshal_message format m >>= unmarshal_message format) ≡ (
        format.write m.send_time >>= λ t.
        some (record m { room_id = to_valid_utf8 m.room_id; content = to_valid_utf8 m.content }))
unfolding marshal_message unmarshal_message same_name unmarshal_struct list_beq get_text put_text
    to_valid_utf8
written format m t hi hu e =
    rw (e, ◌>>=◌)
      (rw (get_uint-put_uint 0 m.id hi, get_uint-put_uint 0 m.user_id hu, ◌>>=◌)
        (rw (format.read-write m.send_time t e, ◌>>=◌)))

-- A message whose id and user id are uint64s comes back from JSON with each of its fields, texts
-- made valid UTF-8, if its time can be written; it is not written otherwise.
pub marshal_message-unmarshal_message :
    (format : TimeFormat) (m : DanmakuMessage)
    → m.id < u64
    → m.user_id < u64
    → (marshal_message format m >>= unmarshal_message format) ≡ (
        format.write m.send_time >>= λ t.
        some (record m { room_id = to_valid_utf8 m.room_id; content = to_valid_utf8 m.content }))
marshal_message-unmarshal_message format m hi hu = elim (Option-cases (format.write m.send_time)) [
  | inl e ↦ unfold marshal_message in rw (e, ◌>>=◌)
  | inr (t, e) ↦ written format m t hi hu e
]

pub unmarshal_message_doc :
    (format : TimeFormat) (m : DanmakuMessage) (t : Text)
    → m.id < u64
    → m.user_id < u64
    → format.write m.send_time ≡ some t
    → unmarshal_message format (doc (message_doc m t))
      ≡ some (record m { room_id = to_valid_utf8 m.room_id; content = to_valid_utf8 m.content })
unmarshal_message_doc format m t hi hu w =
    let full = marshal_message-unmarshal_message format m hi hu in
    let back = rw w at full in rw (marshal_message_doc format m t w) at back

-- A like whose count is a uint64 comes back from JSON unchanged.
pub marshal_like-unmarshal_like :
    (l : Like) → l.count < u64 → unmarshal_like (marshal_like l) ≡ some l
unfolding marshal_like unmarshal_like same_name unmarshal_struct list_beq
marshal_like-unmarshal_like l h = rw (get_uint-put_uint 0 l.count h, ◌>>=◌)

-- Statistics whose two numbers are uint64s come back from JSON unchanged.
pub marshal_stats-unmarshal_stats :
    (s : StatsData) → s.online < u64 → s.likes < u64 → unmarshal_stats (marshal_stats s) ≡ some s
unfolding marshal_stats unmarshal_stats same_name unmarshal_struct list_beq
marshal_stats-unmarshal_stats s h k =
    rw (get_uint-put_uint 0 s.online h, ◌>>=◌) (rw (get_uint-put_uint 0 s.likes k, ◌>>=◌))
