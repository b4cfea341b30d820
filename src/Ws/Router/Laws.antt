-- ===== src/Ws/Router/Laws.antt =====
-- What the handlers let through.
use Prim.Native.Nat.{max}
use live_stream_danmaku.Base.{
  ℕ, ◌+◌, ◌%◌, ◌<◌, ◌≡◌, ◌≢◌, refl, [], ◌∷◌, ◌++◌, Option, none, some, if◌then◌else◌, nat_eq,
  list_eq, ◌==◌, ==_iff, arith, ◌∙◌, length, lt→ltb,
}
use live_stream_danmaku.Text.{Text, to_valid_utf8}
use live_stream_danmaku.Text.Decimal.{ℤ, int_eq, u64}
use live_stream_danmaku.Dict.{lookup, insert}
use live_stream_danmaku.Dict.Laws.{lookup-insert}
use live_stream_danmaku.Json.{Bytes, ◌>>=◌}
use live_stream_danmaku.Model.{
  WsPacket, DanmakuMessage, Like, TimeFormat, unmarshal_message, unmarshal_like, marshal_message,
  type_danmaku, action_like,
}
use live_stream_danmaku.Model.RoundTrip.{marshal_message-unmarshal_message}
use live_stream_danmaku.Ws.Manager.{Manager}
use live_stream_danmaku.Ws.Manager.Broadcast.{send_broadcast, broadcast_chan_size}
use live_stream_danmaku.Ws.Router.{
  dispatch, action_registry, register_action, or_empty, like_count, or_zero, add_likes,
  like_handler, danmaku_handler, danmaku_packet, full_message,
}

or_empty_bind :
    (o : Option Bytes) (f : Bytes → Option DanmakuMessage) (x : DanmakuMessage)
    → (o >>= f) ≡ some x
    → f (or_empty o) ≡ some x
or_empty_bind none f x e = cc
or_empty_bind (some b) f x e = e

abbrev pub likes_in : Text → Manager → ℕ
likes_in r n = or_zero (lookup r n.local_likes)

-- The count that a like stands for: at least 1.
abbrev pub liked : Option Like → ℕ
liked none = 1
liked (some l) = max 1 l.count

like_count-liked : (o : Option Like) → like_count o ≡ liked o
unfolding like_count
like_count-liked none = refl
like_count-liked (some l) = ground arith

module _ (format : TimeFormat) (now : ℕ) (client : ℕ) (m : Manager) (payload : Bytes) where
  pub dispatch_danmaku :
      dispatch (action_registry format now) client m type_danmaku payload
      ≡ danmaku_handler format now client m payload
  unfolding dispatch action_registry lookup insert
  dispatch_danmaku = refl

  pub dispatch_like :
      dispatch (action_registry format now) client m action_like payload
      ≡ like_handler client m payload
  unfolding dispatch action_registry lookup insert
  dispatch_like = refl

  -- A message of any type but those of a danmaku and of a like changes nothing.
  pub dispatch_unknown :
      (t : ℤ)
      → t ≢ type_danmaku
      → t ≢ action_like
      → dispatch (action_registry format now) client m t payload ≡ some m
  unfolding dispatch action_registry register_action lookup insert
  dispatch_unknown t h k = ground (arith, ==_iff type_danmaku t, ==_iff action_like t)

  -- A like is counted for the sender's room, and for no other, modulo 2^64: as the count that the
  -- payload gives, but at least 1, and as 1 if the payload is invalid.
  pub dispatch_like_counts :
      (m' : Manager) × (dispatch (action_registry format now) client m action_like payload
        ≡ some m')
      × ((r : Text)
          → likes_in r m' ≡ (
              if (m.clients client).room_id == r
              then (likes_in r m + liked (unmarshal_like payload)) % u64
              else likes_in r m))
  dispatch_like_counts =
      let room = (m.clients client).room_id in
      let n = like_count (unmarshal_like payload) in
      (
        add_likes room n m,
        dispatch_like ∙ (unfold like_handler in refl),
        λ r.
            unfold add_likes in
            rw
              (
                lookup-insert room r ((or_zero (lookup room m.local_likes) + n) % u64)
                    m.local_likes,
                like_count-liked (unmarshal_like payload),
              )
              (ground (arith, ==_iff room r)),
      )

  -- With space on the channel the packet of the handler is put on it.
  pub dispatch_danmaku_queued :
      (input : DanmakuMessage)
      → unmarshal_message format payload ≡ some input
      → length m.broadcast < broadcast_chan_size
      → dispatch (action_registry format now) client m type_danmaku payload
        ≡ some (record m {
          broadcast = m.broadcast ++ danmaku_packet format now (m.clients client) input ∷ [];
        })
  dispatch_danmaku_queued input e free =
      dispatch_danmaku
      ∙ unfold danmaku_handler send_broadcast in
        rw (e, danmaku_handler) (rw (lt→ltb (length m.broadcast) broadcast_chan_size free))

  signed :
      (input : DanmakuMessage) (t : Text)
      → format.write now ≡ some t
      → (m.clients client).user_id < u64
      → unmarshal_message format
          (or_empty (marshal_message format (full_message format now (m.clients client) input)))
        ≡ some (record {
          id = 0;
          room_id = to_valid_utf8 (m.clients client).room_id;
          user_id = (m.clients client).user_id;
          content = to_valid_utf8 input.content;
          send_time = now;
        })
  unfolding full_message
  signed input t w small =
      or_empty_bind (marshal_message format (full_message format now (m.clients client) input))
        (unmarshal_message format) _
        (marshal_message-unmarshal_message format (full_message format now (m.clients client) input)
            (omega arith) small
          ∙ rw (w, ◌>>=◌))

  -- While the `Broadcast` channel has space, the time can be written and the user id of the
  -- connection is a uint64, a valid danmaku puts one packet on the channel. The packet's room and
  -- the user and room of its message are those of the connection, whatever the payload says; the
  -- message has the present time and no id, and of the payload only the content is kept. Invalid
  -- UTF-8 in its texts has become U+FFFD.
  pub dispatch_danmaku_signed :
      (input : DanmakuMessage) (t : Text)
      → unmarshal_message format payload ≡ some input
      → format.write now ≡ some t
      → length m.broadcast < broadcast_chan_size
      → (m.clients client).user_id < u64
      → (p : WsPacket) × (dispatch (action_registry format now) client m type_danmaku payload
          ≡ some (record m { broadcast = m.broadcast ++ p ∷ [] }))
        × (p.msg_type ≡ type_danmaku)
        × (p.room_id ≡ (m.clients client).room_id)
        × (unmarshal_message format p.raw_data
            ≡ some (record {
              id = 0;
              room_id = to_valid_utf8 (m.clients client).room_id;
              user_id = (m.clients client).user_id;
              content = to_valid_utf8 input.content;
              send_time = now;
            }))
  dispatch_danmaku_signed input t e w free small = (
    danmaku_packet format now (m.clients client) input,
    dispatch_danmaku_queued input e free,
    unfold danmaku_packet in refl,
    unfold danmaku_packet in refl,
    unfold danmaku_packet in signed input t w small,
  )
