-- ===== src/EndToEnd/Shown.antt =====
-- From the keyboard of a client (cmd/client/main.go) through one server (internal/ws), the Pub/Sub of
-- Redis (internal/infra) and another server to the screens of the clients of the room.
use live_stream_danmaku.Base.{
  ℕ, suc, ◌≡◌, ◌<◌, ◌≢◌, refl, sym, ap, ◌∙◌, true, false, List, [], ◌∷◌, ◌++◌, some, none, arith,
  list_eq, nat_eq, ◌==◌, length, length-append, append-nil, append_assoc, repeat, lt→ltb, subst,
}
use live_stream_danmaku.Text.{Text, codes, to_valid_utf8, to_valid_utf8_idem}
use live_stream_danmaku.Dict.{lookup}
use live_stream_danmaku.Json.{Bytes, doc}
use live_stream_danmaku.Model.{DanmakuMessage, TimeFormat, zero_message, type_danmaku}
use live_stream_danmaku.Ws.Client.{
  Client, send_chan_size, safe_send, Pump, message, start_pump, pump_step, write_pump,
}
use live_stream_danmaku.Ws.Jobs.{worker_count}
use live_stream_danmaku.Ws.Jobs.Ownership.{IsOwned}
use live_stream_danmaku.Ws.Manager.{Manager}
use live_stream_danmaku.Ws.Manager.Registry.{IsWf}
use live_stream_danmaku.Ws.Manager.Registry.Members.{in_room}
use live_stream_danmaku.Ws.Manager.Broadcast.{
  Choices, receive_broadcast, handle_broadcast, room_pub_sub, hear_all,
}
use live_stream_danmaku.Ws.Manager.Broadcast.Delivery.{sent, Fanned, fanout_delivers}
use live_stream_danmaku.Ws.Manager.Broadcast.Subscribers.{heard_once}
use live_stream_danmaku.Ws.Router.{read_pump, danmaku_packet}
use live_stream_danmaku.Ws.Router.Laws.{dispatch_danmaku_queued}
use live_stream_danmaku.Cmd.Client.{type_line, live_chat, show_frame}
use live_stream_danmaku.Cmd.Client.Laws.{read_frame, sent_frame, typed_data}
use live_stream_danmaku.Cmd.Client.Shows.{handle_broadcast-show_frame}

-- As many rounds of WritePump that write as there are messages write them all, in order.
pump_drains :
    (bs : List Bytes) (c : Client) (out lost : List Bytes)
    → c.send ≡ bs
    → let p : Pump = record { client = c; written = out; lost = lost; running = true } in
      (write_pump p (repeat (length bs) (message true))).written ≡ out ++ bs
unfolding write_pump pump_step
pump_drains [] c out lost e = sym (append-nil out)
pump_drains (x ∷ rest) c out lost e =
    rw (e, pump_step)
      (pump_drains rest (record c { send = rest }) (out ++ x ∷ []) lost refl
        ∙ append_assoc out (x ∷ []) rest)

sent_to :
    (c : Client) (payload : Bytes)
    → length c.send < send_chan_size
    → (safe_send c payload).send ≡ c.send ++ payload ∷ []
unfolding safe_send
sent_to c payload h = rw (lt→ltb (length c.send) send_chan_size h) refl

module _ (ch : Choices) (b : Manager) (room : Text) (payload : Bytes) where
  -- Client `j` of the room has written all that was in its buffer, and then the payload.
  abbrev pub HasWritten : Manager → ℕ → Type 0
  HasWritten b' j =
      (write_pump (start_pump (b'.clients j))
        (repeat (suc (length (b.clients j).send)) (message true))).written
      ≡ (b.clients j).send ++ payload ∷ []

  payload_written :
      (b' : Manager) (j : ℕ)
      → Fanned ch b room payload b'
      → in_room room j b ≡ true
      → length (b.clients j).send < send_chan_size
      → HasWritten b' j
  payload_written b' j f here space =
      let c = b.clients j in
      let gets = f.gets j in
      let got : (b'.clients j).send ≡ c.send ++ payload ∷ [] =
        ap (λ (x : Client). x.send) (rw here at gets) ∙ sent_to c payload space in
      let n : length (c.send ++ payload ∷ []) ≡ suc (length c.send) =
        length-append c.send (payload ∷ []) ∙ omega arith in
      subst
        (λ rounds.
          (write_pump (start_pump (b'.clients j)) (repeat rounds (message true))).written
          ≡ c.send ++ payload ∷ [])
        n (pump_drains (c.send ++ payload ∷ []) (b'.clients j) [] [] got)

-- A line that is typed at a client of server `a`, and is not "1", is sent as one frame. The server that
-- reads it, with nothing on its `Broadcast` channel, publishes one payload for the room of the
-- connection, if Redis is reached. When a server `b` hears this, that has the room, is in a
-- well-formed state with one owner for each array, has no broadcast waiting and a worker free, and
-- whose cancelled subscribers leave without it, then it can run to a state in which each client of the room that had space in its buffer can write, after what
-- was in the buffer, this payload; and the client program shows it as the line, invalid UTF-8 having
-- become U+FFFD. The times must be written.
pub type_line-shown :
    (format : TimeFormat) (now k : ℕ) (frames : List Bytes) (a b : Manager) (ch here : Choices)
    (text zero_time now_time : Text)
    → (text == codes "1") ≡ false
    → format.write 0 ≡ some zero_time
    → format.write now ≡ some now_time
    → a.broadcast ≡ []
    → IsWf b
    → IsOwned b.jobs
    → b.jobs.job_chan ≡ []
    → length b.jobs.busy < worker_count
    → lookup (a.clients k).room_id b.rooms ≢ none
    → let room = (a.clients k).room_id in
      (frame payload : Bytes) × (queued told : Manager) × (type_line format text ≡ some frame)
      × (read_pump format now k (frame ∷ frames) a ≡ read_pump format now k frames queued)
      × (receive_broadcast ch true queued ≡ some told)
      × (told.published ≡ a.published ++ (room_pub_sub room, payload) ∷ [])
      × (hear_all (λ s. here) (λ s. true) (room_pub_sub room) payload b.subscriptions b
          ≡ sent here b room payload)
      × ((b' : Manager) × Fanned here b room payload b'
          × ((j : ℕ)
              → in_room room j b ≡ true
              → length (b.clients j).send < send_chan_size
              → HasWritten here b room payload b' j))
      × (show_frame format payload ≡ live_chat (to_valid_utf8 text))
unfolding type_line receive_broadcast
type_line-shown format now k frames a b ch here text zero_time now_time other z w idle wf owned
      waits free exists =
    let client = a.clients k in
    let room = client.room_id in
    let input : DanmakuMessage = record zero_message { content = to_valid_utf8 text } in
    let p = danmaku_packet format now client input in
    let queued : Manager = record a { broadcast = a.broadcast ++ p ∷ [] } in
    let taken : Manager = record a { broadcast = [] } in
    let (j, raw, read_back) = typed_data format text zero_time z in
    let (frame, sends, back) = sent_frame type_danmaku j (omega arith) in
    let goes =
      dispatch_danmaku_queued format now k a (doc j) input read_back (rw idle (omega arith)) in
    let (payload, published, shows) =
      handle_broadcast-show_frame format now client input now_time ch taken w in
    let (b', fanned) = fanout_delivers here b room payload wf owned waits free exists in
    (
      frame,
      payload,
      queued,
      handle_broadcast ch true p taken,
      rw (other, raw) sends,
      read_frame format now k frame frames a queued _ back goes,
      rw (idle, receive_broadcast) refl,
      published,
      heard_once here room payload b wf,
      (b', fanned, λ i at space. payload_written here b room payload b' i fanned at space),
      rw (to_valid_utf8_idem text) at shows,
    )
