-- ===== src/Ws/Loop/Isolation/Reached.antt =====
-- Every turn, and every state that the server reaches.
use live_stream_danmaku.Base.{ℕ, ◌≡◌, refl, [], arith, nat_eq, list_eq, All, OnSome_some}
use live_stream_danmaku.Text.{Text}
use live_stream_danmaku.Text.Decimal.{int_eq}
use live_stream_danmaku.Json.{Bytes}
use live_stream_danmaku.Model.{TimeFormat}
use live_stream_danmaku.Ws.Client.{Client}
use live_stream_danmaku.Ws.Manager.{Manager, new_manager, handle_register, handle_unregister}
use live_stream_danmaku.Ws.Manager.Broadcast.{work, receive_broadcast}
use live_stream_danmaku.Ws.Manager.Registry.Members.{unregistered}
use live_stream_danmaku.Ws.Manager.Registry.Untouched.{
  IsUntouched, handle_register-IsUntouched, handle_unregister-IsUntouched,
}
use live_stream_danmaku.Ws.Router.{dispatch, action_registry}
use live_stream_danmaku.Ws.Loop.{
  write_round, shut_socket, Step, registers, unregisters, receives, takes_likes, informs, hears,
  reads, writes, shuts, starts, works, finishes, collects, Reach, here, later,
}
use live_stream_danmaku.Ws.Loop.Good.{IsGood}
use live_stream_danmaku.Ws.Loop.Reached.{Reach-IsGood, new_manager-IsGood}
use live_stream_danmaku.Ws.Loop.Isolation.{IsAllowedStep, IsAllowedReach, IsIsolated}
use live_stream_danmaku.Ws.Loop.Isolation.Sendings.{start_job-AreFair, finish_job-AreFair}
use live_stream_danmaku.Ws.Loop.Isolation.Steps.{
  broadcast-IsIsolated, on_message-IsIsolated, receive_broadcast-IsIsolated,
}
use live_stream_danmaku.Ws.Loop.Isolation.Turns.{
  dispatch-IsIsolated, with_client, with_jobs, work-IsIsolated, round_allowed, untouched-IsIsolated,
}

registered_stays : (k : ℕ) (m : Manager) → (handle_register k m).clients ≡ m.clients
unfolding handle_register
registered_stays k m = ground arith

module _ (Allowed : Text → Bytes → Type 0) (home : ℕ → Text) where
  Step-IsIsolated :
      {format : TimeFormat} {m m' : Manager} (st : Step format m m')
      → IsGood m
      → IsAllowedStep Allowed st
      → IsIsolated Allowed home m
      → IsIsolated Allowed home m'
  unfolding write_round shut_socket
  Step-IsIsolated {m = m} (registers k h) g ok v =
      untouched-IsIsolated Allowed home m (handle_register k m) (handle_register-IsUntouched k m)
        (λ j. rw (registered_stays k m) refl) v
  Step-IsIsolated {m = m} {m'} (unregisters k e) g ok v =
      untouched-IsIsolated Allowed home m m'
        (OnSome_some (IsUntouched m) (handle_unregister k m) e (handle_unregister-IsUntouched k m))
        (unregistered k m m' g.wf e).identity v
  Step-IsIsolated {m = m} (receives ch reached e) g ok v =
      OnSome_some (IsIsolated Allowed home) (receive_broadcast ch reached m) e
        (receive_broadcast-IsIsolated Allowed home ch reached m v)
  Step-IsIsolated takes_likes g ok v = record {
    homes = v.homes;
    danmaku = v.danmaku;
    jobs = v.jobs;
    buffers = v.buffers;
  }
  Step-IsIsolated {m = m} (informs ch room payload) g ok v =
      broadcast-IsIsolated Allowed home ch room payload m g ok v
  Step-IsIsolated {m = m} (hears ch leaves s payload) g ok v =
      on_message-IsIsolated Allowed home ch leaves s payload m g ok v
  Step-IsIsolated {format} {m} (reads now k p e) g ok v =
      OnSome_some (IsIsolated Allowed home)
        (dispatch (action_registry format now) k m p.msg_type p.raw_data) e
        (dispatch-IsIsolated Allowed home format now k m p.msg_type p.raw_data v)
  Step-IsIsolated {m = m} (writes k r) g ok v =
      let h =
        round_allowed Allowed home (home k) (m.clients k) r (m.clients k).send refl (v.buffers k) in
      with_client Allowed home m k _ h.0 h.1 v
  Step-IsIsolated {m = m} (shuts k) g ok v = with_client Allowed home m k _ refl (v.buffers k) v
  Step-IsIsolated {m = m} (starts {q} e) g ok v =
      with_jobs Allowed home m q (start_job-AreFair Allowed home m.jobs q e v.jobs) v
  Step-IsIsolated {m = m} (works i e) g ok v =
      OnSome_some (IsIsolated Allowed home) (work i m) e (work-IsIsolated Allowed home i m v)
  Step-IsIsolated {m = m} (finishes {q} i e) g ok v =
      with_jobs Allowed home m q (finish_job-AreFair Allowed home i m.jobs q e v.jobs) v
  Step-IsIsolated {m = m} (collects i s rest e) g ok v = with_jobs Allowed home m _ v.jobs v

  Reach-IsIsolated :
      {format : TimeFormat} {s m : Manager} (r : Reach format s m)
      → IsGood s
      → IsAllowedReach Allowed r
      → IsIsolated Allowed home s
      → IsIsolated Allowed home m
  Reach-IsIsolated here g ok v = v
  Reach-IsIsolated (later r st) g ok v =
      Step-IsIsolated st (Reach-IsGood r g) ok.1 (Reach-IsIsolated r g ok.0 v)

-- Whatever messages may go to whatever rooms, by `Allowed`: if a new manager, whose clients have
-- empty buffers, and have their `done` channel closed exactly if their `once` has run, reaches a state by
-- turns of the server in any order, among which each message heard from Redis for a room and each
-- statistics sent to a room is allowed for that room, then each client still has its room, and each
-- message in its buffer is allowed for its room: no client is given a message of another room.
pub reached-IsIsolated :
    (Allowed : Text → Bytes → Type 0) {format : TimeFormat} (id : Text) (clients : ℕ → Client)
    {m : Manager}
    → ((k : ℕ) → (clients k).done ≡ (clients k).once)
    → ((k : ℕ) → (clients k).send ≡ [])
    → (r : Reach format (new_manager id clients) m) → IsAllowedReach Allowed r
    → (k : ℕ)
    → ((m.clients k).room_id ≡ (clients k).room_id)
      × All (Allowed (clients k).room_id) (m.clients k).send
unfolding new_manager
reached-IsIsolated Allowed id clients closes empty r ok k =
    let v =
      Reach-IsIsolated Allowed (λ j. (clients j).room_id) r
        (new_manager-IsGood id clients closes (λ j. rw (empty j) (omega arith))) ok
        (record {
          homes = λ j. refl;
          danmaku = tt;
          jobs = (tt, tt);
          buffers = λ j. rw (empty j) tt;
        }) in
    (v.homes k, v.buffers k)
