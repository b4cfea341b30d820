-- ===== src/Ws/Loop/Reached.antt =====
-- What holds of every state that the server reaches.
use live_stream_danmaku.Base.{ℕ, ◌≡◌, ◌≢◌, ◌≤◌, refl, none, arith, OnSome_some, length, nat_eq}
use live_stream_danmaku.Text.{Text}
use live_stream_danmaku.Model.{TimeFormat}
use live_stream_danmaku.Dict.Sets.{count}
use live_stream_danmaku.Ws.Client.{Client, send_chan_size}
use live_stream_danmaku.Ws.Jobs.{start_job, finish_job}
use live_stream_danmaku.Ws.Jobs.Bounds.{IsWithin, start_job-IsWithin, finish_job-IsWithin}
use live_stream_danmaku.Ws.Jobs.Ownership.{IsOwned, taken-IsLent}
use live_stream_danmaku.Ws.Jobs.Ownership.Steps.{start_job-IsOwned, finish_job-IsOwned}
use live_stream_danmaku.Ws.Manager.{Manager, new_manager, handle_register, handle_unregister}
use live_stream_danmaku.Ws.Manager.Broadcast.{receive_broadcast, work}
use live_stream_danmaku.Ws.Manager.Registry.{IsWf}
use live_stream_danmaku.Ws.Manager.Registry.Register.{handle_register-IsWf}
use live_stream_danmaku.Ws.Manager.Registry.Members.{
  unregistered, new_manager-IsWf, handle_unregister_total,
}
use live_stream_danmaku.Ws.Manager.Registry.Untouched.{
  IsUntouched, handle_register-IsUntouched, handle_unregister-IsUntouched,
}
use live_stream_danmaku.Ws.Router.{dispatch, action_registry}
use live_stream_danmaku.Ws.Loop.{
  Step, registers, unregisters, receives, takes_likes, informs, hears, reads, writes, shuts, starts,
  works, finishes, collects, Reach, here, later,
}
use live_stream_danmaku.Ws.Loop.Good.{IsGood, with_jobs}
use live_stream_danmaku.Ws.Loop.Handlers.{
  with_queue, broadcast_to_local_clients-IsGood, on_message-IsGood,
}
use live_stream_danmaku.Ws.Loop.Turns.{
  receive_broadcast-IsGood, dispatch-IsGood, work-IsGood, write_round-IsGood, shut_socket-IsGood,
}

untouched-IsGood : (m m' : Manager) → IsUntouched m m' → IsWf m' → IsGood m → IsGood m'
untouched-IsGood m m' u v g = record {
  wf = v;
  owned = rw u.jobs g.owned;
  within = rw u.jobs g.within;
  queue = rw u.broadcast g.queue;
  buffers = λ k. rw (u.send k) (g.buffers k);
}

pub Step-IsGood : {format : TimeFormat} {m m' : Manager} → Step format m m' → IsGood m → IsGood m'
Step-IsGood {m = m} (registers k h) g =
    untouched-IsGood m (handle_register k m) (handle_register-IsUntouched k m)
      (handle_register-IsWf k m g.wf h) g
Step-IsGood {m = m} {m'} (unregisters k e) g =
    untouched-IsGood m m'
      (OnSome_some (IsUntouched m) (handle_unregister k m) e (handle_unregister-IsUntouched k m))
      (unregistered k m m' g.wf e).wf g
Step-IsGood {m = m} (receives ch reached e) g =
    OnSome_some IsGood (receive_broadcast ch reached m) e (receive_broadcast-IsGood ch reached m g)
Step-IsGood {m = m} takes_likes g = with_queue m _ m.broadcast m.kafka_input m.published g g.queue
Step-IsGood {m = m} (informs ch room payload) g =
    broadcast_to_local_clients-IsGood ch room payload m g
Step-IsGood {m = m} (hears ch leaves s payload) g = on_message-IsGood ch leaves s payload m g
Step-IsGood {format} {m} (reads now k p e) g =
    OnSome_some IsGood (dispatch (action_registry format now) k m p.msg_type p.raw_data) e
      (dispatch-IsGood format now k m p.msg_type p.raw_data g)
Step-IsGood {m = m} (writes k r) g = write_round-IsGood k r m g
Step-IsGood {m = m} (shuts k) g = shut_socket-IsGood k m g
Step-IsGood {m = m} (starts e) g =
    with_jobs m _ g (OnSome_some IsOwned (start_job m.jobs) e (start_job-IsOwned m.jobs g.owned))
      (OnSome_some IsWithin (start_job m.jobs) e (start_job-IsWithin m.jobs g.within))
Step-IsGood {m = m} (works i e) g = OnSome_some IsGood (work i m) e (work-IsGood i m g)
Step-IsGood {m = m} (finishes i e) g =
    with_jobs m _ g
      (OnSome_some IsOwned (finish_job i m.jobs) e (finish_job-IsOwned i m.jobs g.owned))
      (OnSome_some IsWithin (finish_job i m.jobs) e (finish_job-IsWithin i m.jobs g.within))
Step-IsGood {m = m} (collects i s rest e) g =
    with_jobs m _ g (taken-IsLent i m.jobs s rest e g.owned).owned
      (record { queued = g.within.queued; workers = g.within.workers })

pub Reach-IsGood : {format : TimeFormat} {s m : Manager} → Reach format s m → IsGood s → IsGood m
Reach-IsGood here g = g
Reach-IsGood (later r st) g = Step-IsGood st (Reach-IsGood r g)

pub new_manager-IsGood :
    (id : Text) (clients : ℕ → Client)
    → ((k : ℕ) → (clients k).done ≡ (clients k).once)
    → ((k : ℕ) → length (clients k).send ≤ send_chan_size)
    → IsGood (new_manager id clients)
unfolding new_manager count
new_manager-IsGood id clients closes short = record {
  wf = new_manager-IsWf id clients closes;
  owned = record { unique = λ a. omega arith; in_use = λ a l. refl };
  within = record { queued = omega arith; workers = omega arith };
  queue = omega arith;
  buffers = short;
}

-- A new manager whose clients have their `done` channel closed exactly if their `once` has run, and
-- buffers within their capacity, reaches only good states by the turns of its loop, the pumps, the
-- subscribers, the ticks and the workers, in any order: its rooms are well formed, each array of
-- client pointers has one owner, and no channel holds more than its capacity. And in none of them
-- does unregistering a client panic.
pub reached-IsGood :
    {format : TimeFormat} (id : Text) (clients : ℕ → Client) {m : Manager}
    → ((k : ℕ) → (clients k).done ≡ (clients k).once)
    → ((k : ℕ) → length (clients k).send ≤ send_chan_size)
    → Reach format (new_manager id clients) m
    → IsGood m × ((k : ℕ) → handle_unregister k m ≢ none)
reached-IsGood id clients {m} closes short r =
    let g = Reach-IsGood r (new_manager-IsGood id clients closes short) in
    (g, λ k n. let (m', e, u) = handle_unregister_total k m g.wf in let e' = rw n at e in cc)
