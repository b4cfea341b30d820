-- ===== src/Tests/Rooms.antt =====
-- The rooms, the broadcast path and one client's buffer.
use live_stream_danmaku.Base.{
  ℕ, ◌+◌, ◌≡◌, ◌<◌, ◌≢◌, ◌⊎◌, refl, true, false, List, [], ◌∷◌, Option, none, some, arith, length,
  nat_eq, list_eq, list_beq,
}
use live_stream_danmaku.Text.{codes}
use live_stream_danmaku.Dict.{lookup, has, insert, delete}
use live_stream_danmaku.Dict.Sets.{member, add, remove}
use live_stream_danmaku.Json.{empty, malformed}
use live_stream_danmaku.Ws.Client.{
  Client, new_client, close, safe_send, write_pump, start_pump, message, stopped, Ready,
}
use live_stream_danmaku.Ws.Client.Laws.{IsOrdered, write_pump_order}
use live_stream_danmaku.Ws.Jobs.{dispatch, dispatched, worker_count}
use live_stream_danmaku.Ws.Jobs.Spec.{SpecStep, sends}
use live_stream_danmaku.Ws.Jobs.Ownership.{IsOwned}
use live_stream_danmaku.Ws.Jobs.Refinement.{view}
use live_stream_danmaku.Ws.Jobs.Refinement.Dispatch.{Step-SpecStep}
use live_stream_danmaku.Ws.Manager.{
  Manager, new_manager, new_jobs, handle_register, handle_unregister, cancel,
}
use live_stream_danmaku.Ws.Manager.Registry.{IsWf}
use live_stream_danmaku.Ws.Manager.Registry.Members.{
  here, later, registers, unregisters, reached-IsWf, in_room, Unregistered, handle_unregister_total,
}
use live_stream_danmaku.Ws.Manager.Broadcast.Listening.{lingering}
use live_stream_danmaku.Ws.Manager.Broadcast.Subscribers.{Heard, hear_all-reaches_room}
use live_stream_danmaku.Ws.Manager.Broadcast.{hear_all, room_pub_sub}
use live_stream_danmaku.Ws.Manager.Broadcast.Delivery.{Fanned, fanout_delivers}
use live_stream_danmaku.Tests.Samples.{
  new_jobs-IsOwned, two_clients, two_clients-IsWf, in_turn, no_rooms, sample_client,
  sample_client-closed,
}

abbrev or_same : Manager → Option Manager → Manager
or_same m none = m
or_same m (some m') = m'

-- Client 0 has left, client 1 is still there.
abbrev one_left : Manager
one_left = or_same two_clients (handle_unregister 0 two_clients)

left_lem : handle_unregister 0 two_clients ≡ some one_left
unfolding new_manager handle_register handle_unregister close has lookup insert delete add remove
    member new_client list_beq
left_lem = refl

still_there : in_room (codes "a") 1 one_left ≡ true
unfolding new_manager handle_register handle_unregister close has lookup insert delete add remove
    member new_client list_beq
still_there = refl

handle_unregister_total_example :
    (m' : Manager) × (handle_unregister 0 two_clients ≡ some m') × Unregistered 0 two_clients m'
handle_unregister_total_example = handle_unregister_total 0 two_clients two_clients-IsWf

pub two_clients-IsOwned : IsOwned two_clients.jobs
unfolding new_manager handle_register handle_unregister close has lookup insert delete add remove
    member new_client list_beq
two_clients-IsOwned = new_jobs-IsOwned

pub idle_lem : two_clients.jobs.job_chan ≡ []
unfolding new_manager handle_register handle_unregister close has lookup insert delete add remove
    member new_client list_beq
idle_lem = refl

pub free_lem : length two_clients.jobs.busy < worker_count
unfolding new_manager handle_register handle_unregister close has lookup insert delete add remove
    member new_client list_beq
free_lem = omega arith

pub a_exists : lookup (codes "a") two_clients.rooms ≢ none
unfolding new_manager handle_register handle_unregister close has lookup insert delete add remove
    member new_client list_beq
a_exists e = cc

fanout_delivers_example : (m' : Manager) × Fanned in_turn two_clients (codes "a") malformed m'
fanout_delivers_example =
    fanout_delivers in_turn two_clients (codes "a") malformed two_clients-IsWf two_clients-IsOwned
      idle_lem free_lem a_exists

-- Client 0 has left room "a" empty, and client 1 has opened it again; the first subscriber lingers.

abbrev emptied : Manager
emptied = or_same (handle_register 0 no_rooms) (handle_unregister 0 (handle_register 0 no_rooms))

abbrev reopened : Manager
reopened = handle_register 1 emptied

emptied_lem : handle_unregister 0 (handle_register 0 no_rooms) ≡ some emptied
unfolding new_manager handle_register handle_unregister close has lookup insert delete add remove
    member new_client list_beq
emptied_lem = refl

still_open : (emptied.clients 1).done ≡ false
unfolding new_manager handle_register handle_unregister close has lookup insert delete add remove
    member new_client list_beq
still_open = refl

first_open : (no_rooms.clients 0).done ≡ false
unfolding new_manager new_client
first_open = refl

reopened-IsWf : IsWf reopened
reopened-IsWf = reached-IsWf (codes "s1") sample_client sample_client-closed (
    later (later (later here (registers 0 first_open)) (unregisters 0 emptied_lem))
      (registers 1 still_open))

reopened-IsOwned : IsOwned reopened.jobs
unfolding new_manager handle_register handle_unregister close has lookup insert delete add remove
    member new_client list_beq
reopened-IsOwned = new_jobs-IsOwned

one_lingers : lingering (codes "a") (λ s. false) reopened.subscriptions ≡ 1
unfolding new_manager handle_register handle_unregister close has lookup insert delete add remove
    member new_client list_beq cancel
one_lingers = refl

-- The old and the new subscriber dispatch a job each.
hear_all-reaches_room_example :
    let m' =
      hear_all
        (λ s. in_turn)
        (λ s. false)
        (room_pub_sub (codes "a"))
        malformed
        reopened.subscriptions
        reopened in
    ((lookup (codes "a") reopened.rooms ≡ none) × (m' ≡ reopened))
    ⊎ Heard
        (codes "a")
        malformed
        (1 + lingering (codes "a") (λ s. false) reopened.subscriptions)
        reopened
        reopened
        m'
hear_all-reaches_room_example =
    hear_all-reaches_room (λ s. in_turn) (λ s. false) (codes "a") malformed reopened reopened-IsWf
      reopened-IsOwned

abbrev growth : ℕ → ℕ
growth n = n

Step-SpecStep_example :
    SpecStep
      (sends (3 ∷ 4 ∷ []) malformed)
      (view new_jobs)
      (view (dispatch growth 0 (3 ∷ 4 ∷ []) malformed new_jobs))
    × IsOwned (dispatch growth 0 (3 ∷ 4 ∷ []) malformed new_jobs)
Step-SpecStep_example =
    Step-SpecStep (dispatched new_jobs 0 (3 ∷ 4 ∷ []) malformed) new_jobs-IsOwned

abbrev fresh : Client
fresh = new_client 7 (codes "ann") (codes "a")

abbrev rounds : List Ready
rounds = message true ∷ message false ∷ stopped ∷ []

abbrev waiting_two : Client
waiting_two = safe_send (safe_send fresh malformed) empty

write_pump_order_example : IsOrdered waiting_two.send (write_pump (start_pump waiting_two) rounds)
write_pump_order_example = write_pump_order waiting_two rounds
