-- ===== src/Tests/Loop.antt =====
-- The whole server, for a few turns.
use live_stream_danmaku.Base.{
  ℕ, List, ◌∷◌, ◌+◌, ◌<◌, ◌^◌, ◌<◌, ◌^◌, zero, suc, ◌≡◌, ◌≢◌, refl, false, [], Option, none, some,
  arith, nat_eq, list_eq, list_beq, All, take_nth,
}
use live_stream_danmaku.Text.{Text, codes}
use live_stream_danmaku.Text.Decimal.{parse_uint, format_uint}
use live_stream_danmaku.Dict.{lookup, has, insert, delete}
use live_stream_danmaku.Dict.Sets.{member, add, remove}
use live_stream_danmaku.Json.{unmarshal_struct, same_name, get_uint, put_uint, Bytes, malformed}
use live_stream_danmaku.Ws.Client.{new_client, safe_send}
use live_stream_danmaku.Ws.Slices.{append_all, make_slice}
use live_stream_danmaku.Ws.Jobs.{Jobs, dispatch, start_job, serve_next}
use live_stream_danmaku.Ws.Jobs.Refinement.{view}
use live_stream_danmaku.Ws.Jobs.Drain.{rounds, Run, rests, goes, takes, IsIdle, Run-IsIdle}
use live_stream_danmaku.Ws.Manager.{Manager, new_manager, handle_register, handle_unregister}
use live_stream_danmaku.Ws.Manager.Broadcast.{broadcast_to_local_clients, work}
use live_stream_danmaku.Model.{WsPacket, action_like, marshal_like, unmarshal_like}
use live_stream_danmaku.Ws.Router
use live_stream_danmaku.Ws.Router.{action_registry, like_handler}
use live_stream_danmaku.Ws.Manager.Stats.{local_stats}
use live_stream_danmaku.Ws.Loop.Likes.{
  Tick, taken, reporting, History, began, turned, swaps, snaps, reports, liked_in,
}
use live_stream_danmaku.Ws.Loop.Likes.Conserved.{IsConserved, likes-IsConserved}
use live_stream_danmaku.Tests.Statistics.{two_servers}
use live_stream_danmaku.Ws.Loop.{reads, Reach, here, later, registers, informs, starts, works}
use live_stream_danmaku.Ws.Loop.Good.{IsGood}
use live_stream_danmaku.Ws.Loop.Isolation.Reached.{reached-IsIsolated}
use live_stream_danmaku.Ws.Loop.Reached.{reached-IsGood}
use live_stream_danmaku.Tests.Samples.{
  nanos, sample_client, no_rooms, sample_client-closed, two_clients, in_turn,
}

-- The statistics of room "a" wait for a worker.
abbrev informed : Manager
informed = broadcast_to_local_clients in_turn (codes "a") malformed two_clients

abbrev or_same_jobs : Jobs → Option Jobs → Jobs
or_same_jobs q none = q
or_same_jobs q (some q') = q'

abbrev or_same : Manager → Option Manager → Manager
or_same m none = m
or_same m (some m') = m'

abbrev started : Manager
started = record informed { jobs = or_same_jobs informed.jobs (start_job informed.jobs) }

-- Client 0 has them.
abbrev served : Manager
served = or_same started (work 0 started)

started_lem : start_job informed.jobs ≡ some started.jobs
unfolding new_manager handle_register has lookup insert delete add remove member new_client list_beq
    broadcast_to_local_clients dispatch start_job take_nth append_all
started_lem = refl

served_lem : work 0 started ≡ some served
unfolding new_manager handle_register has lookup insert delete add remove member new_client list_beq
    broadcast_to_local_clients dispatch start_job take_nth append_all work serve_next safe_send
    make_slice
served_lem = refl

second_open : ((handle_register 0 no_rooms).clients 1).done ≡ false
unfolding new_manager handle_register has new_client
second_open = refl

first_open : (no_rooms.clients 0).done ≡ false
unfolding new_manager new_client
first_open = refl

sample_client-empty : (k : ℕ) → (sample_client k).send ≡ []
unfolding new_client
sample_client-empty zero = refl
sample_client-empty (suc zero) = refl
sample_client-empty (suc (suc k)) = refl

abbrev turns : Reach nanos no_rooms served
turns =
    later
      (later
        (later (later (later here (registers 0 first_open)) (registers 1 second_open))
          (informs in_turn (codes "a") malformed))
        (starts started_lem))
      (works 0 served_lem)

reached-IsGood_example : IsGood served × ((k : ℕ) → handle_unregister k served ≢ none)
reached-IsGood_example =
    reached-IsGood (codes "s1") sample_client sample_client-closed
      (λ k. rw (sample_client-empty k) (omega arith)) turns

abbrev OnlyRoom : Text → Bytes → Type 0
OnlyRoom room payload = room ≡ codes "a"

-- Client 2 is in room "b".
reached-IsIsolated_example :
    ((served.clients 2).room_id ≡ (sample_client 2).room_id)
    × All (OnlyRoom (sample_client 2).room_id) (served.clients 2).send
reached-IsIsolated_example =
    reached-IsIsolated OnlyRoom (codes "s1") sample_client sample_client-closed sample_client-empty
      turns (((((tt, tt), tt), refl), tt), tt) 2

-- Client 0 has sent three likes to room "a"; then a tick has taken the likes and the rooms, and has
-- reported room "a".
abbrev three_likes : WsPacket
three_likes = record {
  msg_type = action_like;
  room_id = [];
  raw_data = marshal_like (record { count = 3 });
}

abbrev liked_three : Manager
liked_three =
    or_same two_clients
      (Router.dispatch (action_registry nanos 0) 0 two_clients action_like three_likes.raw_data)

liked_lem :
    Router.dispatch
      (action_registry nanos 0)
      0
      two_clients
      three_likes.msg_type
      three_likes.raw_data
    ≡ some liked_three
unfolding Router.dispatch action_registry lookup insert like_handler
liked_lem = refl

abbrev liked_likes : List (Text × ℕ)
liked_likes = liked_three.local_likes

room_a_lem : take_nth 0 (local_stats liked_three.rooms) ≡ some ((codes "a", 2), [])
unfolding Router.dispatch action_registry lookup insert like_handler new_manager handle_register has
    new_client list_beq take_nth add member
room_a_lem = refl

taken_lem : take_nth {A = Tick} 0 (taken liked_likes ∷ []) ≡ some (taken liked_likes, [])
unfolding take_nth
taken_lem = refl

reporting_lem :
    (todo : List (Text × ℕ))
    → take_nth {A = Tick} 0 (reporting liked_likes todo ∷ [])
      ≡ some (reporting liked_likes todo, [])
unfolding take_nth
reporting_lem todo = refl

abbrev read_three : History nanos no_rooms liked_three []
read_three =
    turned (turned (turned began (registers 0 first_open) tt) (registers 1 second_open) tt)
      (reads 0 0 three_likes liked_lem) tt

abbrev day :
    History nanos no_rooms (record liked_three { local_likes = [] }) (reporting liked_likes [] ∷ [])
day =
    reports (snaps (swaps read_three) 0 taken_lem) 0 0 two_servers (codes "a", 2)
      (reporting_lem (local_stats liked_three.rooms)) room_a_lem

few_lem : liked_in (codes "a") day < 2 ^ 63
unfolding new_manager handle_register has new_client marshal_like unmarshal_like list_beq insert
    unmarshal_struct same_name get_uint put_uint parse_uint format_uint
few_lem = omega arith

likes-IsConserved_example : IsConserved (codes "a") day
likes-IsConserved_example = likes-IsConserved (codes "s1") sample_client (codes "a") day few_lem

-- A worker has taken the job of room "a".
Run-IsIdle_example :
    (rounds (view informed.jobs) ≡ 1 + rounds (view started.jobs))
    × ((q : Jobs) × Run informed.jobs (rounds (view informed.jobs)) q × IsIdle q)
Run-IsIdle_example = Run-IsIdle (goes rests (takes started_lem))
