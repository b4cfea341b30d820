-- ===== src/Ws/Manager/Broadcast/Subscribers.antt =====
-- A message published for a room, at a server with subscribers.
use live_stream_danmaku.Base.{
  ℕ, ◌≡◌, ◌⊎◌, inl, inr, refl, sym, ap, ◌∙◌, Bool, true, false, ◌||◌, ◌+◌, suc, length, All, subst,
  List, [], ◌∷◌, none, some, nat_eq, list_eq, ==_iff, arith, Bool-cases, Option-cases,
}
use live_stream_danmaku.Text.{Text}
use live_stream_danmaku.Dict.{lookup}
use live_stream_danmaku.Json.{Bytes}
use live_stream_danmaku.Ws.Jobs.Ownership.{IsOwned}
use live_stream_danmaku.Ws.Jobs.{dispatch, dispatched}
use live_stream_danmaku.Ws.Jobs.Ownership.Steps.{Step-IsOwned}
use live_stream_danmaku.Ws.Jobs.Refinement.Dispatch.{dispatch-send_all}
use live_stream_danmaku.Ws.Jobs.Spec.{Fanout, send_all}
use live_stream_danmaku.Ws.Jobs.Refinement.{view}
use live_stream_danmaku.Ws.Manager.{Manager, Subscription}
use live_stream_danmaku.Ws.Manager.Registry.{IsWf}
use live_stream_danmaku.Ws.Manager.Broadcast.Laws.{AreClients, ordered-AreClients}
use live_stream_danmaku.Ws.Manager.Broadcast.Listening.{
  same_channel, listens, lingers, listening, lingering, one_listening,
}
use live_stream_danmaku.Ws.Manager.Broadcast.{
  Choices, room_pub_sub, broadcast_to_local_clients, on_message, hear, hear_all,
}

-- The broadcasts to lists of clients, one after the other.
unfoldable pub send_jobs : List (List ℕ) → Bytes → Fanout → Fanout
send_jobs [] payload a = a
send_jobs (targets ∷ rest) payload a = send_jobs rest payload (send_all targets payload a)

-- From `m` to `m'`, `n` jobs with the payload have been dispatched, each for the clients that room `r`
-- has in `base`.
pub record Heard (r : Text) (payload : Bytes) (n : ℕ) (base m m' : Manager) : Type 0 where
  pub jobs : List (List ℕ)
  pub many : length jobs ≡ n
  pub right : All (AreClients base r) jobs
  pub queued : view m'.jobs ≡ send_jobs jobs payload (view m.jobs)
  pub same_clients : m'.clients ≡ m.clients
  pub same_rooms : m'.rooms ≡ m.rooms

recount :
    {r : Text} {payload : Bytes} {n k : ℕ} {base m m' : Manager}
    → n ≡ k
    → Heard r payload n base m m'
    → Heard r payload k base m m'
recount {r} {payload} {base = base} {m = m} {m' = m'} e h =
    subst (λ x. Heard r payload x base m m') e h

module _ (ch : Subscription → Choices) (leaves : Subscription → Bool) (r : Text)
    (payload : Bytes) where
  hear_other :
      (s : Subscription) (m : Manager)
      → listens r s ≡ false
      → lingers r leaves s ≡ false
      → hear (ch s) (leaves s) (room_pub_sub r) payload s m ≡ m
  unfolding hear on_message
  hear_other s m e f = rw (same_channel s.room r) (ground arith)

  hear_takes :
      (s : Subscription) (m : Manager)
      → (listens r s || lingers r leaves s) ≡ true
      → hear (ch s) (leaves s) (room_pub_sub r) payload s m
        ≡ broadcast_to_local_clients (ch s) r payload m
  unfolding hear on_message
  hear_takes s m e =
      let same : s.room ≡ r = ground (arith, ==_iff s.room r) in
      rw (same_channel s.room r) (ground (arith, same))

  hear-none :
      (s : Subscription) (m : Manager)
      → lookup r m.rooms ≡ none
      → hear (ch s) (leaves s) (room_pub_sub r) payload s m ≡ m
  unfolding broadcast_to_local_clients
  hear-none s m e = elim (Bool-cases (listens r s || lingers r leaves s)) [
    | inl t ↦ hear_takes s m t ∙ rw (e, broadcast_to_local_clients) refl
    | inr t ↦ hear_other s m (ground arith) (ground arith)
  ]

  hear_all-none :
      (subs : List Subscription) (m : Manager)
      → lookup r m.rooms ≡ none
      → hear_all ch leaves (room_pub_sub r) payload subs m ≡ m
  unfolding hear_all
  hear_all-none [] m e = refl
  hear_all-none (s ∷ subs) m e = rw (hear-none s m e) (hear_all-none subs m e)

  module _ (m : Manager) (wf : IsWf m) (cs : List ℕ) (exists : lookup r m.rooms ≡ some cs) where
    -- One round in a state with the same rooms.
    take :
        (s : Subscription) (subs : List Subscription) (k : Manager) (n : ℕ)
        → k.rooms ≡ m.rooms
        → ((k' : Manager)
            → k'.rooms ≡ m.rooms
            → IsOwned k'.jobs
            → Heard r payload n m k' (hear_all ch leaves (room_pub_sub r) payload subs k'))
        → IsOwned k.jobs
        → Heard r payload (suc n) m k (
            hear_all ch leaves
              (room_pub_sub r)
              payload
              subs
              (broadcast_to_local_clients (ch s) r payload k))
    unfolding broadcast_to_local_clients send_jobs
    take s subs k n e rest o =
        let here : lookup r k.rooms ≡ some cs = rw e exists in
        let c = ch s in
        let q = dispatch c.extra c.pick (c.order cs) payload k.jobs in
        let k' : Manager = record k { jobs = q } in
        let w = rest k' e (Step-IsOwned (dispatched k.jobs c.pick (c.order cs) payload) o) in
        rw (here, broadcast_to_local_clients)
          (record {
            jobs = c.order cs ∷ w.jobs;
            many = rw w.many refl;
            right = (ordered-AreClients c m r cs wf exists, w.right);
            queued =
                w.queued
                ∙ rw (dispatch-send_all c.extra c.pick (c.order cs) payload k.jobs o, send_jobs)
                    refl;
            same_clients = w.same_clients;
            same_rooms = w.same_rooms;
          })

    hear_all-Heard :
        (subs : List Subscription) (k : Manager)
        → k.rooms ≡ m.rooms
        → IsOwned k.jobs
        → Heard r payload
            (listening r subs + lingering r leaves subs)
            m
            k
            (hear_all ch leaves (room_pub_sub r) payload subs k)
    unfolding hear_all send_jobs
    hear_all-Heard [] k e o = record {
      jobs = [];
      many = refl;
      right = tt;
      queued = refl;
      same_clients = refl;
      same_rooms = refl;
    }
    hear_all-Heard (s ∷ subs) k e o =
        let n = listening r subs + lingering r leaves subs in
        let ih = hear_all-Heard subs in
        elim (Bool-cases (listens r s || lingers r leaves s)) [
          | inl t ↦
              let one_more : listening r (s ∷ subs) + lingering r leaves (s ∷ subs) ≡ suc n =
                ground arith in
              rw (hear_takes s k t) (recount (sym one_more) (take s subs k n e ih o))
          | inr t ↦
              let no_more : listening r (s ∷ subs) + lingering r leaves (s ∷ subs) ≡ n =
                ground arith in
              rw (hear_other s k (ground arith) (ground arith)) (recount (sym no_more) (ih k e o))
        ]

-- If every cancelled subscriber leaves, a message for room `r` is one broadcast.
module _ (ch : Choices) (r : Text) (payload : Bytes) where
  all_leave :
      (s : Subscription) (subs : List Subscription) (m : Manager)
      → ((k : Manager)
          → listening r subs ≡ 0
          → hear_all (λ t. ch) (λ t. true) (room_pub_sub r) payload subs k ≡ k)
      → listens r s ≡ true
      → listening r (s ∷ subs) ≡ 1
      → hear_all (λ t. ch) (λ t. true) (room_pub_sub r) payload (s ∷ subs) m
        ≡ broadcast_to_local_clients ch r payload m
  unfolding hear_all
  all_leave s subs m rest e one =
      rw (hear_takes (λ t. ch) (λ t. true) r payload s m (ground arith))
        (rest (broadcast_to_local_clients ch r payload m) (ground arith))

  nobody_hears :
      (subs : List Subscription) (m : Manager)
      → listening r subs ≡ 0
      → hear_all (λ t. ch) (λ t. true) (room_pub_sub r) payload subs m ≡ m
  unfolding hear_all
  nobody_hears [] m h = refl
  nobody_hears (s ∷ subs) m h =
      rw (hear_other (λ t. ch) (λ t. true) r payload s m (ground arith) (ground arith))
        (nobody_hears subs m (ground arith))

  one_hears :
      (subs : List Subscription) (m : Manager)
      → listening r subs ≡ 1
      → hear_all (λ t. ch) (λ t. true) (room_pub_sub r) payload subs m
        ≡ broadcast_to_local_clients ch r payload m
  unfolding hear_all
  one_hears [] m h = absurd (omega arith)
  one_hears (s ∷ subs) m h = elim (Bool-cases (listens r s)) [
    | inl e ↦ all_leave s subs m (λ k. nobody_hears subs k) e h
    | inr e ↦
        rw (hear_other (λ t. ch) (λ t. true) r payload s m e (ground arith))
          (one_hears subs m (ground arith))
  ]

  pub heard_once :
      (m : Manager)
      → IsWf m
      → hear_all (λ t. ch) (λ t. true) (room_pub_sub r) payload m.subscriptions m
        ≡ broadcast_to_local_clients ch r payload m
  unfolding broadcast_to_local_clients
  heard_once m v = elim (Option-cases (lookup r m.rooms)) [
    | inl e ↦
        hear_all-none (λ t. ch) (λ t. true) r payload m.subscriptions m e
        ∙ sym (rw (e, broadcast_to_local_clients) refl)
    | inr (cs, e) ↦ one_hears m.subscriptions m (one_listening r m cs v e)
  ]

-- When Redis hands a message published for a room to the subscribers of a server that is in a
-- well-formed state with one owner for each array, nothing changes if the room does not exist there.
-- Otherwise one job is dispatched by the subscriber that is not cancelled, and one more by each
-- cancelled subscriber of the room that takes the message before it leaves, whatever they choose; each
-- job is for exactly the room's clients, each once (and dropped if the queue is full), and the rooms
-- and the clients stay as they are.
pub hear_all-reaches_room :
    (ch : Subscription → Choices) (leaves : Subscription → Bool) (r : Text) (payload : Bytes)
    (m : Manager)
    → IsWf m
    → IsOwned m.jobs
    → let m' = hear_all ch leaves (room_pub_sub r) payload m.subscriptions m in
      ((lookup r m.rooms ≡ none) × (m' ≡ m))
      ⊎ Heard r payload (1 + lingering r leaves m.subscriptions) m m m'
hear_all-reaches_room ch leaves r payload m v o = elim (Option-cases (lookup r m.rooms)) [
  | inl e ↦ inl (e, hear_all-none ch leaves r payload m.subscriptions m e)
  | inr (cs, e) ↦ inr (
      recount (ap (λ n. n + lingering r leaves m.subscriptions) (one_listening r m cs v e))
        (hear_all-Heard ch leaves r payload m v cs e m.subscriptions m refl o))
]
