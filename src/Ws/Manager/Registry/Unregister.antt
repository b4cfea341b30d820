-- ===== src/Ws/Manager/Registry/Unregister.antt =====
-- `handleUnregister` never panics, keeps the invariant, and removes exactly one client.
use live_stream_danmaku.Base.{
  ℕ, ◌≤◌, ◌<◌, ◌≡◌, ◌≢◌, true, false, List, [], none, some, if◌then◌else◌, nat_eq, list_eq, ◌==◌,
  ◌&&◌, ==_iff, arith, Bool-cases, inl, inr, Option-cases,
}
use live_stream_danmaku.Text.{Text}
use live_stream_danmaku.Dict.{lookup, insert}
use live_stream_danmaku.Dict.Laws.{is_some, lookup-insert, lookup-delete}
use live_stream_danmaku.Dict.Sets.{member, count, remove, member-remove, count-remove}
use live_stream_danmaku.Ws.Client.{Client, close}
use live_stream_danmaku.Ws.Client.Laws.{close_once}
use live_stream_danmaku.Ws.Manager.{
  Manager, or_nil, leave_room, close_room, stop_subscription, is_empty, update,
}
use live_stream_danmaku.Ws.Manager.Registry.{IsWf, live, is_ctx, live-cancel}

module _ (k : ℕ) (m : Manager) (cs : List ℕ) (closed : Client) where
  abbrev pub room : Text
  room = (m.clients k).room_id

  abbrev pub rest : List ℕ
  rest = remove k cs

  abbrev pub left : Manager
  left = leave_room room k cs m closed

  pub left_rooms :
      (r : Text)
      → lookup r left.rooms
        ≡ (if room == r then (if is_empty rest then none else some rest) else lookup r m.rooms)
  unfolding leave_room close_room stop_subscription
  left_rooms r = elim (Bool-cases (is_empty rest)) [
    | inl e ↦ rw e (
        ground (
          arith,
          lookup-insert room r rest m.rooms,
          lookup-delete room r (insert room rest m.rooms),
        ))
    | inr e ↦ rw e (lookup-insert room r rest m.rooms)
  ]

  left_cancel :
      (r : Text)
      → lookup r left.cancel_sub
        ≡ (if is_empty rest && room == r then none else lookup r m.cancel_sub)
  unfolding leave_room close_room stop_subscription
  left_cancel r = elim (Bool-cases (is_empty rest)) [
    | inl e ↦ rw e (ground (arith, ==_iff room r, lookup-delete room r m.cancel_sub))
    | inr e ↦ rw e
  ]

  left_live :
      (r : Text) (c : ℕ)
      → live r c left.subscriptions ≡ (
          if is_empty rest
          then (elim (lookup room m.cancel_sub) [
            | none ↦ live r c m.subscriptions
            | some d ↦ if d == c then 0 else live r c m.subscriptions
          ])
          else live r c m.subscriptions)
  unfolding leave_room close_room stop_subscription
  left_live r c = elim (Bool-cases (is_empty rest)) [
    | inl e ↦ rw e (elim (Option-cases (lookup room m.cancel_sub)) [
      | inl n ↦ rw (n, stop_subscription)
      | inr (d, s) ↦ rw (s, stop_subscription) (live-cancel r c d m.subscriptions)
    ])
    | inr e ↦ rw e
  ]

  pub left_clients : left.clients ≡ update m.clients k closed
  unfolding leave_room close_room stop_subscription
  left_clients = ground arith

  module _ (v : IsWf m) (here : lookup room m.rooms ≡ some cs)
      (shut : close (m.clients k) ≡ some closed) where
    open v use {same, fresh, apart, watched, nonempty, single, home, open_client, closes}

    pub closed_lem : (closed.done ≡ true) × (closed.once ≡ true) × (closed.room_id ≡ room)
    closed_lem =
        let (c', e, d, o, s, r, t) = close_once (m.clients k) (closes k) in
        let same_client = rw shut at e in ground arith

    left_same : (r : Text) → is_some (lookup r left.rooms) ≡ is_some (lookup r left.cancel_sub)
    left_same r = rw (left_rooms r, left_cancel r) (ground (arith, same r, ==_iff room r))

    left_fresh : (r : Text) (c : ℕ) → lookup r left.cancel_sub ≡ some c → c < left.next_ctx
    left_fresh r c e =
        let e' = rw (left_cancel r) at e in
        unfold leave_room close_room stop_subscription in ground (arith, fresh r c)

    left_apart :
        (r r' : Text) (c : ℕ)
        → lookup r left.cancel_sub ≡ some c
        → lookup r' left.cancel_sub ≡ some c
        → r ≡ r'
    left_apart r r' c e f =
        let e' = rw (left_cancel r) at e in
        let f' = rw (left_cancel r') at f in ground (arith, apart r r' c)

    left_watched :
        (r : Text) (c : ℕ) → live r c left.subscriptions ≡ is_ctx (lookup r left.cancel_sub) c
    left_watched r c =
        rw (left_live r c, left_cancel r)
          (ground (arith, watched r c, same room, here, ==_iff room r, apart room r c))

    left_nonempty : (r : Text) → lookup r left.rooms ≢ some []
    left_nonempty r = rw (left_rooms r) (ground (arith, nonempty r))

    left_single : (r : Text) (j : ℕ) → count j (or_nil (lookup r left.rooms)) ≤ 1
    left_single r j =
        rw (left_rooms r)
          (unfold count in ground (arith, single r j, single room j, count-remove k j cs))

    left_home :
        (r : Text) (j : ℕ)
        → member j (or_nil (lookup r left.rooms)) ≡ true
        → (left.clients j).room_id ≡ r
    left_home r j =
        rw (left_rooms r, left_clients)
          (unfold member in
            ground (arith, home r j, home room j, member-remove k j cs, ==_iff room r, closed_lem))

    left_open :
        (r : Text) (j : ℕ)
        → member j (or_nil (lookup r left.rooms)) ≡ true
        → (left.clients j).done ≡ false
    left_open r j =
        rw (left_rooms r, left_clients)
          (unfold member in
            ground (
              arith,
              home r j,
              open_client r j,
              open_client room j,
              member-remove k j cs,
              ==_iff room r,
            ))

    left_closes : (j : ℕ) → (left.clients j).done ≡ (left.clients j).once
    left_closes j = rw left_clients (ground (arith, closes j, closed_lem))

    pub leave_room-IsWf : IsWf left
    leave_room-IsWf = record {
      same = left_same;
      fresh = left_fresh;
      apart = left_apart;
      watched = left_watched;
      nonempty = left_nonempty;
      single = left_single;
      home = left_home;
      open_client = left_open;
      closes = left_closes;
    }
