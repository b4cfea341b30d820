-- ===== src/Ws/Manager/Registry/Untouched.antt =====
-- What registering and unregistering leave alone: the jobs, the packets, the counted likes and the
-- messages for clients; and each room stays at most once in the map.
use live_stream_danmaku.Base.{
  [], ℕ, ◌≡◌, refl, ◌∙◌, ap, List, Option, none, some, nat_eq, list_eq, ◌==◌, Bool-cases,
  Option-cases, inl, inr, OnSome, arith, ==_iff,
}
use live_stream_danmaku.Text.{Text}
use live_stream_danmaku.Dict.{lookup, has, insert, delete}
use live_stream_danmaku.Dict.Entries.{IsKeyed, insert-IsKeyed, delete-IsKeyed}
use live_stream_danmaku.Dict.Sets.{member, remove}
use live_stream_danmaku.Json.{◌>>=◌}
use live_stream_danmaku.Ws.Client.{Client, close}
use live_stream_danmaku.Ws.Manager.{
  Manager, handle_register, handle_unregister, open_room, enter_room, leave_room, close_room,
  stop_subscription, is_empty, update,
}

pub record IsUntouched (m m' : Manager) : Type 0 where
  pub jobs : m'.jobs ≡ m.jobs
  pub broadcast : m'.broadcast ≡ m.broadcast
  pub local_likes : m'.local_likes ≡ m.local_likes
  pub keyed : IsKeyed m.rooms → IsKeyed m'.rooms
  pub send : (j : ℕ) → (m'.clients j).send ≡ (m.clients j).send

pub handle_register-IsUntouched : (k : ℕ) (m : Manager) → IsUntouched m (handle_register k m)
unfolding handle_register open_room enter_room
handle_register-IsUntouched k m =
    let room = (m.clients k).room_id in
    elim (Bool-cases (has room m.rooms)) [
      | inl e ↦ rw e (record {
        jobs = refl;
        broadcast = refl;
        local_likes = refl;
        keyed = insert-IsKeyed room _ m.rooms;
        send = λ j. refl;
      })
      | inr e ↦ rw e (record {
        jobs = refl;
        broadcast = refl;
        local_likes = refl;
        keyed = λ h. insert-IsKeyed room _ _ (insert-IsKeyed room [] m.rooms h);
        send = λ j. refl;
      })
    ]

close-send : (c c' : Client) → close c ≡ some c' → c'.send ≡ c.send
unfolding close
close-send c c' e = ground arith

sends_kept :
    (m : Manager) (k : ℕ) (c : Client)
    → c.send ≡ (m.clients k).send
    → (j : ℕ) → (update m.clients k c j).send ≡ (m.clients j).send
sends_kept m k c e j = elim (Bool-cases (k == j)) [
  | inl h ↦ rw h (e ∙ ap (λ i. (m.clients i).send) ((==_iff k j).0 h))
  | inr h ↦ rw h refl
]

stopped_room :
    (room : Text) (k : ℕ) (rs : List (Text × List ℕ)) (m : Manager) (c : Client) (o : Option ℕ)
    → (IsKeyed m.rooms → IsKeyed rs)
    → c.send ≡ (m.clients k).send
    → IsUntouched m
        (stop_subscription room o (record m { rooms = rs; clients = update m.clients k c }))
unfolding stop_subscription
stopped_room room k rs m c none f e = record {
  jobs = refl;
  broadcast = refl;
  local_likes = refl;
  keyed = f;
  send = sends_kept m k c e;
}
stopped_room room k rs m c (some d) f e = record {
  jobs = refl;
  broadcast = refl;
  local_likes = refl;
  keyed = f;
  send = sends_kept m k c e;
}

left_room :
    (room : Text) (k : ℕ) (cs : List ℕ) (m : Manager) (c : Client)
    → c.send ≡ (m.clients k).send
    → IsUntouched m (leave_room room k cs m c)
unfolding leave_room close_room
left_room room k cs m c e =
    let rs = insert room (remove k cs) m.rooms in
    let kept = insert-IsKeyed room (remove k cs) m.rooms in
    elim (Bool-cases (is_empty (remove k cs))) [
      | inl h ↦ rw h (
          stopped_room room k (delete room rs) m c (lookup room m.cancel_sub)
            (λ f. delete-IsKeyed room rs (kept f)) e)
      | inr h ↦ rw h (record {
        jobs = refl;
        broadcast = refl;
        local_likes = refl;
        keyed = kept;
        send = sends_kept m k c e;
      })
    ]

untouched : (m : Manager) → IsUntouched m m
untouched m = record {
  jobs = refl;
  broadcast = refl;
  local_likes = refl;
  keyed = λ h. h;
  send = λ j. refl;
}

pub handle_unregister-IsUntouched :
    (k : ℕ) (m : Manager) → OnSome (IsUntouched m) (handle_unregister k m)
unfolding handle_unregister
handle_unregister-IsUntouched k m = elim (Option-cases (lookup (m.clients k).room_id m.rooms)) [
  | inl e ↦ rw (e, handle_unregister) (untouched m)
  | inr (cs, e) ↦ elim (Bool-cases (member k cs)) [
    | inl h ↦ elim (Option-cases (close (m.clients k))) [
      | inl n ↦ rw (e, handle_unregister) (rw h (rw (n, ◌>>=◌) tt))
      | inr (c, n) ↦
          rw (e, handle_unregister)
            (rw h (
              rw (n, ◌>>=◌)
                (left_room (m.clients k).room_id k cs m c (close-send (m.clients k) c n))))
    ]
    | inr h ↦ rw (e, handle_unregister) (rw h (untouched m))
  ]
]
