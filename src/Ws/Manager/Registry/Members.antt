-- ===== src/Ws/Manager/Registry/Members.antt =====
-- The rooms as a set of pairs of a room and a client, and the states that the manager's loop reaches.
use live_stream_danmaku.Base.{
  ℕ, ◌≡◌, refl, Bool, true, false, List, Option, none, some, if◌then◌else◌, nat_eq, list_eq, ◌==◌,
  ◌&&◌, ==_iff, ==_refl, arith, Bool-cases, inl, inr, Option-cases, subst, some_inj, sym, ◌∙◌,
}
use live_stream_danmaku.Text.{Text}
use live_stream_danmaku.Dict.{lookup}
use live_stream_danmaku.Dict.Sets.{member, count, member-remove, member-add}
use live_stream_danmaku.Ws.Client.{Client, close}
use live_stream_danmaku.Ws.Client.Laws.{close_once}
use live_stream_danmaku.Ws.Manager.{
  Manager, new_manager, or_nil, handle_register, handle_unregister, leave_room,
}
use live_stream_danmaku.Ws.Manager.Registry.{IsWf, live}
use live_stream_danmaku.Ws.Manager.Registry.Register.{register_rooms, handle_register-IsWf}
use live_stream_danmaku.Ws.Manager.Registry.Unregister.{
  leave_room-IsWf, left_rooms, left_clients, closed_lem,
}

abbrev pub in_room : Text → ℕ → Manager → Bool
in_room r j m = member j (or_nil (lookup r m.rooms))

-- Registering adds the client to its own room, and changes no other membership.
pub in_room-handle_register :
    (k : ℕ) (m : Manager) (r : Text) (j : ℕ)
    → in_room r j (handle_register k m)
      ≡ (if (m.clients k).room_id == r && k == j then true else in_room r j m)
in_room-handle_register k m r j =
    let room = (m.clients k).room_id in
    rw (register_rooms k m r)
      (ground (arith, member-add k j (or_nil (lookup room m.rooms)), ==_iff room r))

-- What unregistering client `k` has to do.
pub record Unregistered (k : ℕ) (m m' : Manager) : Type 0 where
  pub wf : IsWf m'
  pub members :
      (r : Text) (j : ℕ)
      → in_room r j m' ≡ (if (m.clients k).room_id == r && k == j then false else in_room r j m)
  pub shut :
      (m'.clients k).done ≡ (if in_room (m.clients k).room_id k m then true else (m.clients k).done)
  pub others : (j : ℕ) → m'.clients j ≡ (if k == j then m'.clients k else m.clients j)
  pub identity : (j : ℕ) → (m'.clients j).room_id ≡ (m.clients j).room_id

module _ (k : ℕ) (m : Manager) (v : IsWf m) where
  abbrev home_room : Text
  home_room = (m.clients k).room_id

  absent : in_room home_room k m ≡ false → Unregistered k m m
  absent h = record {
    wf = v;
    members = λ r j. ground (arith, ==_iff home_room r);
    shut = rw h refl;
    others = λ j. ground arith;
    identity = λ j. refl;
  }

  member_leaves :
      (cs : List ℕ) (closed : Client)
      → lookup home_room m.rooms ≡ some cs
      → member k cs ≡ true
      → close (m.clients k) ≡ some closed
      → Unregistered k m (leave_room home_room k cs m closed)
  member_leaves cs closed here inside e = record {
    wf = leave_room-IsWf k m cs closed v here e;
    members = λ r j.
        rw (left_rooms k m cs closed r)
          (unfold member in ground (arith, member-remove k j cs, here, ==_iff home_room r));
    shut =
        rw (left_clients k m cs closed, here)
          (ground (arith, inside, closed_lem k m cs closed v here e));
    others = λ j. rw (left_clients k m cs closed) (ground arith);
    identity =
        λ j. rw (left_clients k m cs closed) (ground (arith, closed_lem k m cs closed v here e));
  }

  by_room :
      (o : Option (List ℕ))
      → lookup home_room m.rooms ≡ o
      → (m' : Manager) × (handle_unregister k m ≡ some m') × Unregistered k m m'
  unfolding handle_unregister
  by_room none e = (m, (rw (e, handle_unregister)), absent (rw e (unfold member in refl)))
  by_room (some cs) e = elim (Bool-cases (member k cs)) [
    | inl h ↦
        let (c', shut, _, _, _, _, _) = close_once (m.clients k) (v.closes k) in
        (
          leave_room home_room k cs m c',
          rw (e, handle_unregister) (rw (h, shut)),
          member_leaves cs c' e h shut,
        )
    | inr h ↦ (m, rw (e, handle_unregister) (rw h), absent (rw e h))
  ]

  -- In a well-formed state unregistering never panics, and the state stays well formed; the
  -- client leaves its room and is closed if it was there, and no other membership and no other
  -- client changes.
  pub handle_unregister_total :
      (m' : Manager) × (handle_unregister k m ≡ some m') × Unregistered k m m'
  handle_unregister_total = by_room (lookup home_room m.rooms) refl

-- The loop of `Start`, as far as it registers and unregisters. `ConnectWebSocket` registers a new
-- client, which has not been closed.
pub data Step : Manager → Manager → Type 0 where
  registers : {m : Manager} (k : ℕ) → (m.clients k).done ≡ false → Step m (handle_register k m)
  unregisters : {m m' : Manager} (k : ℕ) → handle_unregister k m ≡ some m' → Step m m'

pub data Reach (s : Manager) : Manager → Type 0 where
  here : Reach s s
  later : {m m' : Manager} → Reach s m → Step m m' → Reach s m'

pub unregistered :
    (k : ℕ) (m m' : Manager) → IsWf m → handle_unregister k m ≡ some m' → Unregistered k m m'
unregistered k m m' v e =
    let (n, f, u) = handle_unregister_total k m v in
    let same_state : n ≡ m' = some_inj (sym f ∙ e) in subst (Unregistered k m) same_state u

Step-IsWf : {m m' : Manager} → Step m m' → IsWf m → IsWf m'
Step-IsWf {m} (registers k h) v = handle_register-IsWf k m v h
Step-IsWf {m} {m'} (unregisters k e) v = (unregistered k m m' v e).wf

pub Reach-IsWf : {s m : Manager} → Reach s m → IsWf s → IsWf m
Reach-IsWf here v = v
Reach-IsWf (later r st) v = Step-IsWf st (Reach-IsWf r v)

pub new_manager-IsWf :
    (id : Text) (clients : ℕ → Client)
    → ((k : ℕ) → (clients k).done ≡ (clients k).once)
    → IsWf (new_manager id clients)
unfolding new_manager lookup live member count
new_manager-IsWf id clients h = record {
  same = λ r. refl;
  fresh = λ r c e. ground arith;
  apart = λ r r' c e f. ground arith;
  watched = λ r c. refl;
  nonempty = λ r e. cc;
  single = λ r k. omega arith;
  home = λ r k e. ground arith;
  open_client = λ r k e. ground arith;
  closes = h;
}

-- From a new manager whose clients have their `done` channel closed exactly if their `once` has
-- run, every state that the loop of `Start` reaches by registering clients that are not closed,
-- and by unregistering, is well formed: a room exists exactly if it has a cancel function of its
-- own and one live subscriber under it, it has at least one client, each once, registered for
-- this room and not closed.
pub reached-IsWf :
    (id : Text) (clients : ℕ → Client) {m : Manager}
    → ((k : ℕ) → (clients k).done ≡ (clients k).once)
    → Reach (new_manager id clients) m
    → IsWf m
reached-IsWf id clients h r = Reach-IsWf r (new_manager-IsWf id clients h)

unregister_absent :
    (k : ℕ) (m : Manager)
    → in_room (m.clients k).room_id k m ≡ false
    → handle_unregister k m ≡ some m
unfolding handle_unregister
unregister_absent k m h = elim (Option-cases (lookup (m.clients k).room_id m.rooms)) [
  | inl e ↦ rw (e, handle_unregister)
  | inr (cs, e) ↦ let h' = rw e at h in rw (e, handle_unregister) (rw h')
]

-- After a client has been unregistered in a well-formed state, a second unregistration changes
-- nothing.
pub handle_unregister_twice :
    (k : ℕ) (m m' : Manager)
    → IsWf m
    → handle_unregister k m ≡ some m'
    → handle_unregister k m' ≡ some m'
handle_unregister_twice k m m' v e =
    let u = unregistered k m m' v e in
    unregister_absent k m' (
      rw
        (u.identity k, u.members (m.clients k).room_id k, ==_refl (m.clients k).room_id, ==_refl k))
