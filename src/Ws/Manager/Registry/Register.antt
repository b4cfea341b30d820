-- ===== src/Ws/Manager/Registry/Register.antt =====
-- `handleRegister` keeps the invariant, and adds exactly one client to exactly one room.
use live_stream_danmaku.Base.{
  ℕ, ◌≤◌, ◌<◌, ◌≡◌, ◌≢◌, true, false, [], some, if◌then◌else◌, nat_eq, list_eq, ◌==◌, ==_iff,
  ==_refl, arith, Bool-cases, inl, inr,
}
use live_stream_danmaku.Text.{Text}
use live_stream_danmaku.Dict.{lookup, has, insert}
use live_stream_danmaku.Dict.Laws.{is_some, lookup-insert, has-lookup, lookup_absent}
use live_stream_danmaku.Dict.Sets.{
  member, count, add, member-add, count-add, add-ne-nil, count_nonmember,
}
use live_stream_danmaku.Ws.Manager.{Manager, or_nil, handle_register}
use live_stream_danmaku.Ws.Manager.Registry.{IsWf, live, is_ctx}

module _ (k : ℕ) (m : Manager) where
  abbrev pub room : Text
  room = (m.clients k).room_id

  pub register_rooms :
      (r : Text)
      → lookup r (handle_register k m).rooms
        ≡ (if room == r then some (add k (or_nil (lookup room m.rooms))) else lookup r m.rooms)
  unfolding handle_register
  register_rooms r = elim (Bool-cases (has room m.rooms)) [
    | inl e ↦ rw e (lookup-insert room r _ m.rooms)
    | inr e ↦ rw e (
        rw
          (
            lookup-insert room room [] m.rooms,
            ==_refl room,
            lookup_absent room m.rooms e,
            lookup-insert room r (add k []) (insert room [] m.rooms),
            lookup-insert room r [] m.rooms,
          )
          (ground arith))
  ]

  register_cancel :
      (r : Text)
      → lookup r (handle_register k m).cancel_sub ≡ (
          if has room m.rooms
          then lookup r m.cancel_sub
          else if room == r
          then some m.next_ctx
          else lookup r m.cancel_sub)
  unfolding handle_register
  register_cancel r = elim (Bool-cases (has room m.rooms)) [
    | inl e ↦ rw e
    | inr e ↦ rw e (lookup-insert room r m.next_ctx m.cancel_sub)
  ]

  module _ (v : IsWf m) where
    open v use {same, fresh, apart, watched, nonempty, single, home, open_client, closes}

    present :
        (r : Text)
        → is_some (lookup r (handle_register k m).rooms)
          ≡ is_some (lookup r (handle_register k m).cancel_sub)
    present r =
        rw (register_rooms r, register_cancel r)
          (ground (arith, same r, has-lookup room m.rooms, ==_iff room r))

    register_fresh :
        (r : Text) (c : ℕ)
        → lookup r (handle_register k m).cancel_sub ≡ some c
        → c < (handle_register k m).next_ctx
    register_fresh r c e =
        let e' = rw (register_cancel r) at e in unfold handle_register in ground (arith, fresh r c)

    register_apart :
        (r r' : Text) (c : ℕ)
        → lookup r (handle_register k m).cancel_sub ≡ some c
        → lookup r' (handle_register k m).cancel_sub ≡ some c
        → r ≡ r'
    register_apart r r' c e f =
        let e' = rw (register_cancel r) at e in
        let f' = rw (register_cancel r') at f in
        ground (arith, apart r r' c, fresh r c, fresh r' c, ==_iff room r, ==_iff room r')

    register_watched :
        (r : Text) (c : ℕ)
        → live r c (handle_register k m).subscriptions
          ≡ is_ctx (lookup r (handle_register k m).cancel_sub) c
    register_watched r c = rw (register_cancel r) (
        unfold handle_register live in
        elim (Bool-cases (has room m.rooms)) [
          | inl e ↦ rw e (watched r c)
          | inr e ↦ rw e (
              ground (
                arith,
                watched r c,
                fresh r c,
                ==_iff room r,
                lookup_absent room m.rooms e,
                same room,
              ))
        ])

    register_single :
        (r : Text) (j : ℕ) → count j (or_nil (lookup r (handle_register k m).rooms)) ≤ 1
    register_single r j = rw (register_rooms r) (
        ground (
          arith,
          single r j,
          single room j,
          count-add k j (or_nil (lookup room m.rooms)),
          count_nonmember k (or_nil (lookup room m.rooms)),
        ))

    register_nonempty : (r : Text) → lookup r (handle_register k m).rooms ≢ some []
    register_nonempty r =
        rw (register_rooms r)
          (ground (arith, nonempty r, add-ne-nil k (or_nil (lookup room m.rooms))))

    register_home :
        (r : Text) (j : ℕ)
        → member j (or_nil (lookup r (handle_register k m).rooms)) ≡ true
        → (m.clients j).room_id ≡ r
    register_home r j = rw (register_rooms r) (
        ground (
          arith,
          home r j,
          home room j,
          member-add k j (or_nil (lookup room m.rooms)),
          ==_iff room r,
        ))

    register_open :
        (m.clients k).done ≡ false
        → (r : Text) (j : ℕ) → member j (or_nil (lookup r (handle_register k m).rooms)) ≡ true
        → (m.clients j).done ≡ false
    register_open h r j = rw (register_rooms r) (
        ground (
          arith,
          open_client r j,
          open_client room j,
          member-add k j (or_nil (lookup room m.rooms)),
          ==_iff room r,
        ))

    -- Registering touches no client.
    register_clients : (handle_register k m).clients ≡ m.clients
    register_clients = unfold handle_register in ground arith

    -- Registering a client that has not been closed keeps the rooms, the cancel functions and the
    -- subscribers in step.
    pub handle_register-IsWf : (m.clients k).done ≡ false → IsWf (handle_register k m)
    handle_register-IsWf h = record {
      same = present;
      fresh = register_fresh;
      apart = register_apart;
      watched = register_watched;
      nonempty = register_nonempty;
      single = register_single;
      home = λ r j. rw register_clients (register_home r j);
      open_client = λ r j. rw register_clients (register_open h r j);
      closes = λ j. rw register_clients (closes j);
    }
