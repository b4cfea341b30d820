-- ===== src/Ws/Loop/Isolation/Turns.antt =====
-- The turns of a client's pumps and of a worker.
use live_stream_danmaku.Base.{
  ℕ, ◌≡◌, refl, ap, ◌∙◌, subst, true, false, List, [], ◌∷◌, ltb, length, arith, nat_eq, list_eq,
  ◌==◌, ==_iff, All, All-append, OnSome, Bool-cases, Option-cases, inl, inr,
}
use live_stream_danmaku.Text.{Text}
use live_stream_danmaku.Text.Decimal.{ℤ, int_eq}
use live_stream_danmaku.Json.{Bytes, ◌>>=◌}
use live_stream_danmaku.Model.{TimeFormat, type_danmaku, action_like}
use live_stream_danmaku.Ws.Client.{
  Client, send_chan_size, safe_send, Ready, message, stopped, start_pump, pump_step,
}
use live_stream_danmaku.Ws.Jobs.{Jobs, serve_next}
use live_stream_danmaku.Ws.Jobs.Refinement.{view}
use live_stream_danmaku.Ws.Manager.{Manager, update}
use live_stream_danmaku.Ws.Manager.Broadcast.{work}
use live_stream_danmaku.Ws.Manager.Registry.Untouched.{IsUntouched}
use live_stream_danmaku.Ws.Router.{dispatch, action_registry}
use live_stream_danmaku.Ws.Router.Laws.{dispatch_danmaku, dispatch_like, dispatch_unknown}
use live_stream_danmaku.Ws.Loop.Isolation.{AreFair, IsIsolated}
use live_stream_danmaku.Ws.Loop.Isolation.Sendings.{serve_next-AreFair}
use live_stream_danmaku.Ws.Loop.Isolation.Steps.{
  danmaku_handler-IsIsolated, like_handler-IsIsolated,
}

module _ (Allowed : Text → Bytes → Type 0) (home : ℕ → Text) where
  abbrev Isolated : Manager → Type 0
  Isolated = IsIsolated Allowed home

  pub dispatch-IsIsolated :
      (format : TimeFormat) (now k : ℕ) (m : Manager) (t : ℤ) (payload : Bytes)
      → Isolated m
      → OnSome Isolated (dispatch (action_registry format now) k m t payload)
  dispatch-IsIsolated format now k m t payload v = elim (Bool-cases (type_danmaku == t)) [
    | inl e ↦
        subst (λ u. OnSome Isolated (dispatch (action_registry format now) k m u payload))
          ((==_iff type_danmaku t).0 e)
          (rw (dispatch_danmaku format now k m payload)
            (danmaku_handler-IsIsolated Allowed home format now k m payload v))
    | inr e ↦ elim (Bool-cases (action_like == t)) [
      | inl f ↦
          subst (λ u. OnSome Isolated (dispatch (action_registry format now) k m u payload))
            ((==_iff action_like t).0 f)
            (rw (dispatch_like format now k m payload)
              (like_handler-IsIsolated Allowed home k m payload v))
      | inr f ↦
          rw
            (dispatch_unknown format now k m payload t
              (λ h. ground (arith, h, e, ==_iff type_danmaku t))
              (λ h. ground (arith, h, f, ==_iff action_like t)))
            v
    ]
  ]

  -- A client that stays in its room, and that has only messages allowed there.
  pub with_client :
      (m : Manager) (k : ℕ) (c : Client)
      → c.room_id ≡ (m.clients k).room_id
      → All (Allowed (home k)) c.send
      → Isolated m
      → Isolated (record m { clients = update m.clients k c })
  with_client m k c e h v = record {
    homes = λ j. elim (Bool-cases (k == j)) [
      | inl s ↦ rw s (e ∙ v.homes k ∙ ap home ((==_iff k j).0 s))
      | inr s ↦ rw s (v.homes j)
    ];
    danmaku = v.danmaku;
    jobs = v.jobs;
    buffers = λ j. elim (Bool-cases (k == j)) [
      | inl s ↦ rw s (subst (λ i. All (Allowed (home i)) c.send) ((==_iff k j).0 s) h)
      | inr s ↦ rw s (v.buffers j)
    ];
  }

  pub with_jobs :
      (m : Manager) (q : Jobs)
      → AreFair Allowed home (view q)
      → Isolated m
      → Isolated (record m { jobs = q })
  with_jobs m q h v = record { homes = v.homes; danmaku = v.danmaku; jobs = h; buffers = v.buffers }

  sent_allowed :
      (r : Text) (c : Client) (payload : Bytes)
      → All (Allowed r) c.send
      → Allowed r payload
      → All (Allowed r) (safe_send c payload).send
  unfolding safe_send
  sent_allowed r c payload h ok = elim (Bool-cases (ltb (length c.send) send_chan_size)) [
    | inl e ↦ rw e (All-append (Allowed r) c.send (payload ∷ []) h (ok, tt))
    | inr e ↦ rw e h
  ]

  sent_stays : (c : Client) (payload : Bytes) → (safe_send c payload).room_id ≡ c.room_id
  unfolding safe_send
  sent_stays c payload = ground arith

  pub work-IsIsolated : (i : ℕ) (m : Manager) → Isolated m → OnSome Isolated (work i m)
  unfolding work
  work-IsIsolated i m v = elim (Option-cases (serve_next i m.jobs)) [
    | inl e ↦ rw (e, ◌>>=◌) tt
    | inr (((c, payload), q), e) ↦
        let h = serve_next-AreFair Allowed home i c payload m.jobs q e v.jobs in
        rw (e, ◌>>=◌)
          (with_client (record m { jobs = q }) c (safe_send (m.clients c) payload)
            (sent_stays (m.clients c) payload)
            (sent_allowed (home c) (m.clients c) payload (v.buffers c) h.0) (with_jobs m q h.1 v))
  ]

  -- A round of WritePump takes at most the first message from the buffer.
  pub round_allowed :
      (t : Text) (c : Client) (r : Ready) (bs : List Bytes)
      → c.send ≡ bs
      → All (Allowed t) bs
      → ((pump_step (start_pump c) r).client.room_id ≡ c.room_id)
        × All (Allowed t) (pump_step (start_pump c) r).client.send
  unfolding pump_step
  round_allowed t c stopped bs e h = elim (Bool-cases c.done) [
    | inl d ↦ rw d (refl, rw e h)
    | inr d ↦ rw d (refl, rw e h)
  ]
  round_allowed t c (message wrote) [] e h = rw (e, pump_step) (refl, rw e tt)
  round_allowed t c (message true) (b ∷ rest) e h = rw (e, pump_step) (refl, h.1)
  round_allowed t c (message false) (b ∷ rest) e h = rw (e, pump_step) (refl, h.1)

  pub untouched-IsIsolated :
      (m m' : Manager)
      → IsUntouched m m'
      → ((k : ℕ) → (m'.clients k).room_id ≡ (m.clients k).room_id)
      → Isolated m
      → Isolated m'
  untouched-IsIsolated m m' u same v = record {
    homes = λ k. same k ∙ v.homes k;
    danmaku = rw u.broadcast v.danmaku;
    jobs = rw u.jobs v.jobs;
    buffers = λ k. rw (u.send k) (v.buffers k);
  }
