-- ===== src/Ws/Loop/Isolation/Sendings.antt =====
-- The broadcast path keeps its sendings fair.
use live_stream_danmaku.Base.{
  ℕ, ◌≡◌, ◌≤◌, sym, ap, ◌∙◌, List, [], ◌∷◌, some, ltb, length, take_nth, arith, nat_eq, ==_refl,
  All, All-append, All-take_nth, OnSome, OnSome_some, Bool-cases, Option-cases, inl, inr,
}
use live_stream_danmaku.Text.{Text}
use live_stream_danmaku.Dict.Sets.{count}
use live_stream_danmaku.Json.{Bytes, ◌>>=◌}
use live_stream_danmaku.Ws.Jobs.{
  Jobs, broadcast_job_chan_size, worker_count, start_job, serve_next, finish_job,
}
use live_stream_danmaku.Ws.Jobs.Spec.{
  Sending, Fanout, send_all, begin, begin_first, send_one, send_first, end_one, end_empty,
}
use live_stream_danmaku.Ws.Jobs.Refinement.{
  view, view_some, view_out, start_job-begin, serve_next-send_one, finish_job-end_one,
}
use live_stream_danmaku.Ws.Loop.Isolation.{IsFair, AreFair}

-- What holds of each element that is counted holds of all.
pub All-count : (P : ℕ → Type 0) (ts : List ℕ) → ((k : ℕ) → 1 ≤ count k ts → P k) → All P ts
unfolding count
All-count P [] h = tt
All-count P (c ∷ cs) h =
    (h c (ground (arith, ==_refl c)), All-count P cs (λ k n. h k (ground arith)))

module _ (Allowed : Text → Bytes → Type 0) (home : ℕ → Text) where
  pub send_all-AreFair :
      (targets : List ℕ) (payload : Bytes) (a : Fanout)
      → All (λ k. Allowed (home k) payload) targets
      → AreFair Allowed home a
      → AreFair Allowed home (send_all targets payload a)
  unfolding send_all
  send_all-AreFair targets payload a h v =
      elim (Bool-cases (ltb (length a.queue) broadcast_job_chan_size)) [
        | inl e ↦
            rw e
              (All-append (IsFair Allowed home) a.queue ((targets, payload) ∷ []) v.0 (h, tt), v.1)
        | inr e ↦ rw e v
      ]

  begin_first-AreFair :
      (q : List Sending) (a : Fanout)
      → All (IsFair Allowed home) q
      → AreFair Allowed home a
      → OnSome (AreFair Allowed home) (begin_first q a)
  unfolding begin_first
  begin_first-AreFair [] a h v = tt
  begin_first-AreFair (s ∷ rest) a h v = elim (Bool-cases (ltb (length a.active) worker_count)) [
    | inl e ↦ rw e (h.1, (h.0, v.1))
    | inr e ↦ rw e tt
  ]

  pub start_job-AreFair :
      (q q' : Jobs)
      → start_job q ≡ some q'
      → AreFair Allowed home (view q)
      → AreFair Allowed home (view q')
  unfolding begin
  start_job-AreFair q q' e v =
      OnSome_some (AreFair Allowed home) (begin (view q)) (sym (start_job-begin q) ∙ ap view_some e)
        (begin_first-AreFair (view q).queue (view q) v.0 v)

  send_first-AreFair :
      (s : Sending) (rest : List Sending) (a : Fanout)
      → IsFair Allowed home s
      → All (IsFair Allowed home) rest
      → AreFair Allowed home a
      → OnSome (λ r. Allowed (home r.0.0) r.0.1 × AreFair Allowed home r.1) (send_first (s, rest) a)
  send_first-AreFair ([], payload) rest a h k v = tt
  send_first-AreFair (c ∷ cs, payload) rest a h k v = (h.0, (v.0, (h.1, k)))

  send_one-AreFair :
      (i : ℕ) (a : Fanout)
      → AreFair Allowed home a
      → OnSome (λ r. Allowed (home r.0.0) r.0.1 × AreFair Allowed home r.1) (send_one i a)
  unfolding send_one
  send_one-AreFair i a v = elim (Option-cases (take_nth i a.active)) [
    | inl e ↦ rw (e, ◌>>=◌) tt
    | inr (sr, e) ↦
        let h =
          OnSome_some (λ yr. IsFair Allowed home yr.0 × All (IsFair Allowed home) yr.1)
            (take_nth i a.active) e (All-take_nth (IsFair Allowed home) i a.active v.1) in
        rw (e, ◌>>=◌) (send_first-AreFair sr.0 sr.1 a h.0 h.1 v)
  ]

  pub serve_next-AreFair :
      (i c : ℕ) (payload : Bytes) (q q' : Jobs)
      → serve_next i q ≡ some ((c, payload), q')
      → AreFair Allowed home (view q)
      → Allowed (home c) payload × AreFair Allowed home (view q')
  serve_next-AreFair i c payload q q' e v =
      OnSome_some (λ r. Allowed (home r.0.0) r.0.1 × AreFair Allowed home r.1) (send_one i (view q))
        (sym (serve_next-send_one i q) ∙ ap view_out e) (send_one-AreFair i (view q) v)

  end_empty-AreFair :
      (s : Sending) (rest : List Sending) (a : Fanout)
      → All (IsFair Allowed home) rest
      → AreFair Allowed home a
      → OnSome (AreFair Allowed home) (end_empty (s, rest) a)
  end_empty-AreFair ([], payload) rest a k v = (v.0, k)
  end_empty-AreFair (c ∷ cs, payload) rest a k v = tt

  end_one-AreFair :
      (i : ℕ) (a : Fanout) → AreFair Allowed home a → OnSome (AreFair Allowed home) (end_one i a)
  unfolding end_one
  end_one-AreFair i a v = elim (Option-cases (take_nth i a.active)) [
    | inl e ↦ rw (e, ◌>>=◌) tt
    | inr (sr, e) ↦
        let h =
          OnSome_some (λ yr. IsFair Allowed home yr.0 × All (IsFair Allowed home) yr.1)
            (take_nth i a.active) e (All-take_nth (IsFair Allowed home) i a.active v.1) in
        rw (e, ◌>>=◌) (end_empty-AreFair sr.0 sr.1 a h.1 v)
  ]

  pub finish_job-AreFair :
      (i : ℕ) (q q' : Jobs)
      → finish_job i q ≡ some q'
      → AreFair Allowed home (view q)
      → AreFair Allowed home (view q')
  finish_job-AreFair i q q' e v =
      OnSome_some (AreFair Allowed home) (end_one i (view q))
        (sym (finish_job-end_one i q) ∙ ap view_some e) (end_one-AreFair i (view q) v)
