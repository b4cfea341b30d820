-- ===== src/Cmd/Consumer/Sessions.antt =====
-- How many sessions one run of the consumer can have.
use live_stream_danmaku.Base.{
  ℕ, ◌+◌, ◌≡◌, ◌≤◌, ◌⊎◌, inl, inr, refl, true, false, List, [], ◌∷◌, none, some, if◌then◌else◌,
  arith, Bool-cases, Option-cases, OnSome, OnSome_some, subst,
}
use live_stream_danmaku.Model.{TimeFormat}
use live_stream_danmaku.Consumer.Session.{
  Session, new_danmaku_handler, setup, close_msg_chan, wait_for_worker,
}
use live_stream_danmaku.Consumer.Session.Events.{Event, run_events}
use live_stream_danmaku.Consumer.Session.Events.Closed.{run_events-closed}
use live_stream_danmaku.Cmd.Consumer.{
  Call, failed, session, Ending, waiting, Round, stuck, crashed, run_call, cleanup, await_worker,
  consume_loop, consumer_main, batch_size,
}

abbrev is_session : Call → ℕ
is_session failed = 0
is_session (session events ending) = 1

-- The sessions among the calls that the loop makes: it ends after a call with `stop`.
abbrev pub sessions : List Round → ℕ
sessions [] = 0
sessions ((call, stop) ∷ rs) = is_session call + (if stop then 0 else sessions rs)

close_msg_chan-none : (s : Session) → s.chan_closed ≡ true → close_msg_chan s ≡ none
unfolding close_msg_chan
close_msg_chan-none s c = rw c refl

close_msg_chan-closed : (s : Session) → OnSome (λ t. t.chan_closed ≡ true) (close_msg_chan s)
unfolding close_msg_chan
close_msg_chan-closed s = elim (Bool-cases s.chan_closed) [
  | inl c ↦ simp c tt
  | inr c ↦ simp c refl
]

-- On a closed channel no session ends but by a panic.
run_call-closed :
    (format : TimeFormat) (events ending : List Event) (s : Session)
    → s.chan_closed ≡ true
    → run_call format (session events ending) s ≡ Ending.panicked
unfolding run_call
run_call-closed format events ending s c =
    elim (Option-cases (run_events format events (setup s))) [
      | inl e ↦ rw (e, run_call) refl
      | inr (t, e) ↦
          let closed =
            OnSome_some (λ t. t.chan_closed ≡ true) (run_events format events (setup s)) e
              (run_events-closed format events (setup s) (unfold setup in c)) in
          rw (e, run_call) (rw (close_msg_chan-none t closed) refl)
    ]

-- What `Cleanup` leaves behind is a closed channel.
IsClosedAtEnd : Ending → Type 0
IsClosedAtEnd (Ending.returned s) = s.chan_closed ≡ true
IsClosedAtEnd _ = Unit

await_worker-closed :
    (s : Session) → s.chan_closed ≡ true → IsClosedAtEnd (await_worker s (wait_for_worker s))
unfolding await_worker wait_for_worker IsClosedAtEnd
await_worker-closed s c = elim (Bool-cases s.working) [ inl w ↦ simp w tt | inr w ↦ simp w c ]

cleanup-closed :
    (format : TimeFormat) (ending : List Event) (s : Session)
    → s.chan_closed ≡ true
    → IsClosedAtEnd (cleanup format ending (some s))
unfolding cleanup
cleanup-closed format ending s c = elim (Option-cases (run_events format ending s)) [
  | inl e ↦ rw (e, cleanup) (unfold IsClosedAtEnd in tt)
  | inr (t, e) ↦
      rw (e, cleanup)
        (await_worker-closed t (
          OnSome_some (λ t. t.chan_closed ≡ true) (run_events format ending s) e
            (run_events-closed format ending s c)))
]

session-closed :
    (format : TimeFormat) (events ending : List Event) (s : Session)
    → IsClosedAtEnd (run_call format (session events ending) s)
unfolding run_call
session-closed format events ending s = elim (Option-cases (run_events format events (setup s))) [
  | inl e ↦ rw (e, run_call) (unfold IsClosedAtEnd in tt)
  | inr (t, e) ↦
      rw (e, run_call)
        (elim (Option-cases (close_msg_chan t)) [
          | inl n ↦ rw n (unfold IsClosedAtEnd in tt)
          | inr (u, k) ↦ rw k (
              cleanup-closed format ending u (
                OnSome_some (λ t. t.chan_closed ≡ true) (close_msg_chan t) k
                  (close_msg_chan-closed t)))
        ])
]

run_call-failed : (format : TimeFormat) (s : Session) → run_call format failed s ≡ Ending.returned s
unfolding run_call
run_call-failed format s = refl

closed_loop :
    (format : TimeFormat) (rounds : List Round) (s : Session)
    → s.chan_closed ≡ true
    → 1 ≤ sessions rounds
    → consume_loop format rounds s ≡ crashed
unfolding consume_loop
closed_loop format [] s c h = absurd (omega arith)
closed_loop format ((failed, true) ∷ rs) s c h = absurd (omega arith)
closed_loop format ((failed, false) ∷ rs) s c h =
    rw (run_call-failed format s, consume_loop) (closed_loop format rs s c (omega arith))
closed_loop format ((session events ending, stop) ∷ rs) s c h =
    rw (run_call-closed format events ending s c, consume_loop) refl

Ending-cases :
    (e : Ending)
    → ((s : Session) × (e ≡ Ending.returned s))
      ⊎ ((e ≡ Ending.panicked) ⊎ ((s : Session) × (e ≡ waiting s)))
Ending-cases (Ending.returned s) = inl (s, refl)
Ending-cases Ending.panicked = inr (inl refl)
Ending-cases (waiting s) = inr (inr (s, refl))

open_loop :
    (format : TimeFormat) (rounds : List Round) (s : Session)
    → 2 ≤ sessions rounds
    → (consume_loop format rounds s ≡ crashed)
      ⊎ ((t : Session) × (consume_loop format rounds s ≡ stuck t))
unfolding consume_loop
open_loop format [] s h = absurd (omega arith)
open_loop format ((failed, true) ∷ rs) s h = absurd (omega arith)
open_loop format ((failed, false) ∷ rs) s h =
    rw (run_call-failed format s, consume_loop) (open_loop format rs s (omega arith))
open_loop format ((session events ending, true) ∷ rs) s h = absurd (omega arith)
open_loop format ((session events ending, false) ∷ rs) s h =
    elim (Ending-cases (run_call format (session events ending) s)) [
      | inl (t, e) ↦
          let c = subst IsClosedAtEnd e (session-closed format events ending s) in
          inl (
            rw (e, consume_loop)
              (closed_loop format rs t (unfold IsClosedAtEnd in c) (omega arith)))
      | inr (inl e) ↦ inl (rw (e, consume_loop) refl)
      | inr (inr (t, e)) ↦ inr (t, rw (e, consume_loop) refl)
    ]

-- The consumer never gets past a second session: if Consume runs a session at least twice before the
-- loop ends, then the program panics, unless it hangs in the `Cleanup` of a session.
pub consumer_main_one_session :
    (format : TimeFormat) (rounds : List Round)
    → 2 ≤ sessions rounds
    → (consumer_main format rounds ≡ crashed)
      ⊎ ((t : Session) × (consumer_main format rounds ≡ stuck t))
unfolding consumer_main
consumer_main_one_session format rounds h =
    open_loop format rounds (new_danmaku_handler batch_size) h
