-- ===== src/Consumer/Session/Order/Drain.antt =====
-- internal/consumer/handler.go: the orderly end of a session. `Cleanup` has closed the channel, and the
-- worker receives until it finds it empty.
use live_stream_danmaku.Base.{
  ℕ, zero, suc, ◌≡◌, refl, ◌∙◌, subst, true, false, List, [], ◌∷◌, ◌++◌, Option, some,
  if◌then◌else◌, length, leb, Bool-cases, inl, inr, append-nil,
}
use live_stream_danmaku.Json.{◌>>=◌}
use live_stream_danmaku.Repo.{Message, Attempt}
use live_stream_danmaku.Consumer.Session.{Session, flush, take_message, worker_receive}
use live_stream_danmaku.Consumer.Session.Order.{
  flatten, flatten-log_batch, accepted, take_message-IsMoved,
}

-- `n` rounds of `dbWorker` in which it receives; `envs` is how the database behaves in each.
unfoldable pub receive_all : (ℕ → ℕ → Attempt) → ℕ → Session → Option Session
receive_all envs zero s = some s
receive_all envs (suc n) s = worker_receive (envs n) s >>= receive_all envs n

-- The worker has returned, nothing is left over, and `ms` are the messages of the batches.
pub record IsDrained (ms : List Message) (s : Session) : Type 0 where
  pub returned : s.working ≡ false
  pub chan_empty : s.msg_chan ≡ []
  pub buffer_empty : s.buffer ≡ []
  pub all_flushed : flatten s.batches ≡ ms

-- The session after one message, from a worker that has not returned.
after_message : (ℕ → Attempt) → Message → List Message → Session → Session
after_message env m rest s =
    let s' : Session = record s { msg_chan = rest; buffer = s.buffer ++ m ∷ [] } in
    if leb s.batch_size (length s'.buffer) then flush env s' else s'

after_message-working :
    (env : ℕ → Attempt) (m : Message) (rest : List Message) (s : Session)
    → ((after_message env m rest s).working ≡ s.working)
      × ((after_message env m rest s).chan_closed ≡ s.chan_closed)
      × ((after_message env m rest s).msg_chan ≡ rest)
unfolding after_message flush
after_message-working env m rest s =
    elim (Bool-cases (leb s.batch_size (length (s.buffer ++ m ∷ [])))) [
      | inl e ↦ rw e (refl, refl, refl)
      | inr e ↦ rw e (refl, refl, refl)
    ]

after_message-accepted :
    (env : ℕ → Attempt) (m : Message) (rest : List Message) (s : Session)
    → s.msg_chan ≡ m ∷ rest
    → accepted (after_message env m rest s) ≡ accepted s
unfolding after_message take_message
after_message-accepted env m rest s e = (take_message-IsMoved env (m ∷ rest) s e).0

-- With a message on the channel, and with none on a closed channel.
worker_receive-message :
    (env : ℕ → Attempt) (m : Message) (rest : List Message) (s : Session)
    → s.msg_chan ≡ m ∷ rest
    → s.working ≡ true
    → worker_receive env s ≡ some (after_message env m rest s)
unfolding worker_receive take_message after_message
worker_receive-message env m rest s e w = simp (w, e) refl

worker_receive-closed :
    (env : ℕ → Attempt) (s : Session)
    → s.msg_chan ≡ []
    → s.working ≡ true
    → s.chan_closed ≡ true
    → worker_receive env s ≡ some (record (flush env s) { working = false })
unfolding worker_receive take_message
worker_receive-closed env s e w c = simp (w, e, c) refl

drains :
    (envs : ℕ → ℕ → Attempt) (q : List Message) (s : Session)
    → s.msg_chan ≡ q
    → s.working ≡ true
    → s.chan_closed ≡ true
    → (s' : Session) × (receive_all envs (suc (length q)) s ≡ some s') × IsDrained (accepted s) s'
unfolding receive_all flush
drains envs [] s e w c = (
  record (flush (envs 0) s) { working = false },
  rw (worker_receive-closed (envs 0) s e w c) refl,
  record {
    returned = refl;
    chan_empty = e;
    buffer_empty = refl;
    all_flushed = flatten-log_batch s.buffer s.batches ∙ rw (e, append-nil s.buffer) refl;
  },
)
drains envs (m ∷ rest) s e w c =
    let env = envs (suc (length rest)) in
    let t = after_message env m rest s in
    let (kept_working, kept_closed, chan) = after_message-working env m rest s in
    let (s', runs, drained) = drains envs rest t chan (kept_working ∙ w) (kept_closed ∙ c) in
    (
      s',
      rw (worker_receive-message env m rest s e w) runs,
      subst (λ ms. IsDrained ms s') (after_message-accepted env m rest s e) drained,
    )

-- After `Cleanup` has closed the channel of a session whose worker has not returned, one receive for
-- each message on the channel and one more end the worker. Then the buffer and the channel are empty,
-- and all messages that were accepted have been flushed, in order.
pub receive_all-drains :
    (envs : ℕ → ℕ → Attempt) (s : Session)
    → s.working ≡ true
    → s.chan_closed ≡ true
    → (s' : Session) × (receive_all envs (suc (length s.msg_chan)) s ≡ some s')
      × IsDrained (accepted s) s'
receive_all-drains envs s w c = drains envs s.msg_chan s refl w c
