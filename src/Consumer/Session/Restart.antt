-- ===== src/Consumer/Session/Restart.antt =====
-- internal/consumer/handler.go: the end of a session, and what it leaves to the next one, which has
-- the same handler.
use live_stream_danmaku.Base.{
  ◌≡◌, refl, Bool, true, none, some, Bool-cases, inl, inr, OnSome, OnSome_some,
}
use live_stream_danmaku.Json.{Bytes}
use live_stream_danmaku.Model.{TimeFormat}
use live_stream_danmaku.Text.Decimal.{int_eq}
use live_stream_danmaku.Repo.{Message}
use live_stream_danmaku.Consumer.Session.{
  Session, panicked, parse_message, consume, offer, setup, close_msg_chan,
}

close_msg_chan-closed : (s : Session) → OnSome (λ s'. s'.chan_closed ≡ true) (close_msg_chan s)
unfolding close_msg_chan
close_msg_chan-closed s = elim (Bool-cases s.chan_closed) [
  | inl c ↦ simp c tt
  | inr c ↦ simp c refl
]

-- After `Cleanup` has closed the channel of a session, `Setup` starts the next session on the closed
-- channel: there the first message that can be parsed makes `ConsumeClaim` panic, and so does the
-- next `Cleanup`.
pub setup-close_msg_chan :
    (format : TimeFormat) (leaves : Bool) (msg : Bytes) (d : Message) (s s' : Session)
    → parse_message format msg ≡ some d
    → close_msg_chan s ≡ some s'
    → (consume format leaves msg (setup s') ≡ panicked) × (close_msg_chan (setup s') ≡ none)
unfolding close_msg_chan consume offer setup
setup-close_msg_chan format leaves msg d s s' p e =
    let c : s'.chan_closed ≡ true =
      OnSome_some (λ t. t.chan_closed ≡ true) (close_msg_chan s) e (close_msg_chan-closed s) in
    rw (p, consume, offer) (simp c (refl, refl))
