-- ===== src/Ws/Loop/Isolation.antt =====
-- Who gets what: a message is only ever for clients of the room that it was broadcast to. `home` says in
-- which room each client is, and `Allowed` which messages may be broadcast to which room.
pub mod Sendings
pub mod Steps
pub mod Turns
pub mod Reached
use live_stream_danmaku.Base.{ℕ, ◌≡◌, ◌≤◌, List, [], ◌∷◌, All, nat_eq, list_eq}
use live_stream_danmaku.Text.{Text}
use live_stream_danmaku.Json.{Bytes}
use live_stream_danmaku.Model.{TimeFormat, WsPacket, type_danmaku}
use live_stream_danmaku.Ws.Jobs.Spec.{Sending, Fanout}
use live_stream_danmaku.Ws.Jobs.Refinement.{view}
use live_stream_danmaku.Ws.Manager.{Manager}
use live_stream_danmaku.Ws.Loop.{
  Step, registers, unregisters, receives, takes_likes, informs, hears, reads, writes, shuts, starts,
  works, finishes, collects, Reach, here, later,
}

-- The packets that wait are chat messages, on their way to Redis.
abbrev pub IsDanmaku : WsPacket → Type 0
IsDanmaku p = p.msg_type ≡ type_danmaku

module _ (Allowed : Text → Bytes → Type 0) where
  -- A broadcast of the step, of statistics or of a message heard, is allowed.
  abbrev pub IsAllowedStep : {format : TimeFormat} {m m' : Manager} → Step format m m' → Type 0
  IsAllowedStep (informs ch room payload) = Allowed room payload
  IsAllowedStep (hears ch leaves s payload) = Allowed s.room payload
  IsAllowedStep _ = Unit

  abbrev pub IsAllowedReach : {format : TimeFormat} {s m : Manager} → Reach format s m → Type 0
  IsAllowedReach here = Unit
  IsAllowedReach (later r st) = IsAllowedReach r × IsAllowedStep st

  module _ (home : ℕ → Text) where
    -- A sending is for clients whose room may get it.
    abbrev pub IsFair : Sending → Type 0
    IsFair (targets, payload) = All (λ k. Allowed (home k) payload) targets

    abbrev pub AreFair : Fanout → Type 0
    AreFair a = All IsFair a.queue × All IsFair a.active

    pub record IsIsolated (m : Manager) : Type 0 where
      pub homes : (k : ℕ) → (m.clients k).room_id ≡ home k
      pub danmaku : All IsDanmaku m.broadcast
      pub jobs : AreFair (view m.jobs)
      pub buffers : (k : ℕ) → All (Allowed (home k)) (m.clients k).send
