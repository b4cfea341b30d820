-- ===== src/Ws/Client/Laws.antt =====
-- `Close` runs once, `safeSend` keeps the buffer bounded, `WritePump` keeps the order.
use live_stream_danmaku.Base.{
  ◌≤◌, ◌≡◌, refl, Bool, true, false, List, [], ◌∷◌, ◌++◌, some, if◌then◌else◌, length, arith,
  append_assoc, Bool-cases, inl, inr,
}
use live_stream_danmaku.Json.{Bytes}
use live_stream_danmaku.Ws.Client.{
  Client, close, Ready, message, stopped, Pump, pump_step, write_pump, start_pump, pump_message,
  leave,
}

-- `done` is closed by `Close` alone.
abbrev pub IsConsistent : Client → Type 0
IsConsistent c = c.done ≡ c.once

-- `Close` never panics on a consistent client: it closes the `done` channel, leaves the buffer and
-- the identity as they are, and a second call changes nothing.
pub close_once :
    (c : Client)
    → IsConsistent c
    → (c' : Client) × (close c ≡ some c')
      × (c'.done ≡ true)
      × IsConsistent c'
      × (c'.send ≡ c.send)
      × (c'.room_id ≡ c.room_id)
      × (close c' ≡ some c')
unfolding close
close_once c h = (
  record c { done = true; once = true; socket_open = if c.once then c.socket_open else false },
  ground arith,
  refl,
  refl,
  refl,
  refl,
  refl,
)

abbrev pub traffic : Pump → List Bytes
traffic p = p.written ++ (p.lost ++ p.client.send)

-- The messages written, lost and still buffered make up `all`, in this order; nothing is lost while
-- the loop runs, and at most one message after it.
pub record IsOrdered (all : List Bytes) (p : Pump) : Type 0 where
  pub whole : traffic p ≡ all
  pub loss : length p.lost ≤ (if p.running then 0 else 1)

no_loss : (p : Pump) → p.running ≡ true → length p.lost ≤ (if p.running then 0 else 1) → p.lost ≡ []
no_loss p r h = go p.lost (rw r at h)
  where
    go : (l : List Bytes) → length l ≤ 0 → l ≡ []
    go [] h = refl
    go (b ∷ l) h = absurd (omega arith)

message-IsOrdered :
    (all : List Bytes) (p : Pump) (wrote : Bool) (q : List Bytes)
    → p.client.send ≡ q
    → p.running ≡ true
    → IsOrdered all p
    → IsOrdered all (pump_message p wrote q)
unfolding pump_message leave
message-IsOrdered all p wrote [] e r v = v
message-IsOrdered all p true (b ∷ rest) e r v = record {
  whole =
      let l : p.lost ≡ [] = no_loss p r v.loss in
      let w : p.written ++ (b ∷ rest) ≡ all = rw (← e) (rw l at v.whole) in
      rw l (rw append_assoc w);
  loss = v.loss;
}
message-IsOrdered all p false (b ∷ rest) e r v = record {
  whole =
      let l : p.lost ≡ [] = no_loss p r v.loss in
      let w : p.written ++ (b ∷ rest) ≡ all = rw (← e) (rw l at v.whole) in rw l w;
  loss = let l : p.lost ≡ [] = no_loss p r v.loss in rw l (omega arith);
}

pub pump_step-IsOrdered :
    (all : List Bytes) (p : Pump) (r : Ready) → IsOrdered all p → IsOrdered all (pump_step p r)
unfolding pump_step leave
pump_step-IsOrdered all p (message wrote) v = elim (Bool-cases p.running) [
  | inl e ↦ simp e (message-IsOrdered all p wrote p.client.send refl e v)
  | inr e ↦ simp e v
]
pump_step-IsOrdered all p stopped v = record {
  whole = ground (arith, v.whole);
  loss = ground (arith, v.loss);
}

write_pump-IsOrdered :
    (all : List Bytes) (p : Pump) (rs : List Ready)
    → IsOrdered all p
    → IsOrdered all (write_pump p rs)
unfolding write_pump
write_pump-IsOrdered all p [] v = v
write_pump-IsOrdered all p (r ∷ rs) v =
    write_pump-IsOrdered all (pump_step p r) rs (pump_step-IsOrdered all p r v)

-- Whatever the rounds of `WritePump`, what it has written, what it has lost and what is left in the
-- buffer make up the buffer it started from, in order; nothing is lost while it runs, and at most
-- one message when it has ended.
pub write_pump_order :
    (c : Client) (rs : List Ready) → IsOrdered c.send (write_pump (start_pump c) rs)
write_pump_order c rs =
    write_pump-IsOrdered c.send (start_pump c) rs (record { whole = refl; loss = omega arith })
