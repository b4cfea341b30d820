-- ===== src/Ws/Loop/Good.antt =====
-- What holds of the server at any moment.
use live_stream_danmaku.Base.{ℕ, ◌≡◌, ◌≤◌, refl, sym, ◌∙◌, length, nat_eq, list_eq}
use live_stream_danmaku.Ws.Client.{send_chan_size}
use live_stream_danmaku.Ws.Jobs.{Jobs}
use live_stream_danmaku.Ws.Jobs.Bounds.{IsWithin}
use live_stream_danmaku.Ws.Jobs.Ownership.{IsOwned}
use live_stream_danmaku.Ws.Manager.{Manager}
use live_stream_danmaku.Ws.Manager.Registry.{IsWf}
use live_stream_danmaku.Ws.Manager.Broadcast.{broadcast_chan_size}

-- The rooms are well formed, each array has one owner, and every channel is within its capacity.
pub record IsGood (m : Manager) : Type 0 where
  pub wf : IsWf m
  pub owned : IsOwned m.jobs
  pub within : IsWithin m.jobs
  pub queue : length m.broadcast ≤ broadcast_chan_size
  pub buffers : (k : ℕ) → length (m.clients k).send ≤ send_chan_size

-- Nothing that the rooms depend on has changed.
pub record IsSame (m m' : Manager) : Type 0 where
  pub rooms : m'.rooms ≡ m.rooms
  pub cancel_sub : m'.cancel_sub ≡ m.cancel_sub
  pub next_ctx : m'.next_ctx ≡ m.next_ctx
  pub subscriptions : m'.subscriptions ≡ m.subscriptions
  pub room_id : (k : ℕ) → (m'.clients k).room_id ≡ (m.clients k).room_id
  pub done : (k : ℕ) → (m'.clients k).done ≡ (m.clients k).done
  pub once : (k : ℕ) → (m'.clients k).once ≡ (m.clients k).once

pub same-IsWf : {m m' : Manager} → IsSame m m' → IsWf m → IsWf m'
same-IsWf {m} {m'} s v = record {
  same = λ r. rw (s.rooms, s.cancel_sub) (v.same r);
  fresh = λ r c e. rw s.next_ctx (v.fresh r c (rw s.cancel_sub at e));
  apart = λ r r' c e f. v.apart r r' c (rw s.cancel_sub at e) (rw s.cancel_sub at f);
  watched = λ r c. rw (s.subscriptions, s.cancel_sub) (v.watched r c);
  nonempty = λ r. rw s.rooms (v.nonempty r);
  single = λ r k. rw s.rooms (v.single r k);
  home = λ r k e. s.room_id k ∙ v.home r k (rw s.rooms at e);
  open_client = λ r k e. s.done k ∙ v.open_client r k (rw s.rooms at e);
  closes = λ k. s.done k ∙ v.closes k ∙ sym (s.once k);
}

-- Other jobs, of a good kind, are as good.
pub with_jobs :
    (m : Manager) (q : Jobs) → IsGood m → IsOwned q → IsWithin q → IsGood (record m { jobs = q })
with_jobs m q g o w = record {
  wf =
      same-IsWf {m = m}
        (record {
          rooms = refl;
          cancel_sub = refl;
          next_ctx = refl;
          subscriptions = refl;
          room_id = λ k. refl;
          done = λ k. refl;
          once = λ k. refl;
        })
        g.wf;
  owned = o;
  within = w;
  queue = g.queue;
  buffers = g.buffers;
}
