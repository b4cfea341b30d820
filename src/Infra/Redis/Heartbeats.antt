-- ===== src/Infra/Redis/Heartbeats.antt =====
-- internal/infra/redis.go, as several servers use it for one room: each reports its online count with
-- a time to live (UpdateServerOnline), and the total is read back (GetTotalOnline). Redis is not part of
-- the program: its state and operations are a parameter, with the documented behaviour of the commands
-- SET, GET, MGET, SADD, SREM and SMEMBERS, and of the expiry of keys, as fields.
pub mod Sums
pub mod Agrees
pub mod Totals
use live_stream_danmaku.Base.{
  ℕ, zero, suc, ◌+◌, ◌-◌, ◌%◌, ◌≡◌, ◌<◌, Bool, true, false, List, [], ◌∷◌, Option, none, some,
  if◌then◌else◌, ltb, nat_eq, list_eq, ◌==◌, map,
}
use live_stream_danmaku.Text.{Text}
use live_stream_danmaku.Text.Decimal.{u64, format_uint}
use live_stream_danmaku.Dict.Sets.{add, remove, count}
use live_stream_danmaku.Infra.Redis.{
  Command, set, s_add, s_rem, Replies, key_room_server_online, key_server_of_room,
  update_server_online,
}

-- `value` is the string at a key, `left` the seconds that it has left, if it is to expire, and
-- `members` the set at a key, in any order. A set is known by how often each member is listed.
pub record Redis (S : Type 0) : Type 0 where
  pub send : Command → S → S
  pub wait : ℕ → S → S
  pub value : S → Text → Option Text
  pub left : S → Text → Option ℕ
  pub members : S → Text → List Text
  pub set-value :
      (k j : Text) (n ttl : ℕ) (s : S)
      → value (send (set k n ttl) s) j ≡ (if k == j then some (format_uint n) else value s j)
  pub set-left :
      (k j : Text) (n ttl : ℕ) (s : S)
      → left (send (set k n ttl) s) j ≡ (if k == j then some ttl else left s j)
  pub set-members :
      (k j : Text) (n ttl : ℕ) (s : S)
      → (k == j) ≡ false
      → members (send (set k n ttl) s) j ≡ members s j
  pub s_add-members :
      (k t u : Text) (s : S)
      → count u (members (send (s_add k t) s) k) ≡ count u (add t (members s k))
  pub s_add-value :
      (k j t : Text) (s : S) → (k == j) ≡ false → value (send (s_add k t) s) j ≡ value s j
  pub s_add-left :
      (k j t : Text) (s : S) → (k == j) ≡ false → left (send (s_add k t) s) j ≡ left s j
  pub s_rem-members :
      (k t u : Text) (s : S)
      → count u (members (send (s_rem k t) s) k) ≡ count u (remove t (members s k))
  pub s_rem-value :
      (k j t : Text) (s : S) → (k == j) ≡ false → value (send (s_rem k t) s) j ≡ value s j
  pub s_rem-left :
      (k j t : Text) (s : S) → (k == j) ≡ false → left (send (s_rem k t) s) j ≡ left s j
  pub wait-value :
      (d l : ℕ) (k : Text) (s : S)
      → left s k ≡ some l
      → value (wait d s) k ≡ (if ltb d l then value s k else none)
  pub wait-none : (d : ℕ) (k : Text) (s : S) → value s k ≡ none → value (wait d s) k ≡ none
  pub wait-left :
      (d l : ℕ) (k : Text) (s : S) → left s k ≡ some l → d < l → left (wait d s) k ≡ some (l - d)
  pub wait-members : (d : ℕ) (k : Text) (s : S) → members (wait d s) k ≡ members s k

-- What the calls of Redis give in a state, when it is reached.
abbrev pub replies_in : {S : Type 0} → Redis S → S → Replies
replies_in redis s = record {
  s_members = λ k. some (redis.members s k);
  m_get = λ ks. some (map (redis.value s) ks);
  get = redis.value s;
}

-- A server reports its count, seconds pass, or the goroutine of GetTotalOnline that has found the key
-- of a server expired removes it from the registry: while the key is still expired, or late, when the
-- server may have reported again.
pub data Act : Type 0 where
  reports : (server : Text) → (n : ℕ) → Act
  passes : (seconds : ℕ) → Act
  removes : (server : Text) → Act
  removes_late : (server : Text) → Act

abbrev pub send_each : {S : Type 0} → Redis S → List Command → S → S
send_each redis [] s = s
send_each redis (c ∷ cs) s = send_each redis cs (redis.send c s)

module _ {S : Type 0} (redis : Redis S) (room : Text) (ttl : ℕ) where
  abbrev pub remove_if : Text → Option Text → S → S
  remove_if t none s = redis.send (s_rem (key_server_of_room room) t) s
  remove_if t (some value) s = s

  unfoldable pub redis_act : Act → S → S
  unfolding update_server_online
  redis_act (reports t n) s = send_each redis (update_server_online room t n ttl) s
  redis_act (passes d) s = redis.wait d s
  redis_act (removes t) s = remove_if t (redis.value s (key_room_server_online room t)) s
  redis_act (removes_late t) s = redis.send (s_rem (key_server_of_room room) t) s

  unfoldable pub redis_acts : List Act → S → S
  redis_acts [] s = s
  redis_acts (a ∷ rest) s = redis_acts rest (redis_act a s)

-- The abstract view: the servers that are registered, the last report of each, and the seconds for
-- which it counts.
pub record Board : Type 0 where
  pub known : List Text
  pub last : Text → ℕ
  pub left : Text → ℕ

abbrev pub with_entry {ℓ} : {A : Type ℓ} → Text → A → (Text → A) → Text → A
with_entry t a f u = if t == u then a else f u

unfoldable pub post : ℕ → Act → Board → Board
post ttl (reports t n) b = record {
  known = add t b.known;
  last = with_entry t n b.last;
  left = with_entry t ttl b.left;
}
post ttl (passes d) b = record b { left = λ u. b.left u - d }
post ttl (removes t) b = if b.left t == 0 then record b { known = remove t b.known } else b
post ttl (removes_late t) b = record b { known = remove t b.known }

unfoldable pub post_all : ℕ → List Act → Board → Board
post_all ttl [] b = b
post_all ttl (a ∷ rest) b = post_all ttl rest (post ttl a b)

abbrev pub empty_board : Board
empty_board = record { known = []; last = λ u. 0; left = λ u. 0 }

-- What a server counts for.
abbrev pub counts_for : Board → Text → ℕ
counts_for b u = if ltb 0 (b.left u) then b.last u else 0

abbrev pub sum_of : (Text → ℕ) → List Text → ℕ
sum_of g [] = 0
sum_of g (t ∷ ts) = g t + sum_of g ts

-- The online count that the reports make.
abbrev pub board_total : Board → ℕ
board_total b = sum_of (counts_for b) b.known % u64
