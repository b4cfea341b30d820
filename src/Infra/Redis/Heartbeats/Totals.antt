-- ===== src/Infra/Redis/Heartbeats/Totals.antt =====
-- What GetTotalOnline makes of the reports.
use live_stream_danmaku.Base.{
  ℕ, ◌%◌, ◌≡◌, ◌<◌, refl, ap, ◌∙◌, List, [], ◌∷◌, none, some, if◌then◌else◌, ltb, nat_eq, list_eq,
  arith, Bool-cases, inl, inr, All, map,
}
use live_stream_danmaku.Text.{Text}
use live_stream_danmaku.Text.Decimal.{u64, format_uint}
use live_stream_danmaku.Text.Decimal.Laws.{parse_uint-format_uint}
use live_stream_danmaku.Infra.Redis.{get_total_online, key_room_server_online, key_server_of_room}
use live_stream_danmaku.Infra.Redis.Laws.{
  get_total_online_sum, online_of, online_sum, counters, counters_of,
}
use live_stream_danmaku.Infra.Redis.Heartbeats.{
  Redis, replies_in, Act, reports, passes, removes, removes_late, redis_acts, Board, post, post_all,
  empty_board, counts_for, sum_of, board_total,
}
use live_stream_danmaku.Infra.Redis.Heartbeats.Sums.{sum_of-same}
use live_stream_danmaku.Infra.Redis.Heartbeats.Agrees.{Agrees, redis_acts-Agrees}

-- A report of a count that is a uint64.
abbrev pub IsSmall : Act → Type 0
IsSmall (reports t n) = n < u64
IsSmall _ = Unit

post_all-small :
    (ttl : ℕ) (steps : List Act) (b : Board)
    → All IsSmall steps
    → ((u : Text) → b.last u < u64)
    → (u : Text) → (post_all ttl steps b).last u < u64
unfolding post_all post
post_all-small ttl [] b h v u = v u
post_all-small ttl (reports t n ∷ steps) b h v u =
    post_all-small ttl steps (post ttl (reports t n) b) h.1 (λ w. ground (arith, v w)) u
post_all-small ttl (passes d ∷ steps) b h v u =
    post_all-small ttl steps (post ttl (passes d) b) h.1 v u
post_all-small ttl (removes t ∷ steps) b h v u =
    post_all-small ttl steps (post ttl (removes t) b) h.1 (λ w. ground (arith, v w)) u
post_all-small ttl (removes_late t ∷ steps) b h v u =
    post_all-small ttl steps (post ttl (removes_late t) b) h.1 v u

online_of-report :
    (b : Board) (u : Text)
    → b.last u < u64
    → online_of (if ltb 0 (b.left u) then some (format_uint (b.last u)) else none) ≡ counts_for b u
online_of-report b u h = elim (Bool-cases (ltb 0 (b.left u))) [
  | inl e ↦ rw e (rw (parse_uint-format_uint (b.last u) h) refl)
  | inr e ↦ rw e refl
]

module _ {S : Type 0} (redis : Redis S) (room : Text) where
  online_sum-sum_of :
      (g : Text → ℕ) (s : S) (ts : List Text)
      → ((u : Text) → online_of (redis.value s (key_room_server_online room u)) ≡ g u)
      → online_sum (map (redis.value s) (map (key_room_server_online room) ts)) ≡ sum_of g ts
  online_sum-sum_of g s [] h = refl
  online_sum-sum_of g s (t ∷ ts) h = let rest = online_sum-sum_of g s ts h in rw (h t, rest) refl

  counters-sum_of :
      (g : Text → ℕ) (s : S) (ts : List Text)
      → ((u : Text) → online_of (redis.value s (key_room_server_online room u)) ≡ g u)
      → online_sum (counters_of (replies_in redis s) room (some ts)) ≡ sum_of g ts
  unfolding counters_of
  counters-sum_of g s [] h = refl
  counters-sum_of g s (t ∷ ts) h = online_sum-sum_of g s (t ∷ ts) h

  total-Agrees :
      (s : S) (b : Board)
      → Agrees redis room s b
      → ((u : Text) → b.last u < u64)
      → get_total_online (replies_in redis s) room ≡ board_total b
  unfolding counters
  total-Agrees s b v small =
      let found = redis.members s (key_server_of_room room) in
      let sum =
        counters-sum_of (counts_for b) s found
          (λ u. ap online_of (v.values u) ∙ online_of-report b u (small u)) in
      let same =
        sum_of-same (counts_for b) found b.known (λ u. rw (v.registered u) (v.single u))
          v.registered in
      get_total_online_sum (replies_in redis s) room ∙ ap (λ n. n % u64) (sum ∙ same)

  -- Servers report uint64 counts for a room with a time to live that is not 0, seconds pass, and
  -- servers are removed, if their key is expired, or late, whatever their key is by then, in any
  -- order, from a state in which the room has no registered server and no counts. Then the total that
  -- GetTotalOnline reads from Redis is, modulo 2^64, the sum over the servers that have reported since
  -- they were last removed of the count last reported, if that is less than a time to live ago.
  pub get_total_online-reports :
      (ttl : ℕ) (steps : List Act) (s : S)
      → 0 < ttl
      → All IsSmall steps
      → Agrees redis room s empty_board
      → get_total_online (replies_in redis (redis_acts redis room ttl steps s)) room
        ≡ board_total (post_all ttl steps empty_board)
  get_total_online-reports ttl steps s some_time small v =
      total-Agrees (redis_acts redis room ttl steps s) (post_all ttl steps empty_board)
        (redis_acts-Agrees redis room ttl some_time steps s empty_board v)
        (post_all-small ttl steps empty_board small (λ u. omega arith))
