-- ===== src/Cmd/Benchmark/Bots/Hosts.antt =====
-- cmd/benchmark/main.go: where the bots connect, and whether the server takes them.
use live_stream_danmaku.Base.{
  ℕ, zero, suc, ◌+◌, ◌/◌, ◌≡◌, ◌<◌, ap, true, ◌++◌, arith, if◌then◌else◌, nat_eq, ◌==◌, list_beq,
}
use live_stream_danmaku.Text.{codes}
use live_stream_danmaku.Text.Decimal.{u64, format_uint}
use live_stream_danmaku.Text.Decimal.Laws.{parse_uint-format_uint, parse_uint_iff}
use live_stream_danmaku.Ws.Client.{new_client}
use live_stream_danmaku.Api.{accepted}
use live_stream_danmaku.Api.Laws.{connect_web_socket_iff}
use live_stream_danmaku.Cmd.Server.{answered, serve}
use live_stream_danmaku.Cmd.Benchmark.Bots.{target_host, room_of, bot_request}

-- How many of the first `n` bots dial the host with this index.
abbrev pub dialled : ℕ → ℕ → ℕ
dialled host zero = 0
dialled host (suc n) = (if target_host n == host then 1 else 0) + dialled host n

-- The first host gets half of the bots, rounded up, and the second half of them, rounded down.
pub target_host_even : (n : ℕ) → (dialled 0 n ≡ (n + 1) / 2) × (dialled 1 n ≡ n / 2)
unfolding target_host
target_host_even zero = (omega arith, omega arith)
target_host_even (suc n) = let h = target_host_even n in ground arith

-- A server accepts every bot whose id is a uint64, if the upgrade succeeds, as the user with this id.
pub bot_request-serve :
    (id : ℕ)
    → id < u64
    → serve true (bot_request id)
      ≡ answered (accepted (new_client id (codes "bot-" ++ format_uint id) (room_of id)))
unfolding serve bot_request room_of list_beq
bot_request-serve id small =
    let (some_digit, digits, value, fits) =
      (parse_uint_iff (format_uint id) id).0 (parse_uint-format_uint id small) in
    ap answered (
      (connect_web_socket_iff (format_uint id) (codes "bot-" ++ format_uint id) (room_of id) id).1
        ((λ e. cc), some_digit, digits, value, fits))
