-- ===== src/Tests/Samples.antt =====
-- The clients, managers, frames and formats that the tests run on.
use live_stream_danmaku.Base.{
  ℕ, zero, suc, ◌≡◌, refl, Option, none, some, if◌then◌else◌, arith, ltb, ltb→lt, Bool-cases, inl,
  inr, some_inj,
}
use live_stream_danmaku.Text.{Text, codes}
use live_stream_danmaku.Text.Decimal.{NumResult, parsed, parse_uint, format_uint, u64}
use live_stream_danmaku.Text.Decimal.Laws.{parse_uint-format_uint}
use live_stream_danmaku.Dict.{has}
use live_stream_danmaku.Dict.Sets.{count}
use live_stream_danmaku.Json.{Bytes, doc, obj, field, str, num, end}
use live_stream_danmaku.Model.{TimeFormat}
use live_stream_danmaku.Ws.Client.{Client, new_client}
use live_stream_danmaku.Ws.Jobs.Ownership.{IsOwned}
use live_stream_danmaku.Ws.Manager.{Manager, new_manager, new_jobs, handle_register}
use live_stream_danmaku.Ws.Manager.Registry.{IsWf}
use live_stream_danmaku.Ws.Manager.Registry.Members.{new_manager-IsWf}
use live_stream_danmaku.Ws.Manager.Registry.Register.{handle_register-IsWf}
use live_stream_danmaku.Ws.Manager.Broadcast.{Choices}

-- A time format: nanoseconds in decimal.
abbrev pub write_nanos : ℕ → Option Text
write_nanos t = if ltb t u64 then some (format_uint t) else none

abbrev pub parsed_value : NumResult → Option ℕ
parsed_value (parsed n) = some n
parsed_value _ = none

abbrev pub read_nanos : Text → Option ℕ
read_nanos s = parsed_value (parse_uint s)

pub read-write_nanos : (t : ℕ) (s : Text) → write_nanos t ≡ some s → read_nanos s ≡ some t
read-write_nanos t s e = elim (Bool-cases (ltb t u64)) [
  | inl l ↦
      let same : format_uint t ≡ s = some_inj (rw l at e) in
      rw (← same) (rw (parse_uint-format_uint t (ltb→lt t u64 l)) refl)
  | inr g ↦ let e' = rw g at e in cc
]

abbrev pub nanos : TimeFormat
nanos = record { write = write_nanos; read = read_nanos; read-write = read-write_nanos }

-- Clients 0 and 1 are in room "a", all others in room "b".
abbrev pub sample_client : ℕ → Client
sample_client zero = new_client 7 (codes "ann") (codes "a")
sample_client (suc zero) = new_client 8 (codes "bob") (codes "a")
sample_client (suc (suc k)) = new_client 9 (codes "cat") (codes "b")

pub new_jobs-IsOwned : IsOwned new_jobs
unfolding count
new_jobs-IsOwned = record { unique = λ a. omega arith; in_use = λ a l. refl }

abbrev pub no_rooms : Manager
no_rooms = new_manager (codes "s1") sample_client

pub sample_client-closed : (k : ℕ) → (sample_client k).done ≡ (sample_client k).once
unfolding new_client
sample_client-closed zero = refl
sample_client-closed (suc zero) = refl
sample_client-closed (suc (suc k)) = refl

no_rooms-IsWf : IsWf no_rooms
no_rooms-IsWf = new_manager-IsWf (codes "s1") sample_client sample_client-closed

abbrev pub two_clients : Manager
two_clients = handle_register 1 (handle_register 0 no_rooms)

pub two_clients-IsWf : IsWf two_clients
unfolding new_client new_manager handle_register has
two_clients-IsWf =
    handle_register-IsWf 1 (handle_register 0 no_rooms)
      (handle_register-IsWf 0 no_rooms no_rooms-IsWf refl) refl

abbrev pub in_turn : Choices
in_turn = record { order = λ cs. cs; same_clients = λ cs k. refl; pick = 0; extra = λ n. n }

-- `{"user_id": 99, "content": "hi"}`: the sender claims to be user 99.
abbrev pub claims_99 : Bytes
claims_99 = doc (
    obj
      (field (codes "user_id") (num (codes "99")) (field (codes "content") (str (codes "hi")) end)))
