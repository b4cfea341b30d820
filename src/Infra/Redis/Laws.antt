-- ===== src/Infra/Redis/Laws.antt =====
-- The sum of the online counts, and the keys.
use mathlib.Core.List.{append_cancel_left, append_cancel_right}
use live_stream_danmaku.Base.{
  ℕ, ◌+◌, ◌%◌, ◌<◌, ◌≡◌, refl, ◌∙◌, List, [], ◌∷◌, ◌++◌, Option, none, some, arith, map,
}
use live_stream_danmaku.Text.{Text, codes}
use live_stream_danmaku.Text.Decimal.{u64, NumResult, parsed, syntax, range, parse_uint}
use live_stream_danmaku.Infra.Redis.{
  Replies, key_room_likes, key_room_server_online, key_server_of_room, sum_online, add_online,
  sum_reply, total_of, get_total_online,
}

-- What a value stands for.
abbrev number_of : NumResult → ℕ
number_of (parsed n) = n
number_of _ = 0

abbrev pub online_of : Option Text → ℕ
online_of none = 0
online_of (some s) = number_of (parse_uint s)

abbrev pub online_sum : List (Option Text) → ℕ
online_sum [] = 0
online_sum (value ∷ values) = online_of value + online_sum values

add_online_lem :
    (total : ℕ) (value : Option Text)
    → total < u64
    → add_online total value ≡ (total + online_of value) % u64
unfolding add_online
add_online_lem total none h = omega arith
add_online_lem total (some s) h = go (parse_uint s) refl
  where
    go :
        (r : NumResult)
        → parse_uint s ≡ r
        → add_online total (some s) ≡ (total + number_of (parse_uint s)) % u64
    go (parsed n) e = rw (e, add_online) refl
    go syntax e = rw (e, add_online) (omega arith)
    go range e = rw (e, add_online) (omega arith)

sum_online_lem :
    (total : ℕ) (values : List (Option Text))
    → total < u64
    → sum_online total values ≡ (total + online_sum values) % u64
unfolding sum_online
sum_online_lem total [] h = omega arith
sum_online_lem total (value ∷ values) h =
    rw (add_online_lem total value h)
      (sum_online_lem ((total + online_of value) % u64) values (omega arith) ∙ omega arith)

unfoldable pub or_no_values : Option (List (Option Text)) → List (Option Text)
or_no_values none = []
or_no_values (some values) = values

unfoldable pub counters_of : Replies → Text → Option (List Text) → List (Option Text)
unfolding or_no_values
counters_of replies room none = []
counters_of replies room (some []) = []
counters_of replies room (some (server ∷ servers)) =
    or_no_values (replies.m_get (map (key_room_server_online room) (server ∷ servers)))

-- The counters of the servers that are registered for a room, if Redis gives them.
unfoldable pub counters : Replies → Text → List (Option Text)
unfolding counters_of
counters replies room = counters_of replies room (replies.s_members (key_server_of_room room))

sum_reply_lem : (o : Option (List (Option Text))) → sum_reply o ≡ online_sum (or_no_values o) % u64
unfolding sum_reply or_no_values
sum_reply_lem none = omega arith
sum_reply_lem (some values) = sum_online_lem 0 values (omega arith) ∙ omega arith

total_of_lem :
    (replies : Replies) (room : Text) (o : Option (List Text))
    → total_of replies room o ≡ online_sum (counters_of replies room o) % u64
unfolding total_of counters_of
total_of_lem replies room none = omega arith
total_of_lem replies room (some []) = omega arith
total_of_lem replies room (some (server ∷ servers)) =
    sum_reply_lem (replies.m_get (map (key_room_server_online room) (server ∷ servers)))

-- The online total of a room is the sum, modulo 2^64, of the counters of its registered servers, in
-- which an expired counter and one that is no uint64 in decimal count for nothing; it is 0 if Redis
-- does not give the servers or the counters.
pub get_total_online_sum :
    (replies : Replies) (room : Text)
    → get_total_online replies room ≡ online_sum (counters replies room) % u64
unfolding get_total_online counters
get_total_online_sum replies room =
    total_of_lem replies room (replies.s_members (key_server_of_room room))

-- Different rooms have different counters of likes.
pub key_room_likes-inj : (r s : Text) → key_room_likes r ≡ key_room_likes s → r ≡ s
unfolding key_room_likes
key_room_likes-inj r s e =
    append_cancel_right r s (codes ":likes")
      (append_cancel_left (codes "room:") (r ++ codes ":likes") (s ++ codes ":likes") e)
