-- ===== src/Json/Laws.antt =====
-- What is put in a field is got back.
use live_stream_danmaku.Base.{ℕ, ◌≡◌, refl, some, ◌<◌}
use live_stream_danmaku.Text.{Text, to_valid_utf8}
use live_stream_danmaku.Text.Decimal.{u64, ℤ, IsInt64}
use live_stream_danmaku.Text.Decimal.Laws.{parse_uint-format_uint, parse_int-format_int}
use live_stream_danmaku.Json.{get_uint, get_int, get_text, put_uint, put_int, put_text}

pub get_uint-put_uint : (old n : ℕ) → n < u64 → get_uint old (put_uint n) ≡ some n
unfolding get_uint put_uint
get_uint-put_uint old n h = rw (parse_uint-format_uint n h, get_uint)

pub get_int-put_int : (old z : ℤ) → IsInt64 z → get_int old (put_int z) ≡ some z
unfolding get_int put_int
get_int-put_int old z h = parse_int-format_int z h

pub get_text-put_text : (old s : Text) → get_text old (put_text s) ≡ some (to_valid_utf8 s)
unfolding get_text put_text
get_text-put_text old s = refl
