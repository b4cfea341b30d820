-- ===== src/Text.antt =====
-- Go strings, as `for range` reads them: a list of code points, in which a byte that is not valid
-- UTF-8 stands as 0x110000 plus the byte. So equal lists are equal strings.
pub mod Decimal
use live_stream_danmaku.Base.{
  ℕ, Bool, List, [], ◌∷◌, ◌++◌, map, leb, ltb, if◌then◌else◌, ◌<◌, All, ◌≡◌, refl, arith, ap,
}
use Prim.Native.String.{String}
use Prim.Native.Char.{code}

abbrev pub Text : Type 0
Text = List ℕ

-- A literal of the source.
abbrev pub codes : String → Text
codes String.[] = []
codes (String.◌∷◌ letter rest) = code letter ∷ codes rest

-- What encoding/json does to a string when it writes it: an invalid byte becomes U+FFFD.
unfoldable pub to_valid_utf8 : Text → Text
to_valid_utf8 = map (λ c. if leb 0x110000 c then 0xfffd else c)

abbrev pub IsValidUtf8 : Text → Type 0
IsValidUtf8 = All (λ c. c < 0x110000)

pub to_valid_utf8_id : (s : Text) → IsValidUtf8 s → to_valid_utf8 s ≡ s
unfolding to_valid_utf8
to_valid_utf8_id [] h = refl
to_valid_utf8_id (c ∷ s) h = ground (arith, to_valid_utf8_id s h.1)

pub to_valid_utf8-IsValidUtf8 : (s : Text) → IsValidUtf8 (to_valid_utf8 s)
unfolding to_valid_utf8
to_valid_utf8-IsValidUtf8 [] = tt
to_valid_utf8-IsValidUtf8 (c ∷ s) = (ground arith, to_valid_utf8-IsValidUtf8 s)

pub to_valid_utf8_idem : (s : Text) → to_valid_utf8 (to_valid_utf8 s) ≡ to_valid_utf8 s
to_valid_utf8_idem s = to_valid_utf8_id (to_valid_utf8 s) (to_valid_utf8-IsValidUtf8 s)
