-- ===== src/Text/Decimal.antt =====
-- strconv, as far as the program calls it: `ParseUint(s, 10, 64)`, `ParseInt(s, 10, 64)` and the
-- decimal output of `%d` and of encoding/json.
pub mod Laws
use mathlib.Core.Logic.{dite}
use mathlib.Core.WellFounded.{Acc, WellFounded}
use live_stream_danmaku.Base.{
  ℕ, zero, suc, ◌+◌, ◌-◌, ◌*◌, ◌/◌, ◌%◌, ◌^◌, ◌<◌, ◌≡◌, refl, Bool, true, false, ◌&&◌, Option, none,
  some, ◌↔◌, List, [], ◌∷◌, ◌++◌, arith, ltb, leb, if◌then◌else◌, dec_lt, lt_wf, Eq, ◌==◌, nat_eq,
  nat_eq,
}

abbrev pub u64 : ℕ
u64 = 2 ^ 64

-- `range` and `syntax` are the two errors of strconv.
pub data NumResult : Type 0 where
  parsed : ℕ → NumResult
  syntax range : NumResult

unfoldable pub is_digit : ℕ → Bool
is_digit c = leb b'0' c && leb c b'9'

abbrev cutoff : ℕ
cutoff = (u64 - 1) / 10 + 1

-- The loop of ParseUint: `n` and `n1` are uint64, and a sum that wraps is a range error.
unfoldable pub scan : ℕ → List ℕ → NumResult
unfolding is_digit
scan n [] = parsed n
scan n (c ∷ s) =
    let ten = n * 10 % u64 in
    let n1 = (ten + (c - b'0')) % u64 in
    let rest = scan n1 s in
    if is_digit c
    then (if leb cutoff n then range else if ltb n1 ten then range else rest)
    else syntax

unfoldable pub parse_uint : List ℕ → NumResult
unfolding scan
parse_uint [] = syntax
parse_uint (c ∷ s) = scan 0 (c ∷ s)

-- ParseUint's first result, which it returns beside the error too.
unfoldable pub result_value : NumResult → ℕ
result_value (parsed n) = n
result_value syntax = 0
result_value range = u64 - 1

pub tenth-lt : {n : ℕ} → ¬ (n < 10) → n / 10 < n
tenth-lt h = omega arith

digits : (n : ℕ) → Acc ◌<◌ n → List ℕ
digits n (Acc.intro _ smaller) =
    dite (dec_lt n 10) (λ _. (b'0' + n) ∷ [])
      (λ h. digits (n / 10) (smaller (n / 10) (tenth-lt h)) ++ (b'0' + n % 10) ∷ [])

unfoldable pub format_uint : ℕ → List ℕ
unfolding digits lt_wf dec_lt
format_uint n = digits n (lt_wf.apply n)

-- `int` of the source, 64 bits; `negsuc n` is -(n + 1).
pub data ℤ : Type 0 where
  pos : ℕ → ℤ
  negsuc : ℕ → ℤ

abbrev pub int_beq : ℤ → ℤ → Bool
int_beq (pos a) (pos b) = a == b
int_beq (pos a) (negsuc b) = false
int_beq (negsuc a) (pos b) = false
int_beq (negsuc a) (negsuc b) = a == b

pub int_beq_iff : (a b : ℤ) → (int_beq a b ≡ true) ↔ (a ≡ b)
int_beq_iff (pos a) (pos b) = ground arith
int_beq_iff (pos a) (negsuc b) = ground arith
int_beq_iff (negsuc a) (pos b) = ground arith
int_beq_iff (negsuc a) (negsuc b) = ground arith

instance abbrev pub int_eq : Eq ℤ
int_eq = record { test = int_beq; test_iff = int_beq_iff }

abbrev pub IsInt64 : ℤ → Type 0
IsInt64 (pos n) = n < 2 ^ 63
IsInt64 (negsuc n) = n < 2 ^ 63

-- A negative number whose magnitude is 0 is 0.
unfoldable pub negate : ℕ → ℤ
negate zero = pos 0
negate (suc n) = negsuc n

unfoldable pub signed : Bool → NumResult → Option ℤ
unfolding negate
signed neg syntax = none
signed neg range = none
signed false (parsed n) = if leb (2 ^ 63) n then none else some (pos n)
signed true (parsed n) = if ltb (2 ^ 63) n then none else some (negate n)

unfoldable pub parse_int : List ℕ → Option ℤ
unfolding signed parse_uint
parse_int [] = none
parse_int (c ∷ s) =
    if c == b'-'
    then signed true (parse_uint s)
    else if c == b'+'
    then signed false (parse_uint s)
    else signed false (parse_uint (c ∷ s))

unfoldable pub format_int : ℤ → List ℕ
unfolding format_uint
format_int (pos n) = format_uint n
format_int (negsuc n) = b'-' ∷ format_uint (suc n)
