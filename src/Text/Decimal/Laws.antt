-- ===== src/Text/Decimal/Laws.antt =====
-- The decimal parser against the value of a digit string, and the round trip with the printer.
use mathlib.Core.Logic.{dif_pos, dif_neg}
use mathlib.Core.WellFounded.{Acc}
use native.Mathlib.Bridge.{le_prop}
use live_stream_danmaku.Base.{
  ℕ, suc, ◌+◌, ◌-◌, ◌*◌, ◌/◌, ◌%◌, ◌<◌, ◌≡◌, refl, true, false, List, [], ◌∷◌, ◌++◌, arith, ltb,
  if◌then◌else◌, dec_lt, lt_wf, ◌↔◌, All, All-append, ◌≢◌, some,
}
use live_stream_danmaku.Text.Decimal.{
  u64, parsed, range, is_digit, scan, parse_uint, digits, tenth-lt, format_uint, ℤ, pos, negsuc,
  parse_int, format_int, signed, IsInt64,
}

-- The value of a digit string on top of the value `n` of what stands before it.
abbrev pub value_from : ℕ → List ℕ → ℕ
value_from n [] = n
value_from n (c ∷ s) = value_from (n * 10 + (c - b'0')) s

abbrev pub AllDigits : List ℕ → Type 0
AllDigits = All (λ c. is_digit c ≡ true)

append-ne-nil : (s : List ℕ) (c : ℕ) → s ++ c ∷ [] ≢ []
append-ne-nil [] c e = cc
append-ne-nil (d ∷ s) c e = cc

le-value_from : (n : ℕ) (s : List ℕ) → n < suc (value_from n s)
le-value_from n [] = omega arith
le-value_from n (c ∷ s) = omega (arith, le-value_from (n * 10 + (c - b'0')) s)

-- On digits the loop returns the value if it fits 64 bits, and `range` if not.
scan-value :
    (n : ℕ) (s : List ℕ)
    → n < u64
    → AllDigits s
    → scan n s ≡ (if ltb (value_from n s) u64 then parsed (value_from n s) else range)
unfolding scan
scan-value n [] h d = ground arith
scan-value n (c ∷ s) h d =
    ground (arith, d.0, scan-value (n * 10 + (c - b'0')) s, le-value_from (n * 10 + (c - b'0')) s)

scan-parsed : (n : ℕ) (s : List ℕ) (v : ℕ) → scan n s ≡ parsed v → AllDigits s
unfolding scan
scan-parsed n [] v h = tt
scan-parsed n (c ∷ s) v h =
    let n1 : ℕ = (n * 10 % u64 + (c - b'0')) % u64 in
    (ground arith, scan-parsed n1 s v (ground arith))

digit-is_digit : (n : ℕ) → n < 10 → is_digit (b'0' + n) ≡ true
unfolding is_digit
digit-is_digit n h = ground arith

digits-AllDigits : (n : ℕ) (w : Acc ◌<◌ n) → AllDigits (digits n w)
unfolding digits
digits-AllDigits n (Acc.intro _ smaller) = elim (dec_lt n 10) [
  | yes p ↦ rw (dif_pos _ le_prop p) (digit-is_digit n p, tt)
  | no p ↦
      let w = smaller (n / 10) (tenth-lt p) in
      rw (dif_neg _ p) (
        All-append (λ c. is_digit c ≡ true) (digits (n / 10) w) ((b'0' + n % 10) ∷ [])
          (digits-AllDigits (n / 10) (smaller (n / 10) (tenth-lt p)))
          (digit-is_digit (n % 10) (omega arith), tt))
]

value_from-append : (n : ℕ) (s t : List ℕ) → value_from n (s ++ t) ≡ value_from (value_from n s) t
value_from-append n [] t = refl
value_from-append n (c ∷ s) t = value_from-append (n * 10 + (c - b'0')) s t

value_from-digits : (n : ℕ) (w : Acc ◌<◌ n) → value_from 0 (digits n w) ≡ n
unfolding digits
value_from-digits n (Acc.intro _ smaller) = elim (dec_lt n 10) [
  | yes p ↦ rw (dif_pos _ le_prop p) (omega arith)
  | no p ↦ rw (dif_neg _ p) (
      rw (value_from-append 0 (digits (n / 10) (smaller (n / 10) (tenth-lt p))) _)
        (omega (arith, value_from-digits (n / 10) (smaller (n / 10) (tenth-lt p)))))
]

digits-ne-nil : (n : ℕ) (w : Acc ◌<◌ n) → digits n w ≢ []
unfolding digits
digits-ne-nil n (Acc.intro _ smaller) = elim (dec_lt n 10) [
  | yes p ↦ rw (dif_pos _ le_prop p) (λ e. cc)
  | no p ↦ rw (dif_neg _ p) (append-ne-nil _ _)
]

pub format_uint-AllDigits : (n : ℕ) → AllDigits (format_uint n)
unfolding format_uint
format_uint-AllDigits n = digits-AllDigits n (lt_wf.apply n)

-- ParseUint succeeds with `v` exactly on the non-empty digit strings whose value `v` fits 64 bits.
pub parse_uint_iff :
    (s : List ℕ) (v : ℕ)
    → (parse_uint s ≡ parsed v) ↔ ((s ≢ []) × AllDigits s × (value_from 0 s ≡ v) × (v < u64))
unfolding parse_uint
parse_uint_iff [] v = ((λ e. cc), (λ h. absurd (h.0 refl)))
parse_uint_iff (c ∷ s) v = (
  (λ e.
      let ds = scan-parsed 0 (c ∷ s) v e in
      ((λ q. cc), ds, ground (arith, scan-value 0 (c ∷ s)), ground (arith, scan-value 0 (c ∷ s)))),
  λ h. ground (arith, scan-value 0 (c ∷ s)),
)

-- Printing a uint64 in decimal and parsing it again gives the number back.
pub parse_uint-format_uint : (n : ℕ) → n < u64 → parse_uint (format_uint n) ≡ parsed n
unfolding format_uint
parse_uint-format_uint n h =
    let w = lt_wf.apply n in
    (parse_uint_iff (format_uint n) n).1
      (digits-ne-nil n w, digits-AllDigits n w, value_from-digits n w, h)

-- A digit string has no sign.
parse_int_unsigned : (s : List ℕ) → s ≢ [] → AllDigits s → parse_int s ≡ signed false (parse_uint s)
unfolding parse_int is_digit
parse_int_unsigned [] h d = absurd (h refl)
parse_int_unsigned (c ∷ s) h d = ground (arith, d.0)

format_uint-ne-nil : (n : ℕ) → format_uint n ≢ []
unfolding format_uint
format_uint-ne-nil n = digits-ne-nil n (lt_wf.apply n)

-- Printing a signed 64-bit number in decimal and parsing it again gives the number back, minus
-- signs included.
pub parse_int-format_int : (z : ℤ) → IsInt64 z → parse_int (format_int z) ≡ some z
parse_int-format_int (pos n) h =
    unfold format_int in
    rw (parse_int_unsigned (format_uint n) (format_uint-ne-nil n) (format_uint-AllDigits n))
      (rw (parse_uint-format_uint n (omega arith)) (unfold signed in ground arith))
parse_int-format_int (negsuc n) h =
    unfold format_int parse_int in
    rw (parse_uint-format_uint (suc n) (omega arith)) (unfold signed in ground arith)
