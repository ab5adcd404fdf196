-- ===== src/Base/Int.antt =====
-- Signed integers over the native numbers, with a Boolean order, and Go's strconv on them.
use Prim.Native.Nat.{ℕ, zero, suc, ◌+◌, ◌-◌, ◌*◌, ◌/◌, ◌%◌}
use mathlib.Core.Bool.{Bool, true, false, ◌&&◌}
use mathlib.Core.Option.{Option, none, some}
use mathlib.Core.List.{[], ◌∷◌}
use golang_collector.Base.Tests.{◌==◌, leb, ltb, if◌then◌else◌}
use golang_collector.Base.Text.{Text}

-- `negsuc n` is -(n + 1).
pub data ℤ : Type 0 where
  pos : ℕ → ℤ
  negsuc : ℕ → ℤ

abbrev pub ltb_int : ℤ → ℤ → Bool
ltb_int (pos a) (pos b) = ltb a b
ltb_int (pos a) (negsuc b) = false
ltb_int (negsuc a) (pos b) = true
ltb_int (negsuc a) (negsuc b) = ltb b a

abbrev pub eq_int : ℤ → ℤ → Bool
eq_int (pos a) (pos b) = a == b
eq_int (negsuc a) (negsuc b) = a == b
eq_int _ _ = false

-- a - b for naturals.
abbrev pub sub_nat : ℕ → ℕ → ℤ
sub_nat a b = if leb b a then pos (a - b) else negsuc (b - a - 1)

abbrev pub neg_part : ℤ → ℕ
neg_part (pos n) = 0
neg_part (negsuc n) = suc n

abbrev pub pos_part : ℤ → ℕ
pos_part (pos n) = n
pos_part (negsuc n) = 0

infixl 65 ◌-ℤ◌
unfoldable pub ◌-ℤ◌ : ℤ → ℤ → ℤ
a -ℤ b = sub_nat (pos_part a + neg_part b) (neg_part a + pos_part b)

-- The integer of a 64-bit pattern in two's complement.
abbrev signed64 : ℕ → ℤ
signed64 r = if ltb r 9223372036854775808 then pos r else negsuc (18446744073709551615 - r)

-- Wrap-around to int64.
unfoldable pub wrap64 : ℤ → ℤ
wrap64 (pos n) = signed64 (n % 18446744073709551616)
wrap64 (negsuc n) = signed64 (18446744073709551615 - n % 18446744073709551616)

-- strconv.ParseInt(s, 10, 64); `none` is an error.
digits_value : ℕ → Text → Option ℕ
digits_value acc [] = some acc
digits_value acc (c ∷ s) =
    let rest = digits_value (acc * 10 + (c - b'0')) s in
    if leb b'0' c && leb c b'9' then rest else none

abbrev pub int_max : ℕ
int_max = 9223372036854775807

unfoldable pub parse_magnitude : Text → Option ℕ
unfolding digits_value
parse_magnitude [] = none
parse_magnitude (c ∷ s) = digits_value 0 (c ∷ s)

abbrev in_range : Bool → ℕ → Option ℤ
in_range false n = if leb n int_max then some (pos n) else none
in_range true zero = some (pos 0)
in_range true (suc n) = if leb n int_max then some (negsuc n) else none

unfoldable pub parse_int : Text → Option ℤ
unfolding parse_magnitude
parse_int [] = none
parse_int (c ∷ s) =
    if c == b'-'
    then elim (parse_magnitude s) [ none ↦ none | some n ↦ in_range true n ]
    else if c == b'+'
    then elim (parse_magnitude s) [ none ↦ none | some n ↦ in_range false n ]
    else elim (parse_magnitude (c ∷ s)) [ none ↦ none | some n ↦ in_range false n ]

-- strconv.FormatInt(v, 10): the digits of `n` in front of `rest`, with fuel above their number.
format_digits : ℕ → ℕ → Text → Text
format_digits zero n rest = rest
format_digits (suc fuel) n rest =
    let digit = b'0' + n % 10 in
    let more = format_digits fuel (n / 10) (digit ∷ rest) in if ltb n 10 then digit ∷ rest else more

unfoldable pub format_int : ℤ → Text
unfolding format_digits
format_int (pos n) = format_digits (suc n) n []
format_int (negsuc n) = b'-' ∷ format_digits (suc (suc n)) (suc n) []
