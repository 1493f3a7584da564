-- ===== src/Amount.antt =====
-- Amounts as people write them and as the ledger stores them (atomic units):
-- server/src/lib/merchant-fee-math.js, gateway-expected-amount.js, format-atomic-amount.js.
pub mod Parse
pub mod Fraction
pub mod RoundTrip
pub mod Minimum
use crypto_gateway_rp.Common.{
  ℕ, zero, suc, ◌+◌, ◌-◌, ◌*◌, ◌/◌, ◌%◌, ◌^◌, Bool, true, false, not, ◌&&◌, ◌||◌, Option, none,
  some, List, [], ◌∷◌, ◌++◌, ℤ, pos, negsuc, ltb, leb, ◌==◌, if◌then◌else◌, length, all, take,
  is_empty, is_some, get_or, filter, map, replicate, ◌≡◌, refl,
}
use Prim.Native.Nat.{min}
use crypto_gateway_rp.Text.{
  Text, codes, eq_text, trim, is_zero, are_digits, is_number, before_dot, after_dot, decimal,
  drop_leading, drop_trailing, is_digit, to_upper_case, big_int, print_number, pad_start, pad_end,
}

-- `wPart === "" ? "0" : wPart`.
abbrev whole_or_zero : Text → Text
whole_or_zero [] = codes "0"
whole_or_zero (c ∷ cs) = c ∷ cs

-- `/^0\.0*$/`.
abbrev pub is_zero_fraction : Text → Bool
is_zero_fraction [] = false
is_zero_fraction (a ∷ []) = false
is_zero_fraction (a ∷ b ∷ rest) = a == b'0' && b == b'.' && all is_zero rest

-- `/^(?:\d+\.?\d*|\.\d+)$/`.
unfoldable pub is_human_amount : Text → Bool
is_human_amount s = elim (after_dot s) [
  | none ↦ is_number s
  | some f ↦ is_number (before_dot s) && are_digits f || is_empty (before_dot s) && is_number f
]

pub data AmountError : Type 0 where
  invalid_human_amount invalid_whole_part invalid_fraction token_has_0_decimals : AmountError
  not_a_token_amount too_many_decimal_places value_too_long : AmountError
  amount_too_long amount_invalid amount_must_be_positive amount_too_large : AmountError

pub data Result {ℓ} (A : Type ℓ) : Type ℓ where
  ok : A → Result A
  err : AmountError → Result A

-- `w.replace(/^0+(?=\d)/, "")` of a text of digits.
pub strip_zeros : Text → Text
strip_zeros [] = []
strip_zeros (c ∷ cs) =
    let rest = strip_zeros cs in if is_zero c && not (is_empty cs) then rest else c ∷ cs

-- `wStr === "" ? "0" : stripped || "0"`.
pub whole_text : Text → Text
whole_text w = if is_empty (strip_zeros w) then codes "0" else strip_zeros w

-- The number read from the whole part and the fraction, by the token's decimals.
unfoldable pub human_parts : Text → Text → ℕ → Result ℕ
human_parts w f dec =
    if not (is_empty w) && not (are_digits w)
    then err invalid_whole_part
    else if not (are_digits f)
    then err invalid_fraction
    else if dec == 0
    then (if not (is_empty f) && not (all is_zero f)
        then err token_has_0_decimals
        else ok (decimal (whole_text w)))
    else ok (decimal (whole_text w) * 10 ^ dec + decimal (pad_end dec (take dec f)))

abbrev pub is_blank_human : Text → Bool
is_blank_human s = is_empty s || eq_text s (codes ".") || is_zero_fraction s

unfoldable pub parse_human_min_settlement_to_atomic : Text → ℕ → Result ℕ
parse_human_min_settlement_to_atomic human token_decimals =
    let s = trim human in
    if is_blank_human s
    then ok 0
    else if not (is_human_amount s)
    then err invalid_human_amount
    else human_parts (before_dot s) (get_or (after_dot s) []) (min 36 token_decimals)

abbrev pub is_zero_setting : Text → Bool
is_zero_setting s = is_empty s || eq_text s (codes "0") || is_zero_fraction s

pub validate_and_normalize_human_min_settlement : Text → Result Text
unfolding trim is_human_amount after_dot
validate_and_normalize_human_min_settlement input =
    let s = trim input in
    if is_zero_setting s
    then ok (codes "0")
    else if not (is_human_amount s)
    then err not_a_token_amount
    else if ltb 36 (length (get_or (after_dot s) []))
    then err too_many_decimal_places
    else if ltb 80 (length s)
    then err value_too_long
    else ok s

abbrev above_parsed : ℕ → Result ℕ → Bool
above_parsed net (err e) = ltb 0 net
above_parsed net (ok value) = if value == 0 then ltb 0 net else ltb value net

unfoldable pub net_strictly_above_min_settlement_human : ℕ → Text → ℕ → Bool
unfolding trim
net_strictly_above_min_settlement_human net min_settlement token_decimals =
    let t = trim min_settlement in
    if is_zero_setting t
    then ltb 0 net
    else above_parsed net (parse_human_min_settlement_to_atomic t token_decimals)

-- Division and remainder of a bigint go towards zero, so each part prints with the sign, except 0.
signed_number : Bool → ℕ → Text
signed_number negative n =
    if negative && not (n == 0) then b'-' ∷ print_number n else print_number n

abbrev is_negative : ℤ → Bool
is_negative (pos n) = false
is_negative (negsuc n) = true

magnitude : ℤ → ℕ
magnitude (pos n) = n
magnitude (negsuc n) = suc n

fraction_text : Bool → ℕ → ℕ → Text
unfolding signed_number pad_start drop_trailing
fraction_text negative dec r = drop_trailing is_zero (pad_start dec (signed_number negative r))

format_integer : ℤ → ℕ → Text
unfolding fraction_text signed_number magnitude
format_integer n dec =
    let whole = signed_number (is_negative n) (magnitude n / 10 ^ dec) in
    let fs = fraction_text (is_negative n) dec (magnitude n % 10 ^ dec) in
    if dec == 0
    then signed_number (is_negative n) (magnitude n)
    else if is_empty fs
    then whole
    else whole ++ (b'.' ∷ fs)

-- The `catch` returns the raw text.
unfoldable pub format_atomic_amount_string : Text → ℕ → Text
unfolding format_integer
format_atomic_amount_string raw decimals = elim (big_int raw) [
  | none ↦ raw
  | some n ↦ format_integer n (min decimals 36)
]

unfoldable pub token_decimals_for_gateway_rail : Text → Text → Option ℕ
unfolding trim
token_decimals_for_gateway_rail currency network =
    let c = to_upper_case (trim currency) in
    let n = to_upper_case (trim network) in
    if eq_text c (codes "USDT")
      && (eq_text n (codes "TRC20") || eq_text n (codes "ERC20") || eq_text n (codes "BEP20"))
    then some 6
    else none

-- `/\D/g` removed, cut and filled to `dec` digits.
decimal_parts_to_atomic : Text → Text → ℕ → ℕ
unfolding decimal
decimal_parts_to_atomic whole frac dec =
    decimal whole * 10 ^ dec + decimal (take dec (filter is_digit frac ++ replicate dec b'0'))

abbrev pub max_reasonable : ℕ
max_reasonable = 10 ^ 24

bounded : ℕ → Result (Option Text)
bounded n =
    if n == 0
    then err amount_must_be_positive
    else if ltb max_reasonable n
    then err amount_too_large
    else ok (some (print_number n))

whole_units : Text → ℕ → Result (Option Text)
unfolding drop_leading decimal bounded
whole_units s dec =
    if not (is_number s)
    then err amount_invalid
    else if is_empty (drop_leading is_zero s)
    then err amount_must_be_positive
    else bounded (decimal (drop_leading is_zero s) * 10 ^ dec)

has_dot : Text → Bool
unfolding after_dot
has_dot s = is_some (after_dot s)

decimal_units : Text → Text → ℕ → Result (Option Text)
unfolding decimal_parts_to_atomic bounded has_dot
decimal_units w f dec =
    if has_dot f || not (are_digits w) || not (are_digits f)
    then err amount_invalid
    else if eq_text (whole_or_zero w) (codes "0") && all is_zero f
    then err amount_must_be_positive
    else bounded (decimal_parts_to_atomic (whole_or_zero w) f dec)

gateway_amount : Text → ℕ → Result (Option Text)
unfolding whole_units decimal_units before_dot after_dot
gateway_amount s dec =
    if is_empty s
    then ok none
    else if ltb 80 (length s)
    then err amount_too_long
    else elim (after_dot s) [
      | none ↦ whole_units s dec
      | some f ↦ decimal_units (before_dot s) f dec
    ]

unfoldable pub parse_optional_gateway_deposit_amount : Option Text → ℕ → Result (Option Text)
unfolding gateway_amount trim
parse_optional_gateway_deposit_amount none token_decimals = ok none
parse_optional_gateway_deposit_amount (some raw) token_decimals =
    gateway_amount (trim raw) (min token_decimals 36)

-- One smallest unit of slack when received and expected amounts are compared.
abbrev pub underpay_tolerance_atomic : ℕ
underpay_tolerance_atomic = 1

round_trip_runs :
    parse_human_min_settlement_to_atomic (format_atomic_amount_string (codes "1050000") 6) 6
    ≡ ok 1050000
unfolding format_atomic_amount_string parse_human_min_settlement_to_atomic big_int print_number trim
    before_dot after_dot is_human_amount human_parts whole_text strip_zeros pad_end decimal
round_trip_runs = refl

gateway_runs :
    parse_optional_gateway_deposit_amount (some (codes " 10.50")) 6 ≡ ok (some (codes "10500000"))
unfolding parse_optional_gateway_deposit_amount print_number
gateway_runs = refl
