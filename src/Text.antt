-- ===== src/Text.antt =====
-- JavaScript text as the list of its UTF-16 code units, with the operations of the language that
-- server/src uses on amounts, hashes and references: trim, startsWith, the digit classes of its
-- regular expressions, BigInt(text) and the printing of a non-negative integer.
pub mod Laws
pub mod Decimal
pub mod Cut
use Prim.Native.Char.{code}
use Prim.Native.String.{String}
use crypto_gateway_rp.Common.{
  ℕ, zero, suc, ◌+◌, ◌-◌, ◌*◌, ◌/◌, ◌%◌, Bool, true, false, not, ◌&&◌, ◌||◌, Option, none, some,
  List, [], ◌∷◌, ◌++◌, ◌≡◌, refl, ℤ, pos, negsuc, ltb, leb, ◌==◌, if◌then◌else◌, length, all,
  is_empty, replicate,
}

abbrev pub Text : Type 0
Text = List ℕ

-- A literal of the source as a text.
abbrev pub codes : String → Text
codes String.[] = []
codes (String.◌∷◌ c s) = code c ∷ codes s

-- `a === b` on texts.
abbrev pub eq_text : Text → Text → Bool
eq_text [] [] = true
eq_text [] (y ∷ ys) = false
eq_text (x ∷ xs) [] = false
eq_text (x ∷ xs) (y ∷ ys) = x == y && eq_text xs ys

-- `s.startsWith(p)`, the prefix first.
abbrev pub starts_with : Text → Text → Bool
starts_with [] s = true
starts_with (x ∷ xs) [] = false
starts_with (x ∷ xs) (y ∷ ys) = x == y && starts_with xs ys

-- White space and line ends, as `trim` sees them.
abbrev pub is_space : ℕ → Bool
is_space c =
    leb 9 c && leb c 13
    || c == 32
    || c == 0xa0
    || c == 0x1680
    || leb 0x2000 c && leb c 0x200a
    || c == 0x2028
    || c == 0x2029
    || c == 0x202f
    || c == 0x205f
    || c == 0x3000
    || c == 0xfeff

unfoldable pub drop_leading : (ℕ → Bool) → Text → Text
drop_leading p [] = []
drop_leading p (c ∷ cs) = let rest = drop_leading p cs in if p c then rest else c ∷ cs

-- `toUpperCase` and `toLowerCase` on ASCII letters.
abbrev pub upper_case : ℕ → ℕ
upper_case c = if leb b'a' c && leb c b'z' then c - 32 else c

abbrev pub lower_case : ℕ → ℕ
lower_case c = if leb b'A' c && leb c b'Z' then c + 32 else c

-- The same on texts, with the letters outside ASCII whose other case has ASCII letters only. A letter
-- outside both keeps a code unit outside ASCII in the source, so it equals no literal there.
upper_units : ℕ → Text
upper_units c =
    if c == 0xdf
    then codes "SS"
    else if c == 0x131
    then codes "I"
    else if c == 0x17f
    then codes "S"
    else if c == 0xfb00
    then codes "FF"
    else if c == 0xfb01
    then codes "FI"
    else if c == 0xfb02
    then codes "FL"
    else if c == 0xfb03
    then codes "FFI"
    else if c == 0xfb04
    then codes "FFL"
    else if c == 0xfb05 || c == 0xfb06
    then codes "ST"
    else upper_case c ∷ []

unfoldable pub to_upper_case : Text → Text
unfolding upper_units
to_upper_case [] = []
to_upper_case (c ∷ cs) = upper_units c ++ to_upper_case cs

unfoldable pub to_lower_case : Text → Text
to_lower_case [] = []
to_lower_case (c ∷ cs) = (if c == 0x212a then b'k' else lower_case c) ∷ to_lower_case cs

-- A tail of characters that satisfy `p` is removed.
unfoldable pub drop_trailing : (ℕ → Bool) → Text → Text
drop_trailing p [] = []
drop_trailing p (c ∷ cs) = elim (drop_trailing p cs) [
  | [] ↦ if p c then [] else c ∷ []
  | d ∷ ds ↦ c ∷ d ∷ ds
]

-- `TRIM(s)` of the database, which takes off spaces only.
unfoldable pub sql_trim : Text → Text
sql_trim s = drop_trailing (λ c. c == 32) (drop_leading (λ c. c == 32) s)

unfoldable pub trim : Text → Text
unfolding drop_leading drop_trailing
trim s = drop_trailing is_space (drop_leading is_space s)

abbrev pub is_digit : ℕ → Bool
is_digit c = leb b'0' c && leb c b'9'

abbrev pub is_zero : ℕ → Bool
is_zero c = c == b'0'

-- `/^\d*$/` and `/^\d+$/`.
abbrev pub are_digits : Text → Bool
are_digits = all is_digit

abbrev pub is_number : Text → Bool
is_number s = not (is_empty s) && are_digits s

-- The text before the first dot and, where there is one, the text behind it.
unfoldable pub before_dot : Text → Text
before_dot [] = []
before_dot (c ∷ cs) = let rest = before_dot cs in if c == b'.' then [] else c ∷ rest

unfoldable pub after_dot : Text → Option Text
after_dot [] = none
after_dot (c ∷ cs) = let rest = after_dot cs in if c == b'.' then some cs else rest

-- The number that a text of digits denotes, read from the left onto `acc`.
unfoldable pub decimal_from : ℕ → Text → ℕ
decimal_from acc [] = acc
decimal_from acc (c ∷ cs) = decimal_from (acc * 10 + (c - b'0')) cs

unfoldable pub decimal : Text → ℕ
unfolding decimal_from
decimal s = decimal_from 0 s

abbrev digit_value : ℕ → Option ℕ
digit_value c =
    if is_digit c
    then some (c - b'0')
    else if leb b'a' c && leb c b'f'
    then some (c - b'a' + 10)
    else if leb b'A' c && leb c b'F'
    then some (c - b'A' + 10)
    else none

radix_from : ℕ → ℕ → Text → Option ℤ
radix_from base acc [] = some (pos acc)
radix_from base acc (c ∷ cs) = elim (digit_value c) [
  | none ↦ none
  | some d ↦ if ltb d base then radix_from base (acc * base + d) cs else none
]

-- The digits behind the two characters of a prefix such as `0x`.
radix_text : ℕ → Text → Option ℤ
unfolding radix_from
radix_text base (a ∷ b ∷ c ∷ cs) = radix_from base 0 (c ∷ cs)
radix_text base _ = none

negate : ℕ → ℤ
negate zero = pos zero
negate (suc n) = negsuc n

signed_text : Text → Option ℤ
unfolding decimal negate
signed_text [] = none
signed_text (c ∷ cs) =
    if c == b'-'
    then (if is_number cs then some (negate (decimal cs)) else none)
    else if c == b'+'
    then (if is_number cs then some (pos (decimal cs)) else none)
    else if are_digits (c ∷ cs)
    then some (pos (decimal (c ∷ cs)))
    else none

big_int_trimmed : Text → Option ℤ
unfolding radix_text signed_text
big_int_trimmed s =
    if is_empty s
    then some (pos 0)
    else if starts_with (codes "0x") s || starts_with (codes "0X") s
    then radix_text 16 s
    else if starts_with (codes "0o") s || starts_with (codes "0O") s
    then radix_text 8 s
    else if starts_with (codes "0b") s || starts_with (codes "0B") s
    then radix_text 2 s
    else signed_text s

-- `BigInt(text)`: `none` is the SyntaxError.
unfoldable pub big_int : Text → Option ℤ
unfolding big_int_trimmed trim
big_int s = big_int_trimmed (trim s)

-- `n.toString()` of a non-negative integer: the digits in front of `rest`.
print_from : ℕ → ℕ → Text → Text
print_from zero n rest = rest
print_from (suc fuel) n rest = elim (ltb n 10) [
  | true ↦ (n + b'0') ∷ rest
  | false ↦ print_from fuel (n / 10) ((n % 10 + b'0') ∷ rest)
]

-- `n + 1` rounds are enough, since each divides by ten.
unfoldable pub print_number : ℕ → Text
unfolding print_from
print_number n = print_from (suc n) n []

-- `s.padStart(w, "0")` and `s.padEnd(w, "0")`.
unfoldable pub pad_start : ℕ → Text → Text
pad_start w s = replicate (w - length s) b'0' ++ s

unfoldable pub pad_end : ℕ → Text → Text
pad_end w s = s ++ replicate (w - length s) b'0'

print_runs : print_number 1_050_000 ≡ codes "1050000"
unfolding print_number
print_runs = refl
