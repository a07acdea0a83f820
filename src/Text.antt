-- ===== src/Text.antt =====
-- Byte strings, and what the program uses of the C library on them: `strtoul`, `atoi`, the decimal
-- and padded conversions of `snprintf`, `strncpy`, and `find_first_of` and `substr` of std::string.
-- A string is the list of its bytes.
pub mod Decimal
pub mod Array
use Prim.Native.Char.{code}
use Prim.Native.String.{String}
use iotop_cpp.Base.{
  ℕ, zero, suc, ◌+◌, ◌-◌, ◌*◌, ◌/◌, ◌%◌, ◌^◌, Bool, ◌&&◌, List, [], ◌∷◌, ◌++◌, Option, none, some,
  ltb, leb, ◌==◌, if◌then◌else◌, length, take, drop, replicate, ℤ, pos, negsuc, neg, ◌||◌,
}

abbrev pub Text : Type 0
Text = List ℕ

-- The bytes of an ASCII literal.
abbrev pub text : String → Text
text String.[] = []
text (String.◌∷◌ c s) = code c ∷ text s

-- The pieces of a format, one behind the other.
abbrev pub concat : List Text → Text
concat [] = []
concat (s ∷ rest) = s ++ concat rest

abbrev pub is_digit : ℕ → Bool
is_digit c = leb b'0' c && leb c b'9'

-- The digits of n, by fuel: one digit for each round.
unfoldable pub decimal_fuel : ℕ → ℕ → Text
decimal_fuel zero n = []
decimal_fuel (suc f) n =
    let front = decimal_fuel f (n / 10) in
    if ltb n 10 then (b'0' + n) ∷ [] else front ++ ((b'0' + n % 10) ∷ [])

-- `%lu`, and `<<` of an unsigned number.
unfoldable pub decimal : ℕ → Text
unfolding decimal_fuel
decimal n = decimal_fuel (suc n) n

-- `%d`
unfoldable pub decimal_int : ℤ → Text
unfolding decimal
decimal_int (pos n) = decimal n
decimal_int (negsuc n) = b'-' ∷ decimal (suc n)

-- The longest run of digits, read in base ten onto `acc`, and what follows it.
unfoldable pub digits_value : ℕ → Text → ℕ × Text
digits_value acc [] = (acc, [])
digits_value acc (c ∷ s) =
    let more = digits_value (acc * 10 + (c - b'0')) s in if is_digit c then more else (acc, c ∷ s)

abbrev pub ulong_max : ℕ
ulong_max = 2 ^ 64 - 1

-- `strtoul(s, &end, 10)` on a text that begins with a digit: too large a number gives ULONG_MAX.
unfoldable pub strtoul : Text → ℕ × Text
unfolding digits_value
strtoul s =
    let (v, rest) = digits_value 0 s in if ltb ulong_max v then (ulong_max, rest) else (v, rest)

abbrev pub is_space : ℕ → Bool
is_space c = c == b' ' || (leb 9 c && leb c 13)

unfoldable pub skip_space : Text → Text
skip_space [] = []
skip_space (c ∷ s) = let rest = skip_space s in if is_space c then rest else c ∷ s

-- A sign, and the digits behind it.
unfoldable pub signed_value : Text → ℤ
unfolding digits_value
signed_value [] = pos 0
signed_value (c ∷ s) =
    if c == b'-'
    then neg (digits_value 0 s).0
    else if c == b'+'
    then pos (digits_value 0 s).0
    else pos (digits_value 0 (c ∷ s)).0

-- `atoi`, where the value fits an `int`.
unfoldable pub atoi : Text → ℤ
unfolding skip_space signed_value
atoi s = signed_value (skip_space s)

-- `%Ns`: blanks in front, up to a width.
unfoldable pub pad_left : ℕ → Text → Text
pad_left w s = replicate (w - length s) b' ' ++ s

-- `snprintf(buf, size, ...)` keeps size - 1 bytes of what it would print.
unfoldable pub snprintf : ℕ → Text → Text
snprintf size s = take (size - 1) s

-- The bytes in front of the first NUL; all of them if there is none.
unfoldable pub until_nul : Text → Text
until_nul [] = []
until_nul (c ∷ s) = if c == 0 then [] else c ∷ until_nul s

-- `find_first_of(c)`: the first position of the byte, or `npos`.
unfoldable pub find_first_of : ℕ → Text → Option ℕ
find_first_of c [] = none
find_first_of c (x ∷ s) =
    if x == c then some 0 else elim (find_first_of c s) [ none ↦ none | some i ↦ some (suc i) ]

-- `strncpy(dst, src, n)` into a char array: n bytes are written, NULs behind the end of `src`. Past
-- the end of the array it is undefined.
unfoldable pub strncpy : Text → Text → ℕ → Option Text
strncpy dst src n =
    if leb n (length dst) then some (take n (src ++ replicate n 0) ++ drop n dst) else none

-- A char array printed by `%s`: undefined where no NUL ends it.
unfoldable pub c_string : Text → Option Text
c_string [] = none
c_string (c ∷ s) =
    if c == 0 then some [] else elim (c_string s) [ none ↦ none | some t ↦ some (c ∷ t) ]
