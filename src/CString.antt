-- ===== src/CString.antt =====
-- What the program uses of <string.h> and <stdlib.h> on text: a C string is the list of its bytes
-- before the terminating NUL.
pub mod Laws
use ghetto_subscriber_valida.Prelude.{
  ℕ, ◌+◌, ◌-◌, ◌*◌, ◌%◌, ◌^◌, List, [], ◌∷◌, Bool, true, false, ◌&&◌, ◌||◌, ltb, leb, ◌==◌,
  if◌then◌else◌, length, Option, none, some,
}
use Prim.Native.Nat.{min}
use Prim.Native.Char.{code}
use Prim.Native.String.{String}

-- The bytes of an ASCII literal.
abbrev pub codes : String → List ℕ
codes String.[] = []
codes (String.◌∷◌ c s) = code c ∷ codes s

-- The string that begins at a piece of memory.
unfoldable pub until_nul : List ℕ → List ℕ
until_nul [] = []
until_nul (c ∷ cs) = if c == 0 then [] else c ∷ until_nul cs

unfoldable pub is_space : ℕ → Bool
is_space c = c == 32 || (leb 9 c && leb c 13)

unfoldable pub is_digit : ℕ → Bool
is_digit c = leb b'0' c && leb c b'9'

unfoldable pub skip_spaces : List ℕ → List ℕ
unfolding is_space
skip_spaces [] = []
skip_spaces (c ∷ cs) = if is_space c then skip_spaces cs else c ∷ cs

-- The value of the leading decimal digits, behind an accumulator, and what follows them.
unfoldable pub scan_digits : ℕ → List ℕ → ℕ × List ℕ
unfolding is_digit
scan_digits acc [] = (acc, [])
scan_digits acc (c ∷ cs) =
    if is_digit c then scan_digits (10 * acc + (c - b'0')) cs else (acc, c ∷ cs)

-- What `strtol` and `strtoul` read in base 10: a sign, a magnitude, and the rest of the string.
pub record Number : Type 0 where
  pub negative : Bool
  pub magnitude : ℕ
  pub rest : List ℕ

unfoldable pub scan_sign : List ℕ → Bool × List ℕ
scan_sign [] = (false, [])
scan_sign (c ∷ cs) =
    if c == b'-' then (true, cs) else if c == b'+' then (false, cs) else (false, c ∷ cs)

unfoldable pub starts_with_digit : List ℕ → Bool
unfolding is_digit
starts_with_digit [] = false
starts_with_digit (c ∷ cs) = is_digit c

-- With no digit there is no conversion: the value is 0, and the rest is the whole string.
unfoldable pub scan_number : List ℕ → Number
unfolding skip_spaces scan_sign starts_with_digit scan_digits
scan_number s =
    let (negative, digits) = scan_sign (skip_spaces s) in
    let (magnitude, rest) = scan_digits 0 digits in
    if starts_with_digit digits
    then record { negative = negative; magnitude = magnitude; rest = rest }
    else record { negative = false; magnitude = 0; rest = s }

-- `strtol`, as the pattern of a 64-bit `long`, with the limits LONG_MIN and LONG_MAX.
unfoldable pub strtol : List ℕ → ℕ
unfolding scan_number
strtol s =
    let n = scan_number s in
    if n.negative
    then (2 ^ 64 - min n.magnitude (2 ^ 63)) % 2 ^ 64
    else min n.magnitude (2 ^ 63 - 1)

-- `strtoul`, with the limit ULONG_MAX, and the string at `*end`.
unfoldable pub strtoul : List ℕ → ℕ × List ℕ
unfolding scan_number
strtoul s =
    let n = scan_number s in
    (
      if ltb (2 ^ 64 - 1) n.magnitude
          then 2 ^ 64 - 1
          else if n.negative
          then (2 ^ 64 - n.magnitude) % 2 ^ 64
          else n.magnitude,
      n.rest,
    )

-- `strcmp (a, b) == 0`.
unfoldable pub str_eq : List ℕ → List ℕ → Bool
str_eq [] [] = true
str_eq (c ∷ cs) (d ∷ ds) = c == d && str_eq cs ds
str_eq _ _ = false

unfoldable pub is_prefix : List ℕ → List ℕ → Bool
is_prefix [] s = true
is_prefix (c ∷ cs) [] = false
is_prefix (c ∷ cs) (d ∷ ds) = c == d && is_prefix cs ds

-- `strstr (s, needle) != NULL`.
unfoldable pub contains : List ℕ → List ℕ → Bool
unfolding is_prefix
contains needle [] = is_prefix needle []
contains needle (c ∷ cs) = is_prefix needle (c ∷ cs) || contains needle cs

-- Whether a byte is one of the delimiters.
unfoldable pub is_delim : List ℕ → ℕ → Bool
is_delim [] c = false
is_delim (d ∷ delims) c = c == d || is_delim delims c

unfoldable pub skip_delims : List ℕ → List ℕ → List ℕ
unfolding is_delim
skip_delims delims [] = []
skip_delims delims (c ∷ cs) = if is_delim delims c then skip_delims delims cs else c ∷ cs

-- The token at the start of a string, and what follows the delimiter behind it.
unfoldable pub take_token : List ℕ → List ℕ → List ℕ × List ℕ
unfolding is_delim
take_token delims [] = ([], [])
take_token delims (c ∷ cs) =
    let (token, rest) = take_token delims cs in
    if is_delim delims c then ([], cs) else (c ∷ token, rest)

-- A token that has been found, if it is not empty.
abbrev pub nonempty : List ℕ × List ℕ → Option (List ℕ × List ℕ)
nonempty ([], rest) = none
nonempty (c ∷ token, rest) = some (c ∷ token, rest)

-- `strtok`: the next token, and the string at which the next call goes on.
unfoldable pub strtok : List ℕ → List ℕ → Option (List ℕ × List ℕ)
unfolding skip_delims take_token
strtok delims s = nonempty (take_token delims (skip_delims delims s))
