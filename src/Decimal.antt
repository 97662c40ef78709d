-- ===== src/Decimal.antt =====
-- The decimal texts of int64 values that workqueue/gcs stores: strconv.FormatInt and fmt.Sprint,
-- the format %08d, and strconv.ParseInt and Atoi, which agree in base 10 with 64 bits.
pub mod RoundTrip
pub mod Order
use go_driftlessaf.Base.{
  ℕ, zero, suc, ◌+◌, ◌-◌, ◌*◌, ◌/◌, ◌%◌, ◌≡◌, refl, Bool, ◌&&◌, Option, none, some, List, [], ◌∷◌,
  ◌++◌, if◌then◌else◌, ltb, leb, ◌==◌, length, ℤ, pos, negsuc, two63, two64, Bytes, ascii,
}

-- The digits of a number below 10 ^ w.
unfoldable pub digits : ℕ → ℕ → Bytes
digits zero n = []
digits (suc w) n =
    let rest = digits w (n / 10) in if ltb n 10 then (48 + n) ∷ [] else rest ++ (48 + n % 10) ∷ []

-- An int64 has at most 19 digits.
abbrev pub most_digits : ℕ
most_digits = 20

-- `strconv.FormatInt(i, 10)`
unfoldable pub format_int : ℤ → Bytes
unfolding digits
format_int (pos n) = digits most_digits n
format_int (negsuc n) = b'-' ∷ digits most_digits (suc n)

unfoldable pub zeros : ℕ → Bytes
zeros zero = []
zeros (suc n) = b'0' ∷ zeros n

-- `fmt.Sprintf("%08d", i)`: the sign counts towards the width.
unfoldable pub format_padded : ℤ → Bytes
unfolding digits zeros
format_padded (pos n) = let s = digits most_digits n in zeros (8 - length s) ++ s
format_padded (negsuc n) = let s = digits most_digits (suc n) in b'-' ∷ (zeros (7 - length s) ++ s)

-- What strconv.ParseUint makes of a text from a digit on.
pub data Scan : Type 0 where
  whole : ℕ → Scan
  invalid over : Scan

unfoldable pub scan : Bytes → ℕ → Scan
scan [] n = whole n
scan (c ∷ s) n =
    let m = n * 10 + (c - 48) in
    let rest = scan s m in
    if leb 48 c && leb c 57 then (if ltb m two64 then rest else over) else invalid

abbrev pub scan_all : Bytes → Scan
scan_all [] = invalid
scan_all (c ∷ s) = scan (c ∷ s) 0

-- The value and the error of strconv.ParseInt: an error of range comes with the nearest int64.
pub data Parsed : Type 0 where
  parsed : ℤ → Parsed
  bad_syntax : Parsed
  out_of_range : ℤ → Parsed

abbrev pub positive : Scan → Parsed
positive (whole n) = if ltb n two63 then parsed (pos n) else out_of_range (pos (two63 - 1))
positive invalid = bad_syntax
positive over = out_of_range (pos (two63 - 1))

abbrev pub negative_of : ℕ → ℤ
negative_of zero = pos 0
negative_of (suc n) = negsuc n

abbrev pub negative : Scan → Parsed
negative (whole n) =
    if leb n two63 then parsed (negative_of n) else out_of_range (negsuc (two63 - 1))
negative invalid = bad_syntax
negative over = out_of_range (negsuc (two63 - 1))

-- `strconv.ParseInt(s, 10, 64)`
unfoldable pub parse_int : Bytes → Parsed
unfolding scan
parse_int [] = bad_syntax
parse_int (c ∷ s) =
    if c == b'-'
    then negative (scan_all s)
    else if c == b'+'
    then positive (scan_all s)
    else positive (scan_all (c ∷ s))

-- The value where there is no error.
abbrev pub parsed_value : Parsed → Option ℤ
parsed_value (parsed i) = some i
parsed_value bad_syntax = none
parsed_value (out_of_range i) = none

format_small : (format_int (pos 120) ≡ ascii "120") × (format_int (negsuc 6) ≡ ascii "-7")
unfolding format_int
format_small = (refl, refl)

padded_small :
    (format_padded (pos 0) ≡ ascii "00000000") × (format_padded (negsuc 6) ≡ ascii "-0000007")
unfolding format_padded
padded_small = (refl, refl)

parse_edges :
    (parse_int (ascii "9223372036854775808") ≡ out_of_range (pos 9223372036854775807))
    × (parse_int (ascii "-9223372036854775808") ≡ parsed (negsuc 9223372036854775807))
    × (parse_int (ascii "1x") ≡ bad_syntax)
    × (parse_int (ascii "+007") ≡ parsed (pos 7))
unfolding parse_int
parse_edges = (refl, refl, refl, refl)
