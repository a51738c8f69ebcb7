-- ===== src/Scp/Strconv.antt =====
-- The numbers of SCP messages: `strconv.ParseUint` and `strconv.ParseInt` as scp/messages.go calls
-- them, and the verbs %d and %04o of package fmt.
pub mod RoundTrip
use x_cuter.Common.{
  ℕ, zero, suc, ◌+◌, ◌-◌, ◌*◌, ◌/◌, ◌%◌, ◌^◌, [], ◌∷◌, ltb, leb, ◌==◌, within, if◌then◌else◌, Bytes,
  length, ℤ, pos, negsuc,
}

-- The `Err` of a `*strconv.NumError`, or nil.
pub data NumError : Type 0 where
  no_error err_syntax err_range : NumError

-- The value of a digit; 255 stands for a byte that is none.
unfoldable pub digit_val : ℕ → ℕ
digit_val c =
    if within b'0' b'9' c
    then c - b'0'
    else if within b'a' b'z' c
    then c - b'a' + 10
    else if within b'A' b'Z' c
    then c - b'A' + 10
    else 255

-- The loop of `ParseUint`: at a digit that does not fit, the largest value of the width.
unfoldable pub parse_digits : ℕ → ℕ → ℕ → Bytes → ℕ × NumError
unfolding digit_val
parse_digits base max_val n [] = (n, no_error)
parse_digits base max_val n (c ∷ cs) =
    let d = digit_val c in
    let rest = parse_digits base max_val (n * base + d) cs in
    if leb base d
    then (0, err_syntax)
    else if ltb max_val (n * base + d)
    then (max_val, err_range)
    else rest

-- `strconv.ParseUint(s, base, bits)`, at a base of 8 or 10.
unfoldable pub parse_uint : Bytes → ℕ → ℕ → ℕ × NumError
parse_uint [] base bits = (0, err_syntax)
parse_uint (c ∷ cs) base bits = parse_digits base (2 ^ bits - 1) 0 (c ∷ cs)

-- The part of `ParseInt` behind `ParseUint`, for a text with no sign.
abbrev clamp_int : ℕ × NumError → ℕ × NumError
clamp_int (n, err_syntax) = (0, err_syntax)
clamp_int (n, e) = if leb (2 ^ 63) n then (2 ^ 63 - 1, err_range) else (n, e)

-- `strconv.ParseInt(s, 10, 64)` for a text with no sign: what the lexer passes as a number holds
-- number runes only.
unfoldable pub parse_int : Bytes → ℕ × NumError
unfolding parse_uint
parse_int s = clamp_int (parse_uint s 10 64)

-- The digits of `n` in the base, by `fuel` divisions at most, in front of `acc`.
unfoldable pub print_digits : ℕ → ℕ → ℕ → Bytes → Bytes
print_digits zero base n acc = acc
print_digits (suc fuel) base n acc =
    let digits = (b'0' + n % base) ∷ acc in
    let more = print_digits fuel base (n / base) digits in if n / base == 0 then digits else more

-- %d and %o: a number below 2 ^ 64 has at most 64 digits in any base.
unfoldable pub format_uint : ℕ → ℕ → Bytes
unfolding print_digits
format_uint base n = print_digits 64 base n []

abbrev pad : ℕ → Bytes → Bytes
pad zero s = s
pad (suc n) s = b'0' ∷ pad n s

-- %04o
unfoldable pub format_mode : ℕ → Bytes
format_mode n = let digits = format_uint 8 n in pad (4 - length digits) digits

-- %d of an int64.
unfoldable pub format_int : ℤ → Bytes
format_int (pos n) = format_uint 10 n
format_int (negsuc n) = b'-' ∷ format_uint 10 (suc n)
