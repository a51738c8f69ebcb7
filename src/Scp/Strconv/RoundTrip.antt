-- ===== src/Scp/Strconv/RoundTrip.antt =====
-- What is printed as a number is read back as the same number.
use native.Mathlib.Nat.{div-add-mod', pow-suc, mod-lt, div-lt_iff_lt-mul, div-le_self, le_trans}
use x_cuter.Common.{
  ℕ, zero, suc, ◌+◌, ◌-◌, ◌*◌, ◌/◌, ◌%◌, ◌^◌, ◌≤◌, ◌<◌, ◌≡◌, refl, ◌∙◌, inl, inr, true, [], ◌∷◌,
  arith, ◌==◌, within, ==_iff, Bool-cases, Bytes, All, length,
}
use x_cuter.Scp.Strconv.{
  no_error, parse_digits, parse_uint, parse_int, print_digits, format_uint, format_mode, pad,
}

-- A decimal digit.
abbrev pub IsDigit : ℕ → Type 0
IsDigit c = within b'0' b'9' c ≡ true

parse_digits-digit :
    (base max_val n d : ℕ) (cs : Bytes)
    → d < base
    → base ≤ 10
    → n * base + d ≤ max_val
    → parse_digits base max_val n ((b'0' + d) ∷ cs) ≡ parse_digits base max_val (n * base + d) cs
unfolding parse_digits
parse_digits-digit base max_val n d cs h k l = ground arith

div_lt : (base n f : ℕ) → 2 ≤ base → n < 2 ^ suc f → n / base < 2 ^ f
div_lt base n f h k = (div-lt_iff_lt-mul (omega arith)).1 (grind (arith, pow-suc 2 f))

-- The last digit, where the quotient is 0.
last_digit : (base n : ℕ) → (n / base == 0) ≡ true → 0 * base + n % base ≡ n
last_digit base n h = rw ((==_iff (n / base) 0).0 h) at (div-add-mod' n base)

digit_read :
    (base max_val k n : ℕ) (acc : Bytes)
    → 2 ≤ base
    → base ≤ 10
    → k * base + n % base ≡ n
    → n ≤ max_val
    → parse_digits base max_val k ((b'0' + n % base) ∷ acc) ≡ parse_digits base max_val n acc
digit_read base max_val k n acc b b' p l =
    rw p at (parse_digits-digit base max_val k (n % base) acc (mod-lt n (omega arith)) b' (rw p l))

parse-print :
    (fuel base max_val n : ℕ) (acc : Bytes)
    → 2 ≤ base
    → base ≤ 10
    → n < 2 ^ fuel
    → n ≤ max_val
    → parse_digits base max_val 0 (print_digits fuel base n acc) ≡ parse_digits base max_val n acc
unfolding print_digits
parse-print zero base max_val n acc b b' h l = rw (let e : n ≡ 0 = omega arith in e)
parse-print (suc f) base max_val n acc b b' h l = elim (Bool-cases (n / base == 0)) [
  | inl last ↦ rw last (digit_read base max_val 0 n acc b b' (last_digit base n last) l)
  | inr more ↦ rw more (
      parse-print f base max_val (n / base) ((b'0' + n % base) ∷ acc) b b' (div_lt base n f b h)
        (le_trans (div-le_self n base) l)
      ∙ digit_read base max_val (n / base) n acc b b' (div-add-mod' n base) l)
]

print_digits-All :
    (fuel base n : ℕ) (acc : Bytes)
    → 2 ≤ base
    → base ≤ 10
    → All IsDigit acc
    → All IsDigit (print_digits fuel base n acc)
unfolding print_digits
print_digits-All zero base n acc b b' h = h
print_digits-All (suc f) base n acc b b' h =
    let d : IsDigit (b'0' + n % base) =
      (let m = mod-lt n {m = base} (omega arith) in ground arith) in
    ground (arith, print_digits-All f base (n / base) ((b'0' + n % base) ∷ acc) b b' (d, h))

-- There is a digit at least.
print_digits-cons :
    (fuel base n a : ℕ) (acc : Bytes)
    → (c : ℕ) × (cs : Bytes) × (print_digits fuel base n (a ∷ acc) ≡ c ∷ cs)
unfolding print_digits
print_digits-cons zero base n a acc = (a, acc, refl)
print_digits-cons (suc f) base n a acc = elim (Bool-cases (n / base == 0)) [
  | inl last ↦ (b'0' + n % base, a ∷ acc, rw last)
  | inr more ↦ rw more (print_digits-cons f base (n / base) (b'0' + n % base) (a ∷ acc))
]

print_suc : (f base n : ℕ) → (c : ℕ) × (cs : Bytes) × (print_digits (suc f) base n [] ≡ c ∷ cs)
unfolding print_digits
print_suc f base n = elim (Bool-cases (n / base == 0)) [
  | inl last ↦ (b'0' + n % base, [], rw last)
  | inr more ↦ rw more (print_digits-cons f base (n / base) (b'0' + n % base) [])
]

-- The texts of numbers: digits, one at least.
pub record IsNumeral (s : Bytes) : Type 0 where
  pub digits : All IsDigit s
  pub first : ℕ
  pub others : Bytes
  pub not_empty : s ≡ first ∷ others

format_uint-IsNumeral : (base n : ℕ) → 2 ≤ base → base ≤ 10 → IsNumeral (format_uint base n)
unfolding format_uint
format_uint-IsNumeral base n b b' =
    let (c, cs, e) = print_suc 63 base n in
    record { digits = print_digits-All 64 base n [] b b' tt; first = c; others = cs; not_empty = e }

pub decimal-IsNumeral : (n : ℕ) → IsNumeral (format_uint 10 n)
decimal-IsNumeral n = format_uint-IsNumeral 10 n (omega arith) (omega arith)

pad-IsNumeral : (k : ℕ) (s : Bytes) → IsNumeral s → IsNumeral (pad k s)
pad-IsNumeral zero s h = h
pad-IsNumeral (suc k) s h = record {
  digits = (refl, (pad-IsNumeral k s h).digits);
  first = b'0';
  others = pad k s;
  not_empty = refl;
}

pub mode-IsNumeral : (n : ℕ) → IsNumeral (format_mode n)
unfolding format_mode
mode-IsNumeral n = pad-IsNumeral _ _ (format_uint-IsNumeral 8 n (omega arith) (omega arith))

parse_uint-IsNumeral :
    (s : Bytes) (base bits : ℕ)
    → IsNumeral s
    → parse_uint s base bits ≡ parse_digits base (2 ^ bits - 1) 0 s
unfolding parse_uint
parse_uint-IsNumeral s base bits h = rw h.not_empty refl

parse_digits-pad :
    (k base max_val : ℕ) (s : Bytes)
    → 2 ≤ base
    → parse_digits base max_val 0 (pad k s) ≡ parse_digits base max_val 0 s
unfolding parse_digits
parse_digits-pad zero base max_val s b = refl
parse_digits-pad (suc k) base max_val s b = ground (arith, parse_digits-pad k base max_val s b)

-- A decimal below 2 ^ 64 is read back by `ParseUint(s, 10, 64)`.
pub parse_uint-format_uint :
    (n : ℕ) → n < 2 ^ 64 → parse_uint (format_uint 10 n) 10 64 ≡ (n, no_error)
unfolding format_uint parse_digits
parse_uint-format_uint n h =
    parse_uint-IsNumeral (format_uint 10 n) 10 64 (decimal-IsNumeral n)
    ∙ parse-print 64 10 (2 ^ 64 - 1) n [] (omega arith) (omega arith) h (omega arith)

-- A mode below 2 ^ 32 is read back by `ParseUint(s, 8, 32)`.
pub parse_uint-format_mode : (n : ℕ) → n < 2 ^ 32 → parse_uint (format_mode n) 8 32 ≡ (n, no_error)
unfolding format_mode format_uint parse_digits
parse_uint-format_mode n h =
    parse_uint-IsNumeral (format_mode n) 8 32 (mode-IsNumeral n)
    ∙ parse_digits-pad (4 - length (format_uint 8 n)) 8 (2 ^ 32 - 1) (format_uint 8 n) (omega arith)
    ∙ parse-print 64 8 (2 ^ 32 - 1) n [] (omega arith) (omega arith) (omega arith) (omega arith)

-- A time from 0 up to 2 ^ 63 - 1 is read back by `ParseInt(s, 10, 64)`.
pub parse_int-format_uint : (n : ℕ) → n < 2 ^ 63 → parse_int (format_uint 10 n) ≡ (n, no_error)
unfolding parse_int
parse_int-format_uint n h = rw (parse_uint-format_uint n (omega arith)) (ground arith)
