-- ===== src/Prelude/Decimal.antt =====
-- `strconv.Atoi` and `strconv.ParseInt(s, 10, 64)`, which agree where `int` has 64 bits, and the
-- decimal print of a number.
use Prim.Native.Nat.{ℕ, zero, suc, ◌+◌, ◌-◌, ◌*◌, ◌/◌, ◌%◌, ◌≤◌, ◌<◌}
use mathlib.Core.Path.{◌≡◌, refl}
use mathlib.Core.Logic.{inl, inr}
use mathlib.Core.Bool.{Bool, true, false, ◌&&◌}
use mathlib.Core.List.{[], ◌∷◌}
use mathlib.Core.Option.{Option, none, some}
use native.Mathlib.Omega.{arith}
use marauder.Prelude.Tests.{leb, ◌==◌, if◌then◌else◌, ◌>>=◌, Bool-cases}
use marauder.Prelude.Lists.{length, All}
use marauder.Prelude.Int.{ℤ, pos, negsuc, max_int}
use marauder.Prelude.Strings.{Text, codes}

abbrev pub is_digit : ℕ → Bool
is_digit c = leb b'0' c && leb c b'9'

-- The number that digits spell behind `n`; `none` at another byte.
unfoldable pub dec_value : Text → ℕ → Option ℕ
dec_value [] n = some n
dec_value (c ∷ s) n =
    let rest = dec_value s (n * 10 + (c - b'0')) in if is_digit c then rest else none

-- Digits, at least one.
unfoldable pub parse_uint : Text → Option ℕ
unfolding dec_value
parse_uint [] = none
parse_uint (c ∷ s) = dec_value (c ∷ s) 0

unfoldable pub in_range : Bool → ℕ → Option ℤ
in_range false n = if leb n max_int then some (pos n) else none
in_range true zero = some (pos zero)
in_range true (suc n) = if leb n max_int then some (negsuc n) else none

-- A sign, then digits; `none` is a syntax error or a value out of range.
unfoldable pub atoi : Text → Option ℤ
unfolding parse_uint in_range
atoi [] = none
atoi (c ∷ s) =
    if c == b'-'
    then (parse_uint s >>= in_range true)
    else if c == b'+'
    then (parse_uint s >>= in_range false)
    else (parse_uint (c ∷ s) >>= in_range false)

digits : ℕ → ℕ → Text → Text
digits zero n out = out
digits (suc fuel) n out =
    let rest = digits fuel (n / 10) ((b'0' + n % 10) ∷ out) in
    if n / 10 == 0 then (b'0' + n % 10) ∷ out else rest

-- The decimal print of a number; it has at most as many digits as rounds of fuel.
unfoldable pub itoa : ℕ → Text
unfolding digits
itoa n = digits (suc n) n []

abbrev pub AllDigits : Text → Type 0
AllDigits = All (λ c. (b'0' ≤ c) × (c ≤ b'9'))

digits-AllDigits : (fuel n : ℕ) (out : Text) → AllDigits out → AllDigits (digits fuel n out)
unfolding digits
digits-AllDigits zero n out h = h
digits-AllDigits (suc fuel) n out h =
    let longer : AllDigits ((b'0' + n % 10) ∷ out) = ((omega arith, omega arith), h) in
    elim (Bool-cases (n / 10 == 0)) [
      | inl e ↦ rw e longer
      | inr e ↦ rw e (digits-AllDigits fuel (n / 10) ((b'0' + n % 10) ∷ out) longer)
    ]

dec_value-digits :
    (fuel n : ℕ) (out : Text) → n < fuel → dec_value (digits fuel n out) 0 ≡ dec_value out n
unfolding digits dec_value
dec_value-digits zero n out h = absurd (omega arith)
dec_value-digits (suc fuel) n out h =
    ground (arith, dec_value-digits fuel (n / 10) ((b'0' + n % 10) ∷ out))

length-digits : (fuel n : ℕ) (out : Text) → 0 < fuel → length out < length (digits fuel n out)
unfolding digits
length-digits zero n out h = absurd (omega arith)
length-digits (suc zero) n out h = ground arith
length-digits (suc (suc fuel)) n out h =
    ground (arith, length-digits (suc fuel) (n / 10) ((b'0' + n % 10) ∷ out))

pub itoa-AllDigits : (n : ℕ) → AllDigits (itoa n)
unfolding itoa
itoa-AllDigits n = digits-AllDigits (suc n) n [] tt

pub length-itoa : (n : ℕ) → 0 < length (itoa n)
unfolding itoa
length-itoa n = length-digits (suc n) n [] (omega arith)

pub parse_uint-itoa : (n : ℕ) → parse_uint (itoa n) ≡ some n
unfolding itoa parse_uint
parse_uint-itoa n =
    through (digits (suc n) n []) (length-digits (suc n) n [] (omega arith))
      (dec_value-digits (suc n) n [] (omega arith))
  where
    through : (s : Text) → 0 < length s → dec_value s 0 ≡ some n → parse_uint s ≡ some n
    through [] h e = absurd (omega arith)
    through (c ∷ s) h e = e

atoi_digits : (s : Text) → AllDigits s → 0 < length s → atoi s ≡ (parse_uint s >>= in_range false)
unfolding atoi
atoi_digits [] d h = absurd (omega arith)
atoi_digits (c ∷ s) d h = ground arith

-- A printed number is read back.
pub atoi-itoa : (n : ℕ) → n ≤ max_int → atoi (itoa n) ≡ some (pos n)
unfolding in_range
atoi-itoa n h =
    rw (atoi_digits (itoa n) (itoa-AllDigits n) (length-itoa n)) (rw parse_uint-itoa (ground arith))

itoa_test : itoa 1070 ≡ codes "1070"
unfolding itoa
itoa_test = refl
