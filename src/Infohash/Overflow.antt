-- ===== src/Infohash/Overflow.antt =====
-- The sum `start + n` of `scanString`: what happens when it leaves the range of `int`.
use marauder.Prelude.{
  ℕ, suc, ◌+◌, ◌-◌, ◌≤◌, ◌<◌, ◌≡◌, refl, ap, ◌∙◌, subst, some, [], ◌∷◌, ◌++◌, arith, ltb,
  if◌then◌else◌, length, get_elem?, take, drop, length-append, Text,
}
use marauder.Prelude.Decimal.{itoa, AllDigits, itoa-AllDigits, length-itoa, atoi-itoa}
use marauder.Prelude.Int.{pos, max_int, wrap64}
use marauder.Infohash.{
  length_exceeds_data, ok, fail, panicked, index_byte, index_byte_from, slice, sub_bytes,
  scan_bytes, scan_string, find_info, info_dict_bytes,
}

-- A length that is read is compared with the data by its wrapped sum, so a length that takes the sum
-- past the largest `int` passes the test and the slice panics; below that the token is the `n` bytes
-- behind the colon, or is refused when the data is shorter.
pub scan_bytes_exact :
    (s : Text) (start n : ℕ)
    → length s ≤ max_int
    → start ≤ length s
    → n ≤ max_int
    → scan_bytes s start (pos n) ≡ (
        if ltb max_int (start + n)
        then panicked
        else if ltb (length s) (start + n)
        then fail length_exceeds_data
        else ok (sub_bytes s start (start + n), start + n))
unfolding scan_bytes slice wrap64
scan_bytes_exact s start n hs hst hn = ground arith

-- The first byte above the digits is found behind them.
pub index_digits :
    (ds rest : Text) (i b : ℕ)
    → b'9' < b
    → AllDigits ds
    → index_byte (ds ++ b ∷ rest) i b ≡ some (i + length ds)
unfolding index_byte
index_digits [] rest i b hb h = ground arith
index_digits (d ∷ ds) rest i b hb h = ground (arith, index_digits ds rest (suc i) b hb)

pub take-append : (xs ys : Text) → take (length xs) (xs ++ ys) ≡ xs
take-append [] ys = refl
take-append (x ∷ xs) ys = ap (λ r. x ∷ r) (take-append xs ys)

-- A length in decimal digits before the colon is the length that the token has.
pub scan_string_prefix :
    (s : Text) (p n : ℕ) (rest : Text)
    → n ≤ max_int
    → drop p s ≡ itoa n ++ b':' ∷ rest
    → scan_string s p ≡ scan_bytes s (p + length (itoa n) + 1) (pos n)
unfolding scan_string index_byte_from
scan_string_prefix s p n rest hn e =
    let found : index_byte (drop p s) p b':' ≡ some (p + length (itoa n)) =
      rw e (index_digits (itoa n) rest p b':' (omega arith) (itoa-AllDigits n)) in
    let token : take (p + length (itoa n) - p) (drop p s) ≡ itoa n = rw (e) (
      subst (λ k. take k (itoa n ++ b':' ∷ rest) ≡ itoa n) (omega arith)
        (take-append (itoa n) (b':' ∷ rest))) in
    ground (arith, found, token, atoi-itoa n hn)

pub first_digit :
    (ds rest : Text)
    → AllDigits ds
    → 0 < length ds
    → (c : ℕ) × (get_elem? (ds ++ rest) 0 ≡ some c) × (b'0' ≤ c) × (c ≤ b'9')
first_digit [] rest d h = absurd (omega arith)
first_digit (c ∷ ds) rest ((lo, hi), _) h = (c, refl, lo, hi)

-- A payload that begins with `d`, a length whose sum with its position leaves the range of
-- `int`, and a colon makes the search for the info dictionary panic, whatever follows. The
-- length itself and the payload's own size are in the range.
pub info_dict_bytes_panics :
    (n : ℕ) (rest : Text)
    → length (b'd' ∷ itoa n ++ b':' ∷ rest) ≤ max_int
    → n ≤ max_int
    → max_int < length (itoa n) + 2 + n
    → info_dict_bytes (b'd' ∷ itoa n ++ b':' ∷ rest) ≡ panicked
unfolding info_dict_bytes find_info
info_dict_bytes_panics n rest fits hn big =
    let s : Text = b'd' ∷ itoa n ++ b':' ∷ rest in
    let (c, first, lo, hi) =
      first_digit (itoa n) (b':' ∷ rest) (itoa-AllDigits n) (length-itoa n) in
    let len : length (itoa n ++ b':' ∷ rest) ≡ length (itoa n) + suc (length rest) =
      length-append (itoa n) (b':' ∷ rest) in
    let token : scan_string s 1 ≡ panicked =
      scan_string_prefix s 1 n rest hn refl
      ∙ (scan_bytes_exact s (1 + length (itoa n) + 1) n fits (omega (arith, len)) hn
          ∙ ground arith) in
    ground (arith, first, token)
