-- ===== src/Infohash/Grammar.antt =====
-- How the scanner of backend/internal/infohash reads one encoded value by its first byte.
use marauder.Prelude.{
  ℕ, suc, ◌+◌, ◌-◌, ◌≤◌, ◌≡◌, refl, sym, ap, ◌∙◌, subst, ◌≢◌, ◌⊎◌, some, [], ◌∷◌, ◌++◌, arith,
  length, get_elem?, take, drop, length-append, length-drop, drop_behind, get_elem?-drop, Text,
}
use marauder.Prelude.Decimal.{itoa, itoa-AllDigits, length-itoa}
use marauder.Prelude.Int.{ℤ, pos, negsuc, max_int}
use marauder.Bencode.{Bencode, int, str, list, dict, encode, encode_int, encode_str}
use marauder.Infohash.{
  ok, index_byte, index_byte_from, sub_bytes, scan_string, scan_key, scan_value, scan_items,
  max_bencode_depth,
}
use marauder.Infohash.Overflow.{
  scan_bytes_exact, scan_string_prefix, first_digit, index_digits, take-append,
}
use mathlib.Core.List.{append_assoc}

-- A string token that stands at a position of the data is read back, with the position behind it.
pub scan_string-encode :
    (s : Text) (p : ℕ) (t rest : Text)
    → length s ≤ max_int
    → drop p s ≡ encode_str t ++ rest
    → scan_string s p ≡ ok (t, p + length (encode_str t))
scan_string-encode s p t rest hs e =
    let digits = itoa (length t) in
    let here : drop p s ≡ digits ++ b':' ∷ (t ++ rest) = e ∙ append_assoc digits (b':' ∷ t) rest in
    let start = p + length digits + 1 in
    let after : drop start s ≡ t ++ rest =
      drop_behind (p + length digits) s (b':' ∷ []) (t ++ rest)
        (drop_behind p s digits (b':' ∷ (t ++ rest)) here) in
    let size : length s - start ≡ length t + length rest =
      sym (length-drop start s) ∙ ap length after ∙ length-append t rest in
    let size_all : length s - p ≡ length digits + suc (length t + length rest) =
      sym (length-drop p s)
      ∙ ap length here
      ∙ length-append digits (b':' ∷ (t ++ rest))
      ∙ ap (λ k. length digits + suc k) (length-append t rest) in
    let fits : start + length t ≤ length s = omega arith in
    let token : sub_bytes s start (start + length t) ≡ t =
      subst (λ k. take k (drop start s) ≡ t)
        (let e : length t ≡ start + length t - start = omega arith in e)
        (subst (λ r. take (length t) r ≡ t) (sym after) (take-append t rest)) in
    scan_string_prefix s p (length t) (t ++ rest) (omega arith) here
    ∙ scan_bytes_exact s start (length t) hs (omega arith) (omega arith)
    ∙ ground (arith, fits, token, length-append digits (b':' ∷ t))

pub first_byte : (s : Text) (p c : ℕ) (rest : Text) → drop p s ≡ c ∷ rest → get_elem? s p ≡ some c
first_byte s p c rest e = get_elem?-drop p s ∙ ap (λ r. get_elem? r 0) e

pub second_byte : (s : Text) (p c : ℕ) (rest : Text) → drop p s ≡ c ∷ rest → drop (p + 1) s ≡ rest
second_byte s p c rest e = drop_behind p s (c ∷ []) rest e

find_end :
    (z : ℤ) (rest : Text) (i : ℕ)
    → index_byte (encode_int z ++ b'e' ∷ rest) i b'e' ≡ some (i + length (encode_int z))
unfolding index_byte
find_end (pos n) rest i = index_digits (itoa n) rest i b'e' (omega arith) (itoa-AllDigits n)
find_end (negsuc n) rest i =
    ground
      (arith, index_digits (itoa (suc n)) rest (suc i) b'e' (omega arith) (itoa-AllDigits (suc n)))

-- `scanValue` on the three kinds of token.
module _ (fuel : ℕ) (s : Text) (p depth : ℕ) (shallow : depth ≤ max_bencode_depth) where
  pub value_integer :
      (z : ℤ) (rest : Text)
      → drop p s ≡ b'i' ∷ (encode_int z ++ b'e' ∷ rest)
      → scan_value (suc fuel) s p depth ≡ ok (p + (2 + length (encode_int z)))
  unfolding scan_value index_byte_from
  value_integer z rest e =
      let stop : index_byte (drop (p + 1) s) (p + 1) b'e' ≡ some (p + 1 + length (encode_int z)) =
        rw (second_byte s p b'i' _ e) (find_end z rest (p + 1)) in
      ground (arith, first_byte s p b'i' _ e, stop)

  pub value_container :
      (c : ℕ) (rest : Text)
      → ((c ≡ b'l') ⊎ (c ≡ b'd'))
      → drop p s ≡ c ∷ rest
      → scan_value (suc fuel) s p depth ≡ scan_items fuel s (p + 1) depth c
  unfolding scan_value
  value_container c rest kind e = ground (arith, first_byte s p c rest e)

  pub value_string :
      (t rest : Text)
      → length s ≤ max_int
      → drop p s ≡ encode_str t ++ rest
      → scan_value (suc fuel) s p depth ≡ ok (p + length (encode_str t))
  unfolding scan_value
  value_string t rest hs e =
      let digits = itoa (length t) in
      let (c, first, lo, hi) =
        first_digit digits (b':' ∷ (t ++ rest)) (itoa-AllDigits (length t))
          (length-itoa (length t)) in
      let at_p : get_elem? s p ≡ some c =
        get_elem?-drop p s
        ∙ ap (λ r. get_elem? r 0) (e ∙ append_assoc digits (b':' ∷ t) rest)
        ∙ first in
      ground (arith, at_p, scan_string-encode s p t rest hs e)

-- No value and no key begins with the byte that ends a container.
pub str_first :
    (t rest : Text) → (c : ℕ) × (get_elem? (encode_str t ++ rest) 0 ≡ some c) × (c ≢ b'e')
str_first t rest =
    let digits = itoa (length t) in
    let (c, first, lo, hi) =
      first_digit digits (b':' ∷ (t ++ rest)) (itoa-AllDigits (length t))
        (length-itoa (length t)) in
    (c, ap (λ r. get_elem? r 0) (append_assoc digits (b':' ∷ t) rest) ∙ first, omega arith)

pub encode_first :
    (v : Bencode) (rest : Text) → (c : ℕ) × (get_elem? (encode v ++ rest) 0 ≡ some c) × (c ≢ b'e')
unfolding encode
encode_first (int z) rest = (b'i', refl, omega arith)
encode_first (str t) rest = str_first t rest
encode_first (list xs) rest = (b'l', refl, omega arith)
encode_first (dict fs) rest = (b'd', refl, omega arith)

-- The loop over a container.
module _ (fuel : ℕ) (s : Text) (p depth : ℕ) where
  pub items_end :
      (c : ℕ) (rest : Text)
      → drop p s ≡ b'e' ∷ rest
      → scan_items (suc fuel) s p depth c ≡ ok (p + 1)
  unfolding scan_value
  items_end c rest e = ground (arith, first_byte s p b'e' rest e)

  pub items_next :
      (c b q next : ℕ)
      → get_elem? s p ≡ some b
      → b ≢ b'e'
      → scan_key s p c ≡ ok q
      → scan_value fuel s q (depth + 1) ≡ ok next
      → scan_items (suc fuel) s p depth c ≡ scan_items fuel s next depth c
  unfolding scan_value
  items_next c b q next hb ne hk hv = ground (arith, hb, hk, hv)

pub key_of_list : (s : Text) (p : ℕ) → scan_key s p b'l' ≡ ok p
unfolding scan_key
key_of_list s p = refl

pub key_of_dict :
    (s : Text) (p : ℕ) (t rest : Text)
    → length s ≤ max_int
    → drop p s ≡ encode_str t ++ rest
    → scan_key s p b'd' ≡ ok (p + length (encode_str t))
unfolding scan_key
key_of_dict s p t rest hs e = rw (scan_string-encode s p t rest hs e)

pub at_head :
    (s : Text) (p c : ℕ) (xs : Text)
    → drop p s ≡ xs
    → get_elem? xs 0 ≡ some c
    → get_elem? s p ≡ some c
at_head s p c xs e h = get_elem?-drop p s ∙ ap (λ r. get_elem? r 0) e ∙ h

pub wrapped : (xs rest : Text) → (xs ++ b'e' ∷ []) ++ rest ≡ xs ++ b'e' ∷ rest
wrapped xs rest = append_assoc xs (b'e' ∷ []) rest

pub length_wrapped : (xs : Text) → length (xs ++ b'e' ∷ []) ≡ length xs + 1
length_wrapped xs = length-append xs (b'e' ∷ [])
