-- ===== src/Infohash/Encoded.antt =====
-- The scanner of backend/internal/infohash/infohash.go on data that follows the format.
use marauder.Prelude.{
  ℕ, zero, suc, ◌+◌, ◌-◌, ◌*◌, ◌≤◌, ◌<◌, ◌≡◌, refl, sym, ap, ◌∙◌, subst, inl, inr, Option, none,
  some, [], ◌∷◌, ◌++◌, arith, if◌then◌else◌, length, take, drop, length-append, length-drop,
  drop_behind, Text, codes, text_eq,
}
use marauder.Prelude.Decimal.{itoa}
use marauder.Prelude.Int.{max_int}
use marauder.Bencode.{
  Bencode, Items, Fields, int, str, list, dict, nil, cons, end, field, encode, encode_int,
  encode_str, encode_items, encode_fields, nesting, nesting_items, nesting_fields,
}
use marauder.Infohash.{
  no_info, Scan, ok, fail, sub_bytes, scan_value, scan_items, find_info, enough_fuel,
  info_dict_bytes, max_bencode_depth,
}
use marauder.Infohash.Overflow.{take-append}
use mathlib.Core.List.{append_assoc}
use marauder.Infohash.Grammar.{
  scan_string-encode, first_byte, second_byte, value_integer, value_container, value_string,
  str_first, encode_first, items_end, items_next, key_of_list, key_of_dict, at_head, wrapped,
  length_wrapped,
}

-- An encoded value has a byte at least.
pub length-encode : (v : Bencode) → 0 < length (encode v)
unfolding encode
length-encode (int z) = omega arith
length-encode (str t) = omega (arith, length-append (itoa (length t)) (b':' ∷ t))
length-encode (list xs) = omega arith
length-encode (dict fs) = omega arith

module _ (s : Text) (hs : length s ≤ max_int) where
  mutual
    unfolding encode nesting

    value_encode :
        (v : Bencode) (fuel p depth : ℕ) (rest : Text)
        → 2 * length (encode v) < fuel
        → depth + nesting v ≤ max_bencode_depth
        → drop p s ≡ encode v ++ rest
        → scan_value fuel s p depth ≡ ok (p + length (encode v))
    value_encode v zero p depth rest hf hd e = absurd (omega arith)
    value_encode (int z) (suc fuel) p depth rest hf hd e =
        value_integer fuel s p depth (omega arith) z rest
          (e ∙ ap (λ r. b'i' ∷ r) (wrapped (encode_int z) rest))
        ∙ ap ok (omega (arith, length_wrapped (encode_int z)))
    value_encode (str t) (suc fuel) p depth rest hf hd e =
        value_string fuel s p depth (omega arith) t rest hs e
    value_encode (list xs) (suc fuel) p depth rest hf hd e =
        let inner : drop p s ≡ b'l' ∷ (encode_items xs ++ b'e' ∷ rest) =
          e ∙ ap (λ r. b'l' ∷ r) (wrapped (encode_items xs) rest) in
        value_container fuel s p depth (omega arith) b'l' _ (inl refl) inner
        ∙ items_encode xs fuel (p + 1) depth rest (omega (arith, length_wrapped (encode_items xs)))
            hd (second_byte s p b'l' _ inner)
        ∙ ap ok (omega (arith, length_wrapped (encode_items xs)))
    value_encode (dict fs) (suc fuel) p depth rest hf hd e =
        let inner : drop p s ≡ b'd' ∷ (encode_fields fs ++ b'e' ∷ rest) =
          e ∙ ap (λ r. b'd' ∷ r) (wrapped (encode_fields fs) rest) in
        value_container fuel s p depth (omega arith) b'd' _ (inr refl) inner
        ∙ fields_encode fs fuel (p + 1) depth rest
            (omega (arith, length_wrapped (encode_fields fs))) hd (second_byte s p b'd' _ inner)
        ∙ ap ok (omega (arith, length_wrapped (encode_fields fs)))

    items_encode :
        (xs : Items) (fuel p depth : ℕ) (rest : Text)
        → 2 * length (encode_items xs) + 1 < fuel
        → depth + nesting_items xs ≤ max_bencode_depth
        → drop p s ≡ encode_items xs ++ b'e' ∷ rest
        → scan_items fuel s p depth b'l' ≡ ok (p + (length (encode_items xs) + 1))
    items_encode xs zero p depth rest hf hd e = absurd (omega arith)
    items_encode nil (suc fuel) p depth rest hf hd e = items_end fuel s p depth b'l' rest e
    items_encode (cons v xs) (suc fuel) p depth rest hf hd e =
        let behind = encode_items xs ++ b'e' ∷ rest in
        let here : drop p s ≡ encode v ++ behind =
          e ∙ append_assoc (encode v) (encode_items xs) (b'e' ∷ rest) in
        let (c, first, ne) = encode_first v behind in
        let sizes = length-append (encode v) (encode_items xs) in
        items_next fuel s p depth b'l' c p (p + length (encode v)) (at_head s p c _ here first) ne
          (key_of_list s p)
          (value_encode v fuel p (depth + 1) behind (omega (arith, sizes)) (omega arith) here)
        ∙ items_encode xs fuel (p + length (encode v)) depth rest
            (omega (arith, sizes, length-encode v)) (omega arith)
            (drop_behind p s (encode v) behind here)
        ∙ ap ok (omega (arith, sizes))

    fields_encode :
        (fs : Fields) (fuel p depth : ℕ) (rest : Text)
        → 2 * length (encode_fields fs) + 1 < fuel
        → depth + nesting_fields fs ≤ max_bencode_depth
        → drop p s ≡ encode_fields fs ++ b'e' ∷ rest
        → scan_items fuel s p depth b'd' ≡ ok (p + (length (encode_fields fs) + 1))
    fields_encode fs zero p depth rest hf hd e = absurd (omega arith)
    fields_encode end (suc fuel) p depth rest hf hd e = items_end fuel s p depth b'd' rest e
    fields_encode (field k v fs) (suc fuel) p depth rest hf hd e =
        let behind = encode_fields fs ++ b'e' ∷ rest in
        let here : drop p s ≡ encode_str k ++ (encode v ++ behind) =
          e
          ∙ append_assoc (encode_str k) (encode v ++ encode_fields fs) (b'e' ∷ rest)
          ∙ ap (λ r. encode_str k ++ r)
              (append_assoc (encode v) (encode_fields fs) (b'e' ∷ rest)) in
        let (c, first, ne) = str_first k (encode v ++ behind) in
        let q = p + length (encode_str k) in
        let at_v = drop_behind p s (encode_str k) (encode v ++ behind) here in
        let sizes : length (encode_str k ++ (encode v ++ encode_fields fs))
            ≡ length (encode_str k) + (length (encode v) + length (encode_fields fs)) =
          length-append (encode_str k) _
          ∙ ap (λ n. length (encode_str k) + n) (length-append (encode v) (encode_fields fs)) in
        items_next fuel s p depth b'd' c q (q + length (encode v)) (at_head s p c _ here first) ne
          (key_of_dict s p k _ hs here)
          (value_encode v fuel q (depth + 1) behind (omega (arith, sizes)) (omega arith) at_v)
        ∙ fields_encode fs fuel (q + length (encode v)) depth rest
            (omega (arith, sizes, length-encode v)) (omega arith)
            (drop_behind q s (encode v) behind at_v)
        ∙ ap ok (omega (arith, sizes))

-- An encoded value at a position of the data, whatever follows it, is scanned to its exact end.
-- The data has at most as many bytes as the largest `int`, the value stands at most 32 deep with
-- the depth already reached, and the fuel is above twice its length.
scan_value-encode :
    (s : Text) (v : Bencode) (fuel p depth : ℕ) (rest : Text)
    → length s ≤ max_int
    → 2 * length (encode v) < fuel
    → depth + nesting v ≤ max_bencode_depth
    → drop p s ≡ encode v ++ rest
    → scan_value fuel s p depth ≡ ok (p + length (encode v))
scan_value-encode s v fuel p depth rest hs = value_encode s hs v fuel p depth rest

-- The value of the first entry with a key.
unfoldable pub first_field : Text → Fields → Option Bencode
first_field key end = none
first_field key (field k v fs) = if text_eq k key then some v else first_field key fs

abbrev pub info_result : Option Bencode → Scan Text
info_result none = fail no_info
info_result (some v) = ok (encode v)

sub_bytes_here :
    (s : Text) (p : ℕ) (xs rest : Text) → drop p s ≡ xs ++ rest → sub_bytes s p (p + length xs) ≡ xs
sub_bytes_here s p xs rest e =
    subst (λ k. take k (drop p s) ≡ xs) (let k : length xs ≡ p + length xs - p = omega arith in k)
      (subst (λ r. take (length xs) r ≡ xs) (sym e) (take-append xs rest))

module _ (s : Text) (hs : length s ≤ max_int) where
  find_info-encode :
      (fs : Fields) (fuel p : ℕ) (rest : Text)
      → length (encode_fields fs) < fuel
      → 1 + nesting_fields fs ≤ suc max_bencode_depth
      → drop p s ≡ encode_fields fs ++ b'e' ∷ rest
      → find_info fuel s p ≡ info_result (first_field (codes "info") fs)
  unfolding find_info first_field encode nesting
  find_info-encode fs zero p rest hf hd e = absurd (omega arith)
  find_info-encode end (suc fuel) p rest hf hd e = ground (arith, first_byte s p b'e' rest e)
  find_info-encode (field k v fs) (suc fuel) p rest hf hd e =
      let behind = encode_fields fs ++ b'e' ∷ rest in
      let here : drop p s ≡ encode_str k ++ (encode v ++ behind) =
        e
        ∙ append_assoc (encode_str k) (encode v ++ encode_fields fs) (b'e' ∷ rest)
        ∙ ap (λ r. encode_str k ++ r) (append_assoc (encode v) (encode_fields fs) (b'e' ∷ rest)) in
      let (c, first, ne) = str_first k (encode v ++ behind) in
      let q = p + length (encode_str k) in
      let at_v = drop_behind p s (encode_str k) (encode v ++ behind) here in
      let sizes : length (encode_str k ++ (encode v ++ encode_fields fs))
          ≡ length (encode_str k) + (length (encode v) + length (encode_fields fs)) =
        length-append (encode_str k) _
        ∙ ap (λ n. length (encode_str k) + n) (length-append (encode v) (encode_fields fs)) in
      let room : length s - q ≡ length (encode v) + length behind =
        sym (length-drop q s) ∙ ap length at_v ∙ length-append (encode v) behind in
      let key = scan_string-encode s p k _ hs here in
      let value =
        scan_value-encode s v (enough_fuel s) q 1 behind hs (omega (arith, room)) (omega arith)
          at_v in
      let later =
        find_info-encode fs fuel (q + length (encode v)) rest
          (omega (arith, sizes, length-encode v)) (omega arith)
          (drop_behind q s (encode v) behind at_v) in
      ground (
        arith,
        at_head s p c _ here first,
        key,
        value,
        later,
        sub_bytes_here s q (encode v) behind at_v,
      )

-- On an encoded dictionary the search returns exactly the encoding of the first value under the key
-- `info`, and reports a dictionary with no such key. The dictionary fits in memory, and its values
-- stand at most 32 deep.
pub info_dict_bytes-encode :
    (fs : Fields)
    → length (encode (dict fs)) ≤ max_int
    → nesting_fields fs ≤ max_bencode_depth
    → info_dict_bytes (encode (dict fs)) ≡ info_result (first_field (codes "info") fs)
unfolding info_dict_bytes encode
info_dict_bytes-encode fs hs hd =
    find_info-encode (encode (dict fs)) hs fs (length (encode (dict fs))) 1 []
      (omega (arith, length_wrapped (encode_fields fs))) (omega arith) refl
