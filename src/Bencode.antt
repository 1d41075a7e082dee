-- ===== src/Bencode.antt =====
-- Bencoded values (BEP 3) and their encoding: what a tracker that follows the format sends.
use marauder.Prelude.{ℕ, suc, max, [], ◌∷◌, ◌++◌, length, Text}
use marauder.Prelude.Decimal.{itoa}
use marauder.Prelude.Int.{ℤ, pos, negsuc}

mutual
  pub data Bencode : Type 0 where
    int : ℤ → Bencode
    str : Text → Bencode
    list : Items → Bencode
    dict : Fields → Bencode

  pub data Items : Type 0 where
    nil : Items
    cons : Bencode → Items → Items

  pub data Fields : Type 0 where
    end : Fields
    field : Text → Bencode → Fields → Fields

abbrev pub encode_int : ℤ → Text
encode_int (pos n) = itoa n
encode_int (negsuc n) = b'-' ∷ itoa (suc n)

abbrev pub encode_str : Text → Text
encode_str s = itoa (length s) ++ b':' ∷ s

unfoldable mutual
  pub encode : Bencode → Text
  encode (int z) = b'i' ∷ (encode_int z ++ b'e' ∷ [])
  encode (str s) = encode_str s
  encode (list xs) = b'l' ∷ (encode_items xs ++ b'e' ∷ [])
  encode (dict fs) = b'd' ∷ (encode_fields fs ++ b'e' ∷ [])

  pub encode_items : Items → Text
  encode_items nil = []
  encode_items (cons v xs) = encode v ++ encode_items xs

  pub encode_fields : Fields → Text
  encode_fields end = []
  encode_fields (field k v fs) = encode_str k ++ (encode v ++ encode_fields fs)

-- How many containers stand round the innermost value.
unfoldable mutual
  pub nesting : Bencode → ℕ
  nesting (int z) = 0
  nesting (str s) = 0
  nesting (list xs) = nesting_items xs
  nesting (dict fs) = nesting_fields fs

  pub nesting_items : Items → ℕ
  nesting_items nil = 0
  nesting_items (cons v xs) = max (suc (nesting v)) (nesting_items xs)

  pub nesting_fields : Fields → ℕ
  nesting_fields end = 0
  nesting_fields (field k v fs) = max (suc (nesting v)) (nesting_fields fs)
