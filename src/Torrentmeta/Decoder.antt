-- ===== src/Torrentmeta/Decoder.antt =====
-- The decoder of backend/internal/torrentmeta/bencode.go.
use marauder.Prelude.{
  ℕ, zero, suc, ◌+◌, ◌-◌, none, some, ltb, leb, ◌==◌, if◌then◌else◌, length, get_elem?, Text,
}
use marauder.Prelude.Decimal.{is_digit, atoi}
use marauder.Prelude.Int.{ℤ, pos, negsuc}
use marauder.Bencode.{Bencode, int, str, list, dict, Items, nil, cons, Fields, end, field}
use marauder.Infohash.{index_byte_from, sub_bytes, enough_fuel}

pub data DecodeError : Type 0 where
  too_deep too_many_values unexpected_end bad_integer bad_length list_too_long unexpected_byte :
      DecodeError
  not_a_dictionary no_info not_an_entry no_path no_length bad_single_file v2_only no_content
        no_name :
      DecodeError

-- `ran_out` is of the model alone.
pub data Decoded {ℓ} (A : Type ℓ) : Type ℓ where
  done : A → Decoded A
  bad : DecodeError → Decoded A
  ran_out : Decoded A

infixl 5 ◌>>>◌
abbrev pub ◌>>>◌ {ℓ κ} : {A : Type ℓ} {B : Type κ} → Decoded A → (A → Decoded B) → Decoded B
done a >>> f = f a
bad e >>> f = bad e
ran_out >>> f = ran_out

-- `d.pos` and `d.values` behind a step.
pub record Cursor : Type 0 where
  pub at : ℕ
  pub values : ℕ

abbrev pub max_depth : ℕ
max_depth = 32

abbrev pub max_list_len : ℕ
max_list_len = 100000

abbrev pub max_values : ℕ
max_values = 250000

-- `str`, once the length `n` of the token is read.
unfoldable pub take_bytes : Text → ℕ → ℤ → Decoded (Text × ℕ)
take_bytes data_ start (negsuc n) = bad bad_length
take_bytes data_ start (pos n) =
    if ltb (length data_ - start) n
    then bad unexpected_end
    else done (sub_bytes data_ start (start + n), start + n)

-- `str`; the position is not above the length, so the slices are in range.
unfoldable pub decode_str : Text → ℕ → Decoded (Text × ℕ)
unfolding take_bytes
decode_str data_ p = elim (index_byte_from data_ p b':') [
  | none ↦ bad unexpected_end
  | some colon ↦ elim (atoi (sub_bytes data_ p colon)) [
    | none ↦ bad bad_length
    | some n ↦ take_bytes data_ (colon + 1) n
  ]
]

-- The case `'i'` of `value`.
unfoldable pub decode_int : Text → ℕ → Decoded (ℤ × ℕ)
decode_int data_ p = elim (index_byte_from data_ p b'e') [
  | none ↦ bad unexpected_end
  | some stop ↦ elim (atoi (sub_bytes data_ (p + 1) stop)) [
    | none ↦ bad bad_integer
    | some n ↦ done (n, stop + 1)
  ]
]

-- `value(depth)` at a cursor, and its loops over a list that holds `n` values and over a dictionary.
unfoldable mutual
  pub decode_value : ℕ → Text → ℕ → Cursor → Decoded (Bencode × Cursor)
  decode_value zero data_ depth d = ran_out
  decode_value (suc fuel) data_ depth d =
      let values = suc d.values in
      let inner : Cursor = record { at = d.at + 1; values = values } in
      let items = decode_list fuel data_ depth 0 inner >>> λ r. done (list r.0, r.1) in
      let fields = decode_dict fuel data_ depth inner >>> λ r. done (dict r.0, r.1) in
      let token : Decoded (Bencode × Cursor) = elim (get_elem? data_ d.at) [
        | none ↦ bad unexpected_end
        | some c ↦
            if c == b'i'
            then (decode_int data_ d.at >>> λ r.
                done (int r.0, record { at = r.1; values = values }))
            else if c == b'l'
            then items
            else if c == b'd'
            then fields
            else if is_digit c
            then (decode_str data_ d.at >>> λ r.
                done (str r.0, record { at = r.1; values = values }))
            else bad unexpected_byte
      ] in
      if ltb max_depth depth
      then bad too_deep
      else if ltb max_values values
      then bad too_many_values
      else token

  pub decode_list : ℕ → Text → ℕ → ℕ → Cursor → Decoded (Items × Cursor)
  decode_list zero data_ depth n d = ran_out
  decode_list (suc fuel) data_ depth n d =
      let rest = decode_value fuel data_ (depth + 1) d >>> λ v.
      decode_list fuel data_ depth (suc n) v.1 >>> λ r. done (cons v.0 r.0, r.1) in
      elim (get_elem? data_ d.at) [
        | none ↦ bad unexpected_end
        | some c ↦
            if c == b'e'
            then done (nil, record d { at = d.at + 1 })
            else if leb max_list_len n
            then bad list_too_long
            else rest
      ]

  pub decode_dict : ℕ → Text → ℕ → Cursor → Decoded (Fields × Cursor)
  decode_dict zero data_ depth d = ran_out
  decode_dict (suc fuel) data_ depth d =
      let rest = decode_str data_ d.at >>> λ k.
      decode_value fuel data_ (depth + 1) (record d { at = k.1 }) >>> λ v.
      decode_dict fuel data_ depth v.1 >>> λ r. done (field k.0 v.0 r.0, r.1) in
      elim (get_elem? data_ d.at) [
        | none ↦ bad unexpected_end
        | some c ↦ if c == b'e' then done (end, record d { at = d.at + 1 }) else rest
      ]

-- `d := &decoder{data: data}`, `d.value(0)`.
unfoldable pub decode : Text → Decoded Bencode
unfolding decode_value
decode data_ =
    decode_value (enough_fuel data_) data_ 0 (record { at = 0; values = 0 }) >>> λ r. done r.0
