-- ===== src/Infohash.antt =====
-- backend/internal/infohash/infohash.go: the infohash of a payload. The data of the scanner is a
-- byte slice, so it has at most `max_int` bytes; sums of `int`s wrap. The packages
-- that the code calls are a parameter (`Packages`).
pub mod Bounds
pub mod Overflow
pub mod Fuel
pub mod Grammar
pub mod Encoded
pub mod Payload
use marauder.Prelude.{
  ℕ, zero, suc, ◌+◌, ◌-◌, ◌*◌, not, ◌||◌, Option, none, some, List, [], ◌∷◌, ltb, leb, ◌==◌,
  if◌then◌else◌, length, get_elem?, take, drop, Text, codes, text_eq, has_prefix,
}
use marauder.Prelude.Decimal.{is_digit, atoi}
use marauder.Prelude.Int.{ℤ, pos, negsuc, ltb_ℤ, wrap64}

pub data HashError : Type 0 where
  not_a_dictionary no_info missing_colon bad_length length_exceeds_data : HashError
  unexpected_end too_deep unterminated_integer unterminated_container unexpected_byte : HashError
  no_source bad_query no_btih invalid_hex invalid_base32 unexpected_length : HashError

-- `panicked` is a run-time panic of the Go code, `out_of_fuel` is of the model alone.
pub data Scan {ℓ} (A : Type ℓ) : Type ℓ where
  ok : A → Scan A
  fail : HashError → Scan A
  panicked : Scan A
  out_of_fuel : Scan A

infixl 5 ◌>>>◌
abbrev pub ◌>>>◌ {ℓ κ} : {A : Type ℓ} {B : Type κ} → Scan A → (A → Scan B) → Scan B
ok a >>> f = f a
fail e >>> f = fail e
panicked >>> f = panicked
out_of_fuel >>> f = out_of_fuel

-- The loop of `indexByteFrom`, on the bytes from position `i` on.
unfoldable pub index_byte : Text → ℕ → ℕ → Option ℕ
index_byte [] i b = none
index_byte (c ∷ cs) i b = let rest = index_byte cs (suc i) b in if c == b then some i else rest

-- `indexByteFrom(data, from, b)`; -1 is `none`.
unfoldable pub index_byte_from : Text → ℕ → ℕ → Option ℕ
unfolding index_byte
index_byte_from data_ from b = index_byte (drop from data_) from b

-- `data[i:j]`; the run-time check is in `slice`.
abbrev pub sub_bytes : Text → ℕ → ℕ → Text
sub_bytes data_ i j = take (j - i) (drop i data_)

-- `return data[start:end], end, nil` for an `end` that is not above the length.
unfoldable pub slice : Text → ℕ → ℤ → Scan (Text × ℕ)
slice data_ start (pos stop) =
    if leb start stop then ok (sub_bytes data_ start stop, stop) else panicked
slice data_ start (negsuc n) = panicked

-- `scanString`, once the length `n` of the token is read.
unfoldable pub scan_bytes : Text → ℕ → ℤ → Scan (Text × ℕ)
unfolding slice
scan_bytes data_ start (negsuc n) = fail bad_length
scan_bytes data_ start (pos n) =
    let stop = wrap64 (pos (start + n)) in
    if ltb_ℤ (pos (length data_)) stop then fail length_exceeds_data else slice data_ start stop

-- `scanString(data, pos)`.
unfoldable pub scan_string : Text → ℕ → Scan (Text × ℕ)
unfolding scan_bytes
scan_string data_ p = elim (index_byte_from data_ p b':') [
  | none ↦ fail missing_colon
  | some colon ↦ elim (atoi (sub_bytes data_ p colon)) [
    | none ↦ fail bad_length
    | some n ↦ scan_bytes data_ (colon + 1) n
  ]
]

abbrev pub max_bencode_depth : ℕ
max_bencode_depth = 32

-- The key of a dictionary's entry; a list's entry has none.
unfoldable pub scan_key : Text → ℕ → ℕ → Scan ℕ
scan_key data_ p c = if c == b'd' then (scan_string data_ p >>> λ s. ok s.1) else ok p

-- `scanValue(data, pos, depth)`, and the loop over a container that opened with the byte `c`.
unfoldable mutual
  pub scan_value : ℕ → Text → ℕ → ℕ → Scan ℕ
  scan_value zero data_ p depth = out_of_fuel
  scan_value (suc fuel) data_ p depth = elim (get_elem? data_ p) [
    | none ↦ fail unexpected_end
    | some c ↦
        let items = scan_items fuel data_ (p + 1) depth c in
        if ltb max_bencode_depth depth
        then fail too_deep
        else if c == b'i'
        then elim (index_byte_from data_ (p + 1) b'e') [
          | none ↦ fail unterminated_integer
          | some stop ↦ ok (stop + 1)
        ]
        else if c == b'l' || c == b'd'
        then items
        else if is_digit c
        then (scan_string data_ p >>> λ s. ok s.1)
        else fail unexpected_byte
  ]

  pub scan_items : ℕ → Text → ℕ → ℕ → ℕ → Scan ℕ
  scan_items zero data_ p depth c = out_of_fuel
  scan_items (suc fuel) data_ p depth c = elim (get_elem? data_ p) [
    | none ↦ fail unterminated_container
    | some b ↦
        let rest = scan_key data_ p c >>> λ q.
        scan_value fuel data_ q (depth + 1) >>> λ next. scan_items fuel data_ next depth c in
        if b == b'e' then ok (p + 1) else rest
  ]

-- Rounds that suffice for data of this many bytes.
abbrev pub enough_fuel : Text → ℕ
enough_fuel data_ = 2 * length data_ + 2

-- The loop of `infoDictBytes` from position `p` on.
unfoldable pub find_info : ℕ → Text → ℕ → Scan Text
find_info zero data_ p = out_of_fuel
find_info (suc fuel) data_ p = elim (get_elem? data_ p) [
  | none ↦ fail no_info
  | some b ↦
      let rest = scan_string data_ p >>> λ key.
      scan_value (enough_fuel data_) data_ key.1 1 >>> λ stop.
      (let later = find_info fuel data_ stop in
        if text_eq key.0 (codes "info") then ok (sub_bytes data_ key.1 stop) else later) in
      if b == b'e' then fail no_info else rest
]

-- `infoDictBytes(data)`.
unfoldable pub info_dict_bytes : Text → Scan Text
unfolding find_info
info_dict_bytes [] = fail not_a_dictionary
info_dict_bytes (b ∷ bs) =
    let rest = find_info (length (b ∷ bs)) (b ∷ bs) 1 in
    if b == b'd' then rest else fail not_a_dictionary

-- What the code calls of `strings`, `crypto/sha1`, `encoding/hex`, `encoding/base32` and `net/url`.
-- A decoder or parser that fails is `none`; a parsed query gives the values of a key.
pub record Packages : Type 0 where
  pub trim_space : Text → Text
  pub to_lower : Text → Text
  pub to_upper : Text → Text
  pub sha1 : Text → Text
  pub hex_encode : Text → Text
  pub hex_decode : Text → Option Text
  pub base32_decode : Text → Option Text
  pub parse_query : Text → Option (Text → List Text)

module _ (pk : Packages) where
  -- `FromTorrent(data)`.
  unfoldable pub from_torrent : Text → Scan Text
  from_torrent data_ = info_dict_bytes data_ >>> λ info. ok (pk.hex_encode (pk.sha1 info))

  -- `normalizeHash(h)`, on the trimmed payload.
  unfoldable pub normalize_trimmed : Text → Scan Text
  normalize_trimmed h =
      if length h == 40
      then elim (pk.hex_decode h) [ none ↦ fail invalid_hex | some _ ↦ ok (pk.to_lower h) ]
      else if length h == 32
      then elim (pk.base32_decode (pk.to_upper h)) [
        | none ↦ fail invalid_base32
        | some raw ↦ ok (pk.hex_encode raw)
      ]
      else fail unexpected_length

  unfoldable pub normalize_hash : Text → Scan Text
  unfolding normalize_trimmed
  normalize_hash h = normalize_trimmed (pk.trim_space h)

  -- The loop over `vals["xt"]`.
  unfoldable pub first_btih : List Text → Scan Text
  first_btih [] = fail no_btih
  first_btih (xt ∷ xts) =
      if has_prefix xt (codes "urn:btih:") then normalize_hash (drop 9 xt) else first_btih xts

  -- What follows the first `?`, or the whole text.
  unfoldable pub query_of : Text → Text
  query_of magnet = elim (index_byte_from magnet 0 b'?') [
    | none ↦ magnet
    | some i ↦ drop (i + 1) magnet
  ]

  -- `FromMagnet(magnet)`.
  unfoldable pub from_magnet : Text → Scan Text
  unfolding first_btih query_of
  from_magnet magnet = elim (pk.parse_query (query_of magnet)) [
    | none ↦ fail bad_query
    | some vals ↦ first_btih (vals (codes "xt"))
  ]

  -- `FromPayload(magnetURI, torrentFile)`.
  unfoldable pub from_payload : Text → Text → Scan Text
  from_payload magnet torrent =
      if not (text_eq (pk.trim_space magnet) [])
      then from_magnet magnet
      else if not (text_eq torrent [])
      then from_torrent torrent
      else fail no_source
